-- ===== src/Tiedb/Resolve.antt =====
-- tiedb/assoc.go and tiedb/sort.go: from an index entry to the record it stands for, and to text.
use tie.Prelude.{
  ℕ, Bool, true, Option, none, some, List, [], ◌∷◌, if◌then◌else◌, nat_beq, ◌&&◌, ◌||◌, not,
}
use tie.Prelude.Int.{ℤ, is_negative}
use tie.Tiedb.Triples.{Bytes, Triple, StringTriple}
use tie.Tiedb.AssociationSet
use tie.Tiedb.AssociationSet.{AssociationSet, UniqueAssociation, AssocEntry}
use tie.Tiedb.TripleCache
use tie.Tiedb.TripleCache.{TripleCache}
use tie.Tiedb.Slots.{arena_load}
use tie.Tiedb.Collection.{Collection}
use tie.Tiedb.Intern.{get_entry_from_string, get_value_string}
use tie.Tiedb.Writer.{read_triple_at}
use Prim.Native.Nat.{compare, Ordering}

-- A lookup in the cache, where there is one.
cache_get : Collection → Option TripleCache → ℤ → Collection × Option Triple
cache_get ic none p = (ic, none)
cache_get ic (some c) p = let r = TripleCache.get c p in (record ic { cache = some r.0 }, r.1)

cache_put : Collection → ℤ → Triple → Collection
cache_put ic p t = record ic {
  cache = elim ic.cache [ none ↦ none | some c ↦ some (TripleCache.put c p t) ];
}

cache_evict : Collection → ℤ → Collection
cache_evict ic p = record ic {
  cache = elim ic.cache [ none ↦ none | some c ↦ some (TripleCache.evict c p) ];
}

-- A read from disk that fills the cache.
read_through : Collection → ℤ → Collection × Option Triple
unfolding cache_put
read_through ic p =
    let r = read_triple_at ic p in elim r.1 [ none ↦ r | some t ↦ (cache_put r.0 p t, some t) ]

unfoldable pub resolve_triple : Collection → ℤ → Collection × Option Triple
unfolding cache_get read_through
resolve_triple ic p =
    if is_negative p
    then (ic, none)
    else if not ic.write_to_disk
    then (ic, arena_load ic.arena p)
    else (let r = cache_get ic ic.cache p in elim r.1 [ some t ↦ r | none ↦ read_through r.0 p ])

unfoldable pub matches : UniqueAssociation → Triple → Bool
matches ua t =
    nat_beq t.value1 ua.relation
    && (nat_beq t.key ua.associate_to || nat_beq t.value2 ua.associate_to)

-- The cached record was another's: it is evicted and the record read once more.
reread : Collection → UniqueAssociation → ℤ → Collection × Option Triple
unfolding cache_evict cache_put
reread ic ua p =
    let r = read_triple_at (cache_evict ic p) p in
    elim r.1 [
      | none ↦ (r.0, none)
      | some t ↦ if matches ua t then (cache_put r.0 p t, some t) else (r.0, none)
    ]

unfoldable pub resolve_entry : Collection → UniqueAssociation → ℤ → Collection × Option Triple
unfolding reread
resolve_entry ic ua p =
    let r = resolve_triple ic p in
    elim r.1 [
      | none ↦ (r.0, none)
      | some t ↦ if matches ua t then (r.0, some t) else elim r.0.cache [
        | none ↦ (r.0, none)
        | some c ↦ if r.0.write_to_disk then reread r.0 ua p else (r.0, none)
      ]
    ]

unfoldable pub make_string_triple : Collection → Triple → StringTriple
make_string_triple ic t = record {
  key = get_value_string ic t.level t.key;
  value1 = get_value_string ic t.value1_level t.value1;
  value2 = get_value_string ic t.value2_level t.value2;
}

-- cmp.Compare on strings: by bytes, a prefix first.
unfoldable pub compare_bytes : Bytes → Bytes → Ordering
compare_bytes [] [] = Ordering.eq
compare_bytes [] (y ∷ ys) = Ordering.lt
compare_bytes (x ∷ xs) [] = Ordering.gt
compare_bytes (x ∷ xs) (y ∷ ys) =
    let rest = compare_bytes xs ys in
    elim (compare x y) [
      | Ordering.lt ↦ Ordering.lt
      | Ordering.gt ↦ Ordering.gt
      | Ordering.eq ↦ rest
    ]

abbrev then_compare : Ordering → Ordering → Ordering
then_compare Ordering.eq o = o
then_compare Ordering.lt o = Ordering.lt
then_compare Ordering.gt o = Ordering.gt

unfoldable pub compare_triples : StringTriple → StringTriple → Ordering
unfolding compare_bytes
compare_triples a b =
    then_compare (compare_bytes a.key b.key)
      (then_compare (compare_bytes a.value1 b.value1) (compare_bytes a.value2 b.value2))

-- slices.SortFunc, as an insertion sort.
unfoldable pub insert_sorted {ℓ} : {A : Type ℓ} → (A → A → Ordering) → A → List A → List A
insert_sorted cmp a [] = a ∷ []
insert_sorted cmp a (b ∷ bs) =
    let rest = insert_sorted cmp a bs in elim (cmp a b) [ Ordering.gt ↦ b ∷ rest | _ ↦ a ∷ b ∷ bs ]

unfoldable pub sort {ℓ} : {A : Type ℓ} → (A → A → Ordering) → List A → List A
unfolding insert_sorted
sort cmp [] = []
sort cmp (a ∷ as') = insert_sorted cmp a (sort cmp as')

-- The visitor of Sort: the entries under the relation, or all, that resolve.
unfoldable pub resolve_entries :
    Collection → Option ℕ → List AssocEntry → Collection × List StringTriple
resolve_entries ic relation [] = (ic, [])
resolve_entries ic relation ((ua, p) ∷ es) =
    let wanted : Bool = elim relation [ none ↦ true | some r ↦ nat_beq ua.relation r ] in
    let skipped = resolve_entries ic relation es in
    let r = resolve_entry ic ua p in
    let later = resolve_entries r.0 relation es in
    if wanted
    then (elim r.1 [ none ↦ later | some t ↦ (later.0, make_string_triple r.0 t ∷ later.1) ])
    else skipped

sort_entries : Collection × List StringTriple → Collection × List StringTriple
sort_entries (ic, found) = (ic, sort compare_triples found)

-- Sort without an order asked for, without a limit and from the first match; the total is the
-- length of the answer. An empty filter asks for every relation.
unfoldable pub sort_all : Collection → AssociationSet → Bytes → Collection × List StringTriple
unfolding sort_entries
sort_all ic s [] = sort_entries (resolve_entries ic none (AssociationSet.entries s))
sort_all ic s (b ∷ bs) =
    let r = get_entry_from_string ic (b ∷ bs) in
    elim r.1 [
      | none ↦ (r.0, [])
      | some (id, level) ↦ sort_entries (resolve_entries r.0 (some id) (AssociationSet.entries s))
    ]
