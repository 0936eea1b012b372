-- ===== src/Tiedb/AssociationSet/Visits.antt =====
-- What `ForEach`, `Size` and `HasRelation` see of a set.
use tie.Prelude.{
  ℕ, zero, suc, ◌<◌, ◌≡◌, ◌↔◌, refl, Bool, true, Option, none, some, List, [], ◌∷◌, ◌++◌, arith,
  nat_eq, is_some, length, length-append, inl, inr, Bool-cases, nat_beq, nat_beq_iff, sym, ◌∙◌,
}
use tie.Prelude.GoMap
use tie.Prelude.Int.{ℤ}
use tie.Tiedb.AssociationSet.{
  UniqueAssociation, association_eq, association_beq_iff, AssocEntry, AssocShardSet, AssociationSet,
  shard_for, assoc_shards, get, shard_entries, entries, shard_sizes, size, any_relation,
  has_relation,
}
use tie.Tiedb.AssociationSet.Shards.{IsSharded, get-shard_entries}
use tie.Tiedb.AssociationSet.Refines.{IsSmall, IsLarge, IsValid, tiers}

shard_for-lt : (k : UniqueAssociation) → shard_for k < assoc_shards
unfolding shard_for
shard_for-lt k = omega arith

-- Two lists of entries with no key in common.
abbrev Apart : List AssocEntry → List AssocEntry → Type 0
Apart [] ys = Unit
Apart ((k, v) ∷ xs) ys = (GoMap.get ys k ≡ none) × Apart xs ys

append-Distinct :
    (xs ys : List AssocEntry)
    → GoMap.Distinct xs
    → GoMap.Distinct ys
    → Apart xs ys
    → GoMap.Distinct (xs ++ ys)
append-Distinct [] ys d e a = e
append-Distinct ((k, v) ∷ xs) ys d e a =
    ground (arith, GoMap.get-append xs ys k, append-Distinct xs ys)

Apart-of_get :
    (xs ys : List AssocEntry)
    → ((k : UniqueAssociation) → is_some (GoMap.get xs k) ≡ true → GoMap.get ys k ≡ none)
    → GoMap.Distinct xs
    → Apart xs ys
unfolding GoMap.get
Apart-of_get [] ys h d = tt
Apart-of_get ((k, v) ∷ xs) ys h d = (
  h k (ground (arith, association_beq_iff k k)),
  Apart-of_get xs ys (λ j p. h j (ground (arith, p))) d.1,
)

entry_below :
    (sh : AssocShardSet) (n : ℕ) (k : UniqueAssociation)
    → IsSharded sh
    → is_some (GoMap.get (shard_entries sh n) k) ≡ true
    → GoMap.get (sh n) k ≡ none
entry_below sh n k h p = ground (arith, get-shard_entries sh n k h, h.home n k)

shard_entries-Distinct :
    (sh : AssocShardSet) (n : ℕ) → IsSharded sh → GoMap.Distinct (shard_entries sh n)
unfolding shard_entries
shard_entries-Distinct sh zero h = tt
shard_entries-Distinct sh (suc n) h =
    append-Distinct (shard_entries sh n) (sh n) (shard_entries-Distinct sh n h) (h.distinct n) (
      Apart-of_get (shard_entries sh n) (sh n) (λ k p. entry_below sh n k h p)
        (shard_entries-Distinct sh n h))

length-shard_entries : (sh : AssocShardSet) (n : ℕ) → length (shard_entries sh n) ≡ shard_sizes sh n
unfolding shard_entries shard_sizes
length-shard_entries sh zero = refl
length-shard_entries sh (suc n) =
    omega (arith, length-append {0} (shard_entries sh n) (sh n), length-shard_entries sh n)

pub record IsListing (s : AssociationSet) (es : List AssocEntry) : Type 0 where
  pub once : GoMap.Distinct es
  pub same : (k : UniqueAssociation) → GoMap.get es k ≡ get s k

module _ (ik : UniqueAssociation) (iv : ℤ) (has : Bool) where
  IsListing-by_tier :
      (es : Option (List AssocEntry)) (sh : Option AssocShardSet)
      → IsSmall es
      → IsLarge sh
      → IsListing (tiers ik iv has es sh) (entries (tiers ik iv has es sh))
  IsListing-by_tier none none a b =
      unfold entries get GoMap.get in
      record { once = ground arith; same = λ k. ground (arith, association_beq_iff ik k) }
  IsListing-by_tier (some es) none a b =
      unfold entries get in record { once = a.0; same = λ k. refl }
  IsListing-by_tier es (some sh) a b =
      unfold entries get in
      record {
        once = shard_entries-Distinct sh assoc_shards b;
        same = λ k. ground (arith, get-shard_entries sh assoc_shards k b, shard_for-lt k);
      }

  length_by_tier :
      (es : Option (List AssocEntry)) (sh : Option AssocShardSet)
      → length (entries (tiers ik iv has es sh)) ≡ size (tiers ik iv has es sh)
  unfolding entries size
  length_by_tier none none = ground arith
  length_by_tier (some es) none = refl
  length_by_tier es (some sh) = length-shard_entries sh assoc_shards

  any_by_tier :
      (rel : ℕ) (es : Option (List AssocEntry)) (sh : Option AssocShardSet)
      → has_relation (tiers ik iv has es sh) rel
        ≡ any_relation rel (entries (tiers ik iv has es sh))
  unfolding has_relation any_relation entries
  any_by_tier rel none none = ground arith
  any_by_tier rel (some es) none = refl
  any_by_tier rel es (some sh) = refl

pub entries-IsListing : (s : AssociationSet) → IsValid s → IsListing s (entries s)
entries-IsListing s h =
    IsListing-by_tier s.inline_key s.inline_val s.has_inline s.small s.shards h.slice h.sharded

-- On a valid set, a visit sees every key that is present exactly once and with its position, and
-- sees as many entries as `Size` counts.
pub visit_exact :
    (s : AssociationSet)
    → IsValid s
    → GoMap.Distinct (entries s)
      × ((k : UniqueAssociation) → GoMap.get (entries s) k ≡ get s k)
      × (length (entries s) ≡ size s)
visit_exact s h =
    let l = entries-IsListing s h in
    (l.once, l.same, length_by_tier s.inline_key s.inline_val s.has_inline s.small s.shards)

abbrev pub Carries : AssociationSet → ℕ → Type 0
Carries s rel = (k : UniqueAssociation) × (p : ℤ) × (k.relation ≡ rel) × (get s k ≡ some p)

any_relation_sound :
    (rel : ℕ) (es : List AssocEntry)
    → any_relation rel es ≡ true
    → (k : UniqueAssociation) × (p : ℤ) × (k.relation ≡ rel) × (GoMap.get es k ≡ some p)
unfolding any_relation GoMap.get
any_relation_sound rel [] h = cc
any_relation_sound rel ((k, p) ∷ es) h = elim (Bool-cases (nat_beq k.relation rel)) [
  | inl here ↦ (k, p, (nat_beq_iff _ _).0 here, ground (arith, association_beq_iff k k))
  | inr there ↦
      let (j, q, e, found) = any_relation_sound rel es (ground (arith, there)) in
      (j, q, e, ground (arith, association_beq_iff k j))
]

any_relation_complete :
    (rel : ℕ) (es : List AssocEntry) (k : UniqueAssociation) (p : ℤ)
    → k.relation ≡ rel
    → GoMap.get es k ≡ some p
    → any_relation rel es ≡ true
unfolding any_relation GoMap.get
any_relation_complete rel [] k p e h = cc
any_relation_complete rel ((j, q) ∷ es) k p e h =
    ground (arith, association_beq_iff j k, any_relation_complete rel es k p)

-- On a valid set, `HasRelation` holds exactly if some entry is stored under the relation.
pub has_relation_iff :
    (s : AssociationSet) (rel : ℕ) → IsValid s → (has_relation s rel ≡ true) ↔ Carries s rel
has_relation_iff s rel h =
    let l = entries-IsListing s h in
    let e = any_by_tier s.inline_key s.inline_val s.has_inline rel s.small s.shards in
    (
      (λ t.
          let (k, p, r, g) = any_relation_sound rel (entries s) (sym e ∙ t) in
          (k, p, r, sym (l.same k) ∙ g)),
      (λ c. e ∙ any_relation_complete rel (entries s) c.0 c.1 c.2 (l.same c.0 ∙ c.3)),
    )
