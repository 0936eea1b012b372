-- ===== src/Tiedb/TripleCache.antt =====
-- tiedb/triplecache.go: the bounded least-recently-used cache of decoded triples. An element of
-- the linked list has an identity, which the map of items holds, as Go's does by its pointer.
pub mod Recency
pub mod Uses
use tie.Prelude.{
  ℕ, suc, ◌+◌, Bool, true, false, Option, none, some, List, [], ◌∷◌, if◌then◌else◌, ltb, nat_eq,
  length,
}
use tie.Prelude.GoMap
use tie.Prelude.Int.{ℤ, int_eq}
use tie.Tiedb.Triples.{Triple}

abbrev pub CacheEntry : Type 0
CacheEntry = ℤ × Triple

-- container/list: the elements from the front, each under its identity.
abbrev pub Elements : Type 0
Elements = List (ℕ × CacheEntry)

-- `fresh` is the identity of the next element.
pub record TripleCache : Type 0 where
  pub capacity : ℕ
  pub ll : Elements
  pub items : List (ℤ × ℕ)
  pub fresh : ℕ

abbrev pub default_triple_cache_size : ℕ
default_triple_cache_size = 100000

-- A capacity that is not positive is replaced by the default; on ℕ that is 0.
unfoldable pub new_triple_cache : ℕ → TripleCache
new_triple_cache capacity = record {
  capacity = if ltb 0 capacity then capacity else default_triple_cache_size;
  ll = [];
  items = [];
  fresh = 0;
}

unfoldable pub move_to_front : ℕ → Elements → Elements
move_to_front el ll = elim (GoMap.get ll el) [ none ↦ ll | some e ↦ (el, e) ∷ GoMap.delete ll el ]

unfoldable pub back : Elements → Option (ℕ × CacheEntry)
back [] = none
back (e ∷ []) = some e
back (e ∷ f ∷ ll) = back (f ∷ ll)

unfoldable pub get : TripleCache → ℤ → TripleCache × Option Triple
unfolding move_to_front
get c p = elim (GoMap.get c.items p) [
  | none ↦ (c, none)
  | some el ↦ (
    record c { ll = move_to_front el c.ll },
    elim (GoMap.get c.ll el) [ none ↦ none | some e ↦ some e.1 ],
  )
]

-- if c.ll.Len() > c.capacity: drop the oldest element and its item.
unfoldable pub trim : TripleCache → TripleCache
unfolding back
trim c =
    if ltb c.capacity (length c.ll)
    then (elim (back c.ll) [
      | none ↦ c
      | some oldest ↦ record c {
        ll = GoMap.delete c.ll oldest.0;
        items = GoMap.delete c.items oldest.1.0;
      }
    ])
    else c

unfoldable pub push : TripleCache → ℤ → Triple → TripleCache
push c p t = record c {
  ll = (c.fresh, (p, t)) ∷ c.ll;
  items = GoMap.put c.items p c.fresh;
  fresh = suc c.fresh;
}

unfoldable pub put : TripleCache → ℤ → Triple → TripleCache
unfolding move_to_front trim push
put c p t = elim (GoMap.get c.items p) [
  | some el ↦ record c { ll = move_to_front el (GoMap.put c.ll el (p, t)) }
  | none ↦ trim (push c p t)
]

unfoldable pub evict : TripleCache → ℤ → TripleCache
evict c p = elim (GoMap.get c.items p) [
  | none ↦ c
  | some el ↦ record c { ll = GoMap.delete c.ll el; items = GoMap.delete c.items p }
]
