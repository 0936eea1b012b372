-- ===== src/Tiedb/TripleCache/Recency.antt =====
-- The cache holds its entries in order of use, and forgets only the one used longest ago.
use tie.Prelude.{
  ℕ, ◌≤◌, ◌<◌, ◌≡◌, refl, sym, ◌∙◌, Option, none, some, List, [], ◌∷◌, arith, if◌then◌else◌, nat_eq,
  nat_beq_iff, length, Bool-cases, eq_self, inl, inr,
}
use tie.Prelude.GoMap
use tie.Prelude.Int.{ℤ, int_eq, int_beq_iff, int_beq}
use tie.Tiedb.Triples.{Triple}
use tie.Tiedb.TripleCache.{CacheEntry, Elements, TripleCache}

-- The entries from the one used last.
unfoldable pub contents : Elements → List CacheEntry
contents [] = []
contents ((el, e) ∷ ll) = e ∷ contents ll

-- The element with an entry for the position.
unfoldable pub find_element : Elements → ℤ → Option ℕ
find_element [] p = none
find_element ((el, e) ∷ ll) p = if int_beq e.0 p then some el else find_element ll p

pub record IsValid (c : TripleCache) : Type 0 where
  pub elements : GoMap.Distinct c.ll
  pub positions : GoMap.Distinct (contents c.ll)
  pub indexed : (p : ℤ) → GoMap.get c.items p ≡ find_element c.ll p
  pub unused : (el : ℕ) → c.fresh ≤ el → GoMap.get c.ll el ≡ none
  pub bounded : length c.ll ≤ c.capacity
  pub positive : 0 < c.capacity

pub find-get :
    (ll : Elements) (p : ℤ) (el : ℕ)
    → GoMap.Distinct ll
    → find_element ll p ≡ some el
    → (t : Triple) × (GoMap.get ll el ≡ some (p, t)) × (GoMap.get (contents ll) p ≡ some t)
unfolding find_element contents GoMap.get
find-get [] p el d h = cc
find-get ((i, (q, u)) ∷ ll) p el d h = elim (Bool-cases (int_beq q p)) [
  | inl here ↦ (u, ground (arith, here, int_beq_iff q p, nat_beq_iff i el), ground (arith, here))
  | inr there ↦
      let (t, a, b) = find-get ll p el d.1 (ground (arith, there)) in
      (t, ground (arith, a, nat_beq_iff i el, d.0), ground (arith, b, there))
]

pub find-none :
    (ll : Elements) (p : ℤ) → find_element ll p ≡ none → GoMap.get (contents ll) p ≡ none
unfolding find_element contents GoMap.get
find-none [] p h = refl
find-none ((i, (q, u)) ∷ ll) p h = ground (arith, find-none ll p)

pub absent_find :
    (ll : Elements) (p : ℤ) → GoMap.get (contents ll) p ≡ none → find_element ll p ≡ none
unfolding find_element contents GoMap.get
absent_find [] p h = refl
absent_find ((i, (q, u)) ∷ ll) p h = ground (arith, absent_find ll p)

pub contents-delete :
    (ll : Elements) (p : ℤ) (el : ℕ)
    → GoMap.Distinct ll
    → GoMap.Distinct (contents ll)
    → find_element ll p ≡ some el
    → contents (GoMap.delete ll el) ≡ GoMap.delete (contents ll) p
unfolding find_element contents GoMap.delete GoMap.get
contents-delete [] p el d e h = cc
contents-delete ((i, (q, u)) ∷ ll) p el d e h = elim (Bool-cases (int_beq q p)) [
  | inl here ↦ ground (
    arith,
    here,
    nat_beq_iff i el,
    int_beq_iff q p,
    GoMap.delete_absent ll el,
    GoMap.delete_absent (contents ll) p,
  )
  | inr there ↦
      let h' : find_element ll p ≡ some el = ground (arith, there) in
      let (t, a, b) = find-get ll p el d.1 h' in
      ground (arith, there, nat_beq_iff i el, a, contents-delete ll p el d.1 e.1 h')
]

pub find-delete :
    (ll : Elements) (p : ℤ) (el : ℕ) (q : ℤ)
    → GoMap.Distinct ll
    → GoMap.Distinct (contents ll)
    → find_element ll p ≡ some el
    → find_element (GoMap.delete ll el) q ≡ (if int_beq p q then none else find_element ll q)
unfolding find_element contents GoMap.delete GoMap.get
find-delete [] p el q d e h = cc
find-delete ((i, (r, u)) ∷ ll) p el q d e h = elim (Bool-cases (int_beq r p)) [
  | inl here ↦ ground (
    arith,
    here,
    nat_beq_iff i el,
    int_beq_iff r p,
    int_beq_iff p q,
    GoMap.delete_absent ll el,
    absent_find ll p,
  )
  | inr there ↦
      let h' : find_element ll p ≡ some el = ground (arith, there) in
      let (t, a, b) = find-get ll p el d.1 h' in
      ground (
        arith,
        there,
        nat_beq_iff i el,
        a,
        int_beq_iff p q,
        int_beq_iff r q,
        int_beq_iff r p,
        find-delete ll p el q d.1 e.1 h',
      )
]

-- The list with the element of `p` in front, holding `t`.
abbrev pub front : ℕ → ℤ → Triple → Elements → Elements
front el p t ll = (el, (p, t)) ∷ GoMap.delete ll el

pub front-IsValid :
    (c : TripleCache) (p : ℤ) (t : Triple) (el : ℕ)
    → IsValid c
    → GoMap.get c.items p ≡ some el
    → IsValid (record c { ll = front el p t c.ll })
front-IsValid c p t el h hit =
    let found = sym (h.indexed p) ∙ hit in
    let (u, at, value) = find-get c.ll p el h.elements found in
    record {
      elements = (simp (GoMap.get-delete, eq_self), GoMap.delete-Distinct c.ll el h.elements);
      positions =
          unfold contents in
          rw (contents-delete c.ll p el h.elements h.positions found)
            (simp (GoMap.get-delete, eq_self), GoMap.delete-Distinct (contents c.ll) p h.positions);
      indexed = λ q.
          unfold find_element in
          ground (
            arith,
            h.indexed q,
            h.indexed p,
            hit,
            int_beq_iff p q,
            find-delete c.ll p el q h.elements h.positions found,
          );
      unused = λ i le.
          unfold GoMap.get in
          ground
            (arith, h.unused i le, h.unused el, at, nat_beq_iff el i, GoMap.get-delete c.ll el i);
      bounded = omega (arith, GoMap.length-delete c.ll el {v = (p, u)} h.elements at, h.bounded);
      positive = h.positive;
    }
