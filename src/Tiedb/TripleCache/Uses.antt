-- ===== src/Tiedb/TripleCache/Uses.antt =====
-- What the calls answer and leave, against the list of entries in order of use.
use tie.Prelude.{
  ℕ, zero, suc, ◌≤◌, ◌<◌, ◌≡◌, refl, ap, sym, ◌∙◌, true, false, Option, none, some, List, [], ◌∷◌,
  arith, ltb, nat_eq, nat_beq_iff, length, take, take_of_length-le, Option-cases, Bool-cases, inl,
  inr,
}
use tie.Prelude.GoMap
use tie.Prelude.Int.{ℤ, int_eq, int_beq_iff, int_beq}
use tie.Tiedb.Triples.{Triple}
use tie.Tiedb.TripleCache.{
  CacheEntry, Elements, TripleCache, move_to_front, back, get, trim, push, put, evict,
}
use tie.Tiedb.TripleCache.Recency.{
  contents, find_element, IsValid, find-get, find-none, contents-delete, find-delete, front,
  front-IsValid,
}

-- The entries after a use of `p`, which holds `t`.
abbrev pub used : ℤ → Triple → List CacheEntry → List CacheEntry
used p t es = (p, t) ∷ GoMap.delete es p

abbrev pub after_get : Option Triple → ℤ → List CacheEntry → List CacheEntry
after_get none p es = es
after_get (some t) p es = used p t es

get-at :
    (c : TripleCache) (p : ℤ) (el : ℕ) (t : Triple)
    → GoMap.get c.items p ≡ some el
    → GoMap.get c.ll el ≡ some (p, t)
    → get c p ≡ (record c { ll = front el p t c.ll }, some t)
unfolding get move_to_front
get-at c p el t hit at = ground (arith, hit, at)

get-missing : (c : TripleCache) (p : ℤ) → GoMap.get c.items p ≡ none → get c p ≡ (c, none)
unfolding get
get-missing c p miss = ground (arith, miss)

module _ (c : TripleCache) (p : ℤ) (h : IsValid c) where
  get_hit :
      (el : ℕ)
      → GoMap.get c.items p ≡ some el
      → (t : Triple) × (GoMap.get (contents c.ll) p ≡ some t)
        × (get c p ≡ (record c { ll = front el p t c.ll }, some t))
  get_hit el hit =
      let (t, at, value) = find-get c.ll p el h.elements (sym (h.indexed p) ∙ hit) in
      (t, value, get-at c p el t hit at)

  get_miss :
      GoMap.get c.items p ≡ none → (GoMap.get (contents c.ll) p ≡ none) × (get c p ≡ (c, none))
  get_miss miss = (find-none c.ll p (sym (h.indexed p) ∙ miss), get-missing c p miss)

  -- On a valid cache, `Get` answers with the entry of the position, makes it the one used last, and
  -- keeps the cache valid; a miss changes nothing.
  pub get-used :
      ((get c p).1 ≡ GoMap.get (contents c.ll) p)
      × (contents (get c p).0.ll ≡ after_get (GoMap.get (contents c.ll) p) p (contents c.ll))
      × IsValid (get c p).0
  get-used = elim (Option-cases (GoMap.get c.items p)) [
    | inl miss ↦ let (absent, e) = get_miss miss in rw (e, absent) (refl, refl, h)
    | inr (el, hit) ↦
        let (t, value, e) = get_hit el hit in
        rw (e, value)
          (
            refl,
            (unfold contents in
                ap (◌∷◌ (p, t))
                  (contents-delete c.ll p el h.elements h.positions (sym (h.indexed p) ∙ hit))),
            front-IsValid c p t el h hit,
          )
  ]

  -- On a valid cache, `Evict` forgets the entry of the position and nothing else, and the cache stays
  -- valid.
  pub evict-contents :
      (contents (evict c p).ll ≡ GoMap.delete (contents c.ll) p) × IsValid (evict c p)
  evict-contents = elim (Option-cases (GoMap.get c.items p)) [
    | inl miss ↦
        unfold evict in
        rw (miss, evict) (sym (GoMap.delete_absent (contents c.ll) p (get_miss miss).0), h)
    | inr (el, hit) ↦
        let found = sym (h.indexed p) ∙ hit in
        let gone = contents-delete c.ll p el h.elements h.positions found in
        unfold evict in
        rw (hit, evict)
          (
            gone,
            record {
              elements = GoMap.delete-Distinct c.ll el h.elements;
              positions = rw gone (GoMap.delete-Distinct (contents c.ll) p h.positions);
              indexed = λ q. ground (
                arith,
                GoMap.get-delete c.items p q,
                h.indexed q,
                find-delete c.ll p el q h.elements h.positions found,
              );
              unused = λ i le. ground (arith, GoMap.get-delete c.ll el i, h.unused i le);
              bounded = omega (arith, GoMap.length-delete-le c.ll el, h.bounded);
              positive = h.positive;
            },
          )
  ]

abbrev last_entry : List CacheEntry → Option CacheEntry
last_entry [] = none
last_entry (e ∷ []) = some e
last_entry (e ∷ f ∷ m) = last_entry (f ∷ m)

last-get :
    (m : List CacheEntry) (p : ℤ) (t : Triple)
    → GoMap.Distinct m
    → last_entry m ≡ some (p, t)
    → GoMap.get m p ≡ some t
unfolding GoMap.get
last-get [] p t d b = cc
last-get ((q, u) ∷ []) p t d b = ground (arith, int_beq_iff q p)
last-get ((q, u) ∷ f ∷ m) p t d b = ground (arith, int_beq_iff q p, last-get (f ∷ m) p t)

-- To delete the last key is to keep all entries but one.
delete-last :
    (m : List CacheEntry) (p : ℤ) (t : Triple) (n : ℕ)
    → GoMap.Distinct m
    → length m ≡ suc n
    → last_entry m ≡ some (p, t)
    → GoMap.delete m p ≡ take n m
unfolding GoMap.delete GoMap.get
delete-last [] p t n d l b = cc
delete-last ((q, u) ∷ []) p t zero d l b = ground (arith, int_beq_iff q p)
delete-last ((q, u) ∷ []) p t (suc n) d l b = absurd (omega arith)
delete-last ((q, u) ∷ f ∷ m) p t zero d l b = absurd (omega arith)
delete-last ((q, u) ∷ f ∷ m) p t (suc n) d l b =
    let ih = delete-last (f ∷ m) p t n d.1 (omega arith) b in
    let there = last-get (f ∷ m) p t d.1 b in
    elim (Bool-cases (int_beq q p)) [
      | inl here ↦ absurd (ground (arith, here, int_beq_iff q p, there))
      | inr away ↦ rw away (ap (◌∷◌ (q, u)) ih)
    ]

-- The element at the back holds the last entry.
back-last :
    (ll : Elements)
    → GoMap.Distinct (contents ll)
    → 0 < length ll
    → (el : ℕ) × (p : ℤ) × (t : Triple) × (back ll ≡ some (el, (p, t)))
      × (last_entry (contents ll) ≡ some (p, t))
      × (find_element ll p ≡ some el)
unfolding back contents find_element
back-last [] d l = absurd (omega arith)
back-last ((el, (p, t)) ∷ []) d l = (el, p, t, refl, refl, ground (arith, int_beq_iff p p))
back-last ((i, (q, u)) ∷ f ∷ ll) d l =
    let (el, p, t, b, last, found) = back-last (f ∷ ll) d.1 (omega arith) in
    let there = last-get (contents (f ∷ ll)) p t d.1 last in
    (
      el,
      p,
      t,
      b,
      last,
      elim (Bool-cases (int_beq q p)) [
        | inl here ↦ absurd (ground (arith, here, int_beq_iff q p, there, d.0))
        | inr away ↦ rw away found
      ],
    )

length-contents : (ll : Elements) → length (contents ll) ≡ length ll
unfolding contents
length-contents [] = refl
length-contents ((el, e) ∷ ll) = ap suc (length-contents ll)

-- A cache that may hold one entry too many.
record IsFilled (c : TripleCache) : Type 0 where
  elements : GoMap.Distinct c.ll
  positions : GoMap.Distinct (contents c.ll)
  indexed : (p : ℤ) → GoMap.get c.items p ≡ find_element c.ll p
  unused : (el : ℕ) → c.fresh ≤ el → GoMap.get c.ll el ≡ none
  bounded : length c.ll ≤ suc c.capacity
  positive : 0 < c.capacity

push-IsFilled :
    (c : TripleCache) (p : ℤ) (t : Triple)
    → IsValid c
    → GoMap.get c.items p ≡ none
    → IsFilled (push c p t)
unfolding push
push-IsFilled c p t h miss = record {
  elements = (h.unused c.fresh (omega arith), h.elements);
  positions = unfold contents in (find-none c.ll p (sym (h.indexed p) ∙ miss), h.positions);
  indexed =
      λ q. unfold find_element in ground (arith, GoMap.get-put c.items p c.fresh q, h.indexed q);
  unused = λ i le. unfold GoMap.get in ground (arith, h.unused i, nat_beq_iff c.fresh i);
  bounded = omega (arith, h.bounded);
  positive = h.positive;
}

trim-fits : (c : TripleCache) → ltb c.capacity (length c.ll) ≡ false → trim c ≡ c
unfolding trim
trim-fits c e = rw e

trim-drops :
    (c : TripleCache) (el : ℕ) (p : ℤ) (t : Triple)
    → ltb c.capacity (length c.ll) ≡ true
    → back c.ll ≡ some (el, (p, t))
    → trim c ≡ record c { ll = GoMap.delete c.ll el; items = GoMap.delete c.items p }
unfolding trim
trim-drops c el p t long b = ground (arith, long, b)

-- The trim of a filled cache is valid and keeps the entries used last.
trim-IsValid :
    (c : TripleCache)
    → IsFilled c
    → (contents (trim c).ll ≡ take c.capacity (contents c.ll)) × IsValid (trim c)
trim-IsValid c h = elim (Bool-cases (ltb c.capacity (length c.ll))) [
  | inr fits ↦ rw (trim-fits c fits) (
    sym (take_of_length-le c.capacity (contents c.ll) (ground (arith, fits, length-contents c.ll))),
    record {
      elements = h.elements;
      positions = h.positions;
      indexed = h.indexed;
      unused = h.unused;
      bounded = ground (arith, fits);
      positive = h.positive;
    },
  )
  | inl long ↦
      let (el, p, t, b, last, found) = back-last c.ll h.positions (ground (arith, long)) in
      let gone = contents-delete c.ll p el h.elements h.positions found in
      let (u, at, value) = find-get c.ll p el h.elements found in
      rw (trim-drops c el p t long b) (
        gone
            ∙ delete-last (contents c.ll) p t c.capacity h.positions
                (ground (arith, long, h.bounded, length-contents c.ll)) last,
        record {
          elements = GoMap.delete-Distinct c.ll el h.elements;
          positions = rw gone (GoMap.delete-Distinct (contents c.ll) p h.positions);
          indexed = λ q. ground (
            arith,
            GoMap.get-delete c.items p q,
            h.indexed q,
            find-delete c.ll p el q h.elements h.positions found,
          );
          unused = λ i le. ground (arith, GoMap.get-delete c.ll el i, h.unused i le);
          bounded =
              omega (arith, GoMap.length-delete c.ll el {v = (p, u)} h.elements at, h.bounded);
          positive = h.positive;
        },
      )
]

put-hit :
    (c : TripleCache) (p : ℤ) (t : Triple) (el : ℕ)
    → GoMap.get c.items p ≡ some el
    → put c p t ≡ record c { ll = front el p t c.ll }
unfolding put move_to_front
put-hit c p t el hit = ground (
  arith,
  hit,
  GoMap.get-put c.ll el (p, t) el,
  GoMap.delete-put c.ll el (p, t),
  nat_beq_iff el el,
)

put-miss :
    (c : TripleCache) (p : ℤ) (t : Triple)
    → GoMap.get c.items p ≡ none
    → put c p t ≡ trim (push c p t)
unfolding put
put-miss c p t miss = rw (miss, put)

take-used :
    (c : TripleCache) (p : ℤ) (t : Triple)
    → length (used p t (contents c.ll)) ≤ c.capacity
    → used p t (contents c.ll) ≡ take c.capacity (used p t (contents c.ll))
take-used c p t fits = sym (take_of_length-le c.capacity (used p t (contents c.ll)) fits)

contents-front :
    (c : TripleCache) (p : ℤ) (t : Triple) (el : ℕ)
    → contents (GoMap.delete c.ll el) ≡ GoMap.delete (contents c.ll) p
    → contents (front el p t c.ll) ≡ used p t (contents c.ll)
unfolding contents
contents-front c p t el gone = ap (◌∷◌ (p, t)) gone

-- On a valid cache, `Put` leaves the entry in front, then the others in their order, and drops the
-- one used longest ago if they are more than the capacity; the cache stays valid.
pub put-used :
    (c : TripleCache) (p : ℤ) (t : Triple)
    → IsValid c
    → (contents (put c p t).ll ≡ take c.capacity (used p t (contents c.ll))) × IsValid (put c p t)
put-used c p t h = elim (Option-cases (GoMap.get c.items p)) [
  | inr (el, hit) ↦
      let found = sym (h.indexed p) ∙ hit in
      let gone = contents-delete c.ll p el h.elements h.positions found in
      let v = front-IsValid c p t el h hit in
      rw (put-hit c p t el hit) (
        contents-front c p t el gone
            ∙ take-used c p t
                (omega (arith, v.bounded, length-contents (GoMap.delete c.ll el), ap length gone)),
        v,
      )
  | inl miss ↦
      let absent = find-none c.ll p (sym (h.indexed p) ∙ miss) in
      let (e, v) = trim-IsValid (push c p t) (push-IsFilled c p t h miss) in
      rw (put-miss c p t miss)
        (rw (GoMap.delete_absent (contents c.ll) p absent) (unfold push contents in e), v)
]
