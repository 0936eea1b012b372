-- ===== src/Tiedb/AssociationSet/Algebra.antt =====
-- The set algebra of the queries: `intersect`, `intersectByAssociate` and `exclude`.
use tie.Prelude.{
  ℕ, ◌≡◌, ◌↔◌, refl, Bool, true, false, ◌&&◌, none, some, List, [], ◌∷◌, arith, if◌then◌else◌,
  nat_eq, ◌==◌, is_some, nat_beq, nat_beq_iff, Bool-cases, inl, inr, sym, ◌∙◌, ap,
}
use tie.Prelude.GoMap
use tie.Prelude.Int.{ℤ}
use tie.Tiedb.AssociationSet.{
  UniqueAssociation, association_eq, association_beq_iff, AssocEntry, AssociationSet,
  new_association_set, get, put, entries, put_if, intersect, associates, intersect_by_associate,
  exclude,
}
use tie.Tiedb.AssociationSet.Refines.{
  IsValid, get-put, put-IsValid, new_association_set-IsValid, get-new_association_set,
}
use tie.Tiedb.AssociationSet.Visits.{entries-IsListing}

put_if-IsValid :
    (test : UniqueAssociation → Bool) (out : AssociationSet) (es : List AssocEntry)
    → IsValid out
    → IsValid (put_if test out es)
unfolding put_if
put_if-IsValid test out [] h = h
put_if-IsValid test out ((k, p) ∷ es) h = elim (Bool-cases (test k)) [
  | inl yes_k ↦ rw yes_k (put_if-IsValid test (put out k p) es (put-IsValid out k p h))
  | inr no_k ↦ rw no_k (put_if-IsValid test out es h)
]

-- The loop adds the entries that pass the test.
get-put_if :
    (test : UniqueAssociation → Bool) (out : AssociationSet) (es : List AssocEntry)
    (k : UniqueAssociation)
    → IsValid out
    → GoMap.Distinct es
    → get (put_if test out es) k
      ≡ (if is_some (GoMap.get es k) && test k then GoMap.get es k else get out k)
unfolding put_if GoMap.get
get-put_if test out [] k h d = refl
get-put_if test out ((i, p) ∷ es) k h d = elim (Bool-cases (test i)) [
  | inl yes_i ↦ rw yes_i (
      ground (
        arith,
        get-put_if test (put out i p) es k (put-IsValid out i p h) d.1,
        get-put out i p k h,
        association_beq_iff i k,
      ))
  | inr no_i ↦ rw no_i (ground (arith, get-put_if test out es k h d.1, association_beq_iff i k))
]

-- The result of the loop over all entries of a valid set.
filtered :
    (test : UniqueAssociation → Bool) (s : AssociationSet) (k : UniqueAssociation)
    → IsValid s
    → get (put_if test new_association_set (entries s)) k ≡ (if test k then get s k else none)
filtered test s k h =
    let l = entries-IsListing s h in
    ground (
      arith,
      get-put_if test new_association_set (entries s) k new_association_set-IsValid l.once,
      l.same k,
      get-new_association_set k,
    )

-- Where the first set is valid, a key of the intersection is a key of both sets, at the first
-- set's position.
pub get-intersect :
    (s other : AssociationSet) (k : UniqueAssociation)
    → IsValid s
    → get (intersect s other) k ≡ (if is_some (get other k) then get s k else none)
unfolding intersect
get-intersect s other k h = filtered (λ j. is_some (get other j)) s k h

-- Where the first set is valid, the exclusion keeps exactly its keys that the other set does not
-- have, at their positions.
pub get-exclude :
    (s other : AssociationSet) (k : UniqueAssociation)
    → IsValid s
    → get (exclude s other) k ≡ (if is_some (get other k) then none else get s k)
unfolding exclude
get-exclude s other k h =
    ground (arith, filtered (λ j. elim (get other j) [ none ↦ true | some p ↦ false ]) s k h)

pub algebra-IsValid :
    (s other : AssociationSet)
    → IsValid (intersect s other)
      × IsValid (intersect_by_associate s other)
      × IsValid (exclude s other)
unfolding intersect intersect_by_associate exclude
algebra-IsValid s other = (
  put_if-IsValid _ new_association_set (entries s) new_association_set-IsValid,
  put_if-IsValid _ new_association_set (entries s) new_association_set-IsValid,
  put_if-IsValid _ new_association_set (entries s) new_association_set-IsValid,
)

-- Some entry of the set names the associate, under whatever relation.
abbrev pub Names : AssociationSet → ℕ → Type 0
Names s a = (k : UniqueAssociation) × (p : ℤ) × (k.associate_to ≡ a) × (get s k ≡ some p)

associates_sound :
    (es : List AssocEntry) (a : ℕ)
    → is_some (GoMap.get (associates es) a) ≡ true
    → (k : UniqueAssociation) × (p : ℤ) × (k.associate_to ≡ a) × (GoMap.get es k ≡ some p)
unfolding associates GoMap.get
associates_sound [] a h = cc
associates_sound ((k, p) ∷ es) a h = elim (Bool-cases (nat_beq k.associate_to a)) [
  | inl here ↦ (k, p, (nat_beq_iff _ _).0 here, ground (arith, association_beq_iff k k))
  | inr there ↦
      let (j, q, e, found) =
        associates_sound es a
          (ground (arith, there, GoMap.get-put (associates es) k.associate_to tt a)) in
      elim (Bool-cases (k == j)) [
        | inl eq ↦ (
          k,
          p,
          cc (e, ap (λ (u : UniqueAssociation). u.associate_to) ((association_beq_iff k j).0 eq)),
          ground (arith, association_beq_iff k k),
        )
        | inr ne ↦ (j, q, e, ground (arith, ne))
      ]
]

associates_complete :
    (es : List AssocEntry) (k : UniqueAssociation) (p : ℤ)
    → GoMap.get es k ≡ some p
    → is_some (GoMap.get (associates es) k.associate_to) ≡ true
unfolding associates GoMap.get
associates_complete [] k p h = cc
associates_complete ((j, q) ∷ es) k p h = ground (
  arith,
  association_beq_iff j k,
  associates_complete es k p,
  GoMap.get-put (associates es) j.associate_to tt k.associate_to,
)

-- Where both sets are valid, the scoping of a query keeps an entry exactly if it is in the first
-- set and some entry of the other set, under any relation, names the same associate; positions
-- are those of the first set.
pub intersect_by_associate_iff :
    (s other : AssociationSet) (k : UniqueAssociation) (p : ℤ)
    → IsValid s
    → IsValid other
    → (get (intersect_by_associate s other) k ≡ some p)
      ↔ ((get s k ≡ some p) × Names other k.associate_to)
unfolding intersect_by_associate
intersect_by_associate_iff s other k p h g =
    let l = entries-IsListing other g in
    let test =
      λ (j : UniqueAssociation). is_some (GoMap.get (associates (entries other)) j.associate_to) in
    let e = filtered test s k h in
    (
      (λ r. elim (Bool-cases (test k)) [
        | inl kept ↦
            let (j, q, same, found) = associates_sound (entries other) k.associate_to kept in
            (ground (arith, e, r, kept), (j, q, same, sym (l.same j) ∙ found))
        | inr dropped ↦ absurd (ground (arith, e, r, dropped))
      ]),
      (λ c.
          let (j, q, same, found) = c.1 in
          let kept = associates_complete (entries other) j q (l.same j ∙ found) in
          ground (arith, e, kept, same, c.0)),
    )
