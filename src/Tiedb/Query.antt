-- ===== src/Tiedb/Query.antt =====
-- tiedb/query.go: the lookups by subject and relation, and the set algebra of a tag query.
pub mod Holders
pub mod Selects
use tie.Prelude.{
  ℕ, Bool, true, false, Option, none, some, List, [], ◌∷◌, ◌++◌, if◌then◌else◌, nat_beq, map, not,
  list_beq,
}
use tie.Prelude.GoMap
use tie.Prelude.Int.{ℤ, pos, negsuc}
use tie.Tiedb.Triples.{Bytes, Triple, StringTriple, hash_level}
use tie.Tiedb.AssociationSet
use tie.Tiedb.AssociationSet.{AssociationSet, UniqueAssociation, AssocEntry, new_association_set}
use tie.Tiedb.LockedTree
use tie.Tiedb.LockedTree.{LockedTree}
use tie.Tiedb.Collection.{Collection, EntryLevel}
use tie.Tiedb.Intern.{get_entry_from_string}
use tie.Tiedb.Assoc.{get_associations, get_reverse_associations}
use tie.Tiedb.Resolve.{resolve_entry, sort_all}

-- GetAssociations and GetReverseAssociations: `none` if the value is not known.
unfoldable pub associations_of : Collection → Bytes → Collection × Option AssociationSet
associations_of ic value =
    let r = get_entry_from_string ic value in
    (r.0, elim r.1 [ none ↦ none | some (id, level) ↦ some (get_associations r.0 level id) ])

unfoldable pub reverse_associations_of : Collection → Bytes → Collection × Option AssociationSet
reverse_associations_of ic value =
    let r = get_entry_from_string ic value in
    (
      r.0,
      elim r.1 [ none ↦ none | some (id, level) ↦ some (get_reverse_associations r.0 level id) ],
    )

-- A list that is empty is reported as not found.
unfoldable pub non_empty :
    Collection × List StringTriple → (StringTriple → Bytes) → Collection × Option (List Bytes)
non_empty (ic, []) column = (ic, none)
non_empty (ic, t ∷ ts) column = (ic, some (map column (t ∷ ts)))

unfoldable pub get : Collection → Bytes → Bytes → Collection × Option (List Bytes)
unfolding non_empty
get ic key value1 =
    let r = associations_of ic key in
    elim r.1 [ none ↦ (r.0, none) | some s ↦ non_empty (sort_all r.0 s value1) (λ t. t.value2) ]

unfoldable pub get_reverse : Collection → Bytes → Bytes → Collection × Option (List Bytes)
unfolding non_empty
get_reverse ic key value1 =
    let r = reverse_associations_of ic key in
    elim r.1 [ none ↦ (r.0, none) | some s ↦ non_empty (sort_all r.0 s value1) (λ t. t.key) ]

pub record TagQuery : Type 0 where
  pub include : List Bytes
  pub exclude : List Bytes
  pub scope : Bytes
  pub missing_relation : Bytes
  pub has_relation : Bytes
  pub reverse : Bool
  pub filter : Bytes

abbrev is_empty {ℓ} : {A : Type ℓ} → List A → Bool
is_empty [] = true
is_empty (x ∷ xs) = false

-- The answer of resolveQuery: not found, found but empty, or the matching set; or the panic of a
-- method on a nil set.
pub data Resolved : Type 0 where
  not_found : Resolved
  empty : Resolved
  panic : Resolved
  matched : AssociationSet → Resolved

unfoldable pub seed_of : Collection → Bool → Bytes → Collection × Option AssociationSet
seed_of ic true term = reverse_associations_of ic term
seed_of ic false term = associations_of ic term

-- An include term that is not known ends the query.
unfoldable pub include_terms :
    Collection → AssociationSet → List Bytes → Collection × Option AssociationSet
include_terms ic s [] = (ic, some s)
include_terms ic s (tag ∷ tags) =
    let r = reverse_associations_of ic tag in
    elim r.1 [
      | none ↦ (r.0, none)
      | some other ↦ include_terms r.0 (AssociationSet.intersect s other) tags
    ]

-- The set that the query has so far, if any; a method called on a nil set panics. An exclude term
-- that is not known excludes nothing.
unfoldable pub exclude_terms :
    Collection → Option AssociationSet → List Bytes → Collection × Option (Option AssociationSet)
exclude_terms ic s [] = (ic, some s)
exclude_terms ic s (tag ∷ tags) =
    let r = reverse_associations_of ic tag in
    elim r.1 [
      | none ↦ exclude_terms r.0 s tags
      | some other ↦ elim s [
        | none ↦ (r.0, none)
        | some t ↦ exclude_terms r.0 (some (AssociationSet.exclude t other)) tags
      ]
    ]

pub data Scoped : Type 0 where
  unmet : Scoped
  nil_set : Scoped
  in_scope : Option AssociationSet → Scoped

unfoldable pub scope_set : Option AssociationSet → AssociationSet → Scoped
scope_set none other = nil_set
scope_set (some s) other = in_scope (some (AssociationSet.intersect_by_associate s other))

unfoldable pub scope_to : Collection → Option AssociationSet → Bytes → Collection × Scoped
unfolding scope_set
scope_to ic s [] = (ic, in_scope s)
scope_to ic s (b ∷ bs) =
    let r = reverse_associations_of ic (b ∷ bs) in
    (r.0, elim r.1 [ none ↦ unmet | some other ↦ scope_set s other ])

-- One subject's entries under the relation, in the shape of a reverse entry.
emit_subject : ℕ → ℕ → AssociationSet → List AssocEntry → AssociationSet
emit_subject rel_id subject out [] = out
emit_subject rel_id subject out ((ua, p) ∷ es) =
    emit_subject rel_id subject
      (if nat_beq ua.relation rel_id
        then AssociationSet.put out (record { associate_to = subject; relation = rel_id }) p
        else out)
      es

emit_tree : ℕ → AssociationSet → List (ℕ × AssociationSet) → AssociationSet
emit_tree rel_id out [] = out
emit_tree rel_id out ((subject, s) ∷ rest) =
    emit_tree rel_id (emit_subject rel_id subject out (AssociationSet.entries s)) rest

emit_levels : ℕ → AssociationSet → List EntryLevel → AssociationSet
emit_levels rel_id out [] = out
emit_levels rel_id out (lvl ∷ levels) =
    emit_levels rel_id (emit_tree rel_id out (LockedTree.entries lvl.associations)) levels

unfoldable pub subjects_with_relation : Collection → Bytes → Collection × AssociationSet
unfolding emit_levels emit_tree emit_subject
subjects_with_relation ic relation =
    let r = get_entry_from_string ic relation in
    (
      r.0,
      elim r.1 [
        | none ↦ new_association_set
        | some (rel_id, level) ↦
            let out = emit_levels rel_id new_association_set r.0.levels in
            elim r.0.hash_associations [
              | none ↦ out
              | some t ↦ emit_tree rel_id out (LockedTree.entries t)
            ]
      ],
    )

unfoldable pub narrow_to_relation :
    Collection → Option AssociationSet → Bytes → Collection × Option AssociationSet
narrow_to_relation ic seed [] = (ic, seed)
narrow_to_relation ic seed (b ∷ bs) =
    let r = subjects_with_relation ic (b ∷ bs) in
    (r.0, some (elim seed [ none ↦ r.1 | some s ↦ AssociationSet.intersect_by_associate s r.1 ]))

keep_missing : Collection → ℕ → AssociationSet → List AssocEntry → Collection × AssociationSet
keep_missing ic rel_id out [] = (ic, out)
keep_missing ic rel_id out ((ua, p) ∷ es) =
    let r = resolve_entry ic ua p in
    keep_missing r.0 rel_id
      (elim r.1 [
        | none ↦ out
        | some t ↦
            if AssociationSet.has_relation (get_associations r.0 t.level t.key) rel_id
            then out
            else AssociationSet.put out ua p
      ])
      es

unfoldable pub filter_missing_relation :
    Collection → AssociationSet → Bytes → Collection × AssociationSet
unfolding keep_missing
filter_missing_relation ic seed relation =
    let r = get_entry_from_string ic relation in
    elim r.1 [
      | none ↦
          (r.0, AssociationSet.put_if (λ k. true) new_association_set (AssociationSet.entries seed))
      | some (rel_id, level) ↦
          keep_missing r.0 rel_id new_association_set (AssociationSet.entries seed)
    ]

unfoldable pub drop_holders : Collection → AssociationSet → Bytes → Collection × AssociationSet
drop_holders ic s [] = (ic, s)
drop_holders ic s (b ∷ bs) = filter_missing_relation ic s (b ∷ bs)

unfoldable pub narrow : TagQuery → Collection → Option AssociationSet → Collection × Resolved
unfolding narrow_to_relation drop_holders
narrow q ic seed =
    let r = narrow_to_relation ic seed q.has_relation in
    elim r.1 [
      | none ↦ (r.0, panic)
      | some s ↦ let d = drop_holders r.0 s q.missing_relation in (d.0, matched d.1)
    ]

unfoldable pub filter_seed : TagQuery → Collection → Option AssociationSet → Collection × Resolved
unfolding exclude_terms scope_to narrow
filter_seed q ic seed =
    let e = exclude_terms ic seed q.exclude in
    elim e.1 [
      | none ↦ (e.0, panic)
      | some s ↦
          let c = scope_to e.0 s q.scope in
          elim c.1 [ unmet ↦ (c.0, empty) | nil_set ↦ (c.0, panic) | in_scope t ↦ narrow q c.0 t ]
    ]

unfoldable pub from_seed :
    TagQuery → List Bytes → Collection → AssociationSet → Collection × Resolved
unfolding include_terms filter_seed
from_seed q others ic seed =
    let i = include_terms ic seed others in
    elim i.1 [ none ↦ (i.0, empty) | some s ↦ filter_seed q i.0 (some s) ]

unfoldable pub resolve_terms : Collection → TagQuery → List Bytes → Collection × Resolved
unfolding from_seed seed_of
resolve_terms ic q [] = if is_empty q.has_relation then (ic, not_found) else filter_seed q ic none
resolve_terms ic q (term ∷ others) =
    let r = seed_of ic q.reverse term in
    elim r.1 [ none ↦ (r.0, not_found) | some s ↦ from_seed q others r.0 s ]

unfoldable pub resolve_query : Collection → TagQuery → Collection × Resolved
unfolding resolve_terms
resolve_query ic q = resolve_terms ic q q.include
