-- ===== src/Tiedb/Query/Selects.antt =====
-- What a tag query selects, and where it panics.
use tie.Prelude.{
  ℕ, ◌≡◌, ◌≢◌, refl, sym, ap, ◌∙◌, Bool, true, false, Option, none, some, List, [], ◌∷◌, ◌&&◌, ◌||◌,
  if◌then◌else◌, is_some, arith, not,
}
use tie.Prelude.Int.{ℤ}
use tie.Tiedb.Triples.{Bytes}
use tie.Tiedb.AssociationSet
use tie.Tiedb.AssociationSet.{AssociationSet, UniqueAssociation}
use tie.Tiedb.AssociationSet.Refines.{IsValid}
use tie.Tiedb.AssociationSet.Algebra.{get-intersect, get-exclude, algebra-IsValid}
use tie.Tiedb.Collection.{Collection}
use tie.Tiedb.Intern.Unchanged.{Unchanged, Unchanged-trans}
use tie.Tiedb.Query.{
  reverse_associations_of, TagQuery, Resolved, panic, matched, empty, not_found, seed_of,
  include_terms, exclude_terms, scope_to, filter_seed, from_seed, resolve_terms, resolve_query,
  narrow, narrow_to_relation, drop_holders,
}
use tie.Tiedb.Query.Holders.{
  holders, holders-Unchanged, reverse_associations_of-Unchanged, reverse_associations_of-holders,
}

-- A lookup in a set that may be missing.
abbrev pub look : Option AssociationSet → UniqueAssociation → Option ℤ
look none k = none
look (some s) k = AssociationSet.get s k

-- The entry is held by every one, or by some one, of the values.
abbrev pub all_hold : Collection → List Bytes → UniqueAssociation → Bool
all_hold ic [] k = true
all_hold ic (v ∷ vs) k = is_some (look (holders ic v) k) && all_hold ic vs k

abbrev pub some_hold : Collection → List Bytes → UniqueAssociation → Bool
some_hold ic [] k = false
some_hold ic (v ∷ vs) k = is_some (look (holders ic v) k) || some_hold ic vs k

abbrev AllValid : Option AssociationSet → Type 0
AllValid none = Unit
AllValid (some s) = IsValid s

-- What the loop over the include terms gives.
record Included (ic : Collection) (s : AssociationSet) (tags : List Bytes)
    (r : Collection × Option AssociationSet) : Type 0 where
  same : Unchanged r.0 ic
  valid : AllValid r.1
  found :
      (k : UniqueAssociation)
      → look r.1 k ≡ (if all_hold ic tags k then AssociationSet.get s k else none)

holders-next :
    (ic now : Collection) (v : Bytes)
    → Unchanged now ic
    → (reverse_associations_of now v).1 ≡ holders ic v
holders-next ic now v h = reverse_associations_of-holders now v ∙ holders-Unchanged now ic v h

include_step :
    (ic : Collection) (s : AssociationSet) (tag : Bytes) (tags : List Bytes)
    (r : Collection × Option AssociationSet)
    → Unchanged r.0 ic
    → IsValid s
    → r.1 ≡ holders ic tag
    → ((other : AssociationSet)
        → Included ic
            (AssociationSet.intersect s other)
            tags
            (include_terms r.0 (AssociationSet.intersect s other) tags))
    → Included ic s (tag ∷ tags) (elim r.1 as (λ _. Collection × Option AssociationSet) [
      | none ↦ (r.0, none)
      | some other ↦ include_terms r.0 (AssociationSet.intersect s other) tags
    ])
include_step ic s tag tags (c, none) h v e rest = record {
  same = h;
  valid = tt;
  found = λ k. rw (sym e) refl;
}
include_step ic s tag tags (c, some other) h v e rest =
    let i = rest other in
    record {
      same = i.same;
      valid = i.valid;
      found = λ k. i.found k ∙ rw (sym e) (ground (arith, get-intersect s other k v));
    }

include_terms-Included :
    (ic now : Collection) (s : AssociationSet) (tags : List Bytes)
    → Unchanged now ic
    → IsValid s
    → Included ic s tags (include_terms now s tags)
unfolding include_terms
include_terms-Included ic now s [] h v = record { same = h; valid = v; found = λ k. refl }
include_terms-Included ic now s (tag ∷ tags) h v =
    let r = reverse_associations_of now tag in
    let g = Unchanged-trans h (reverse_associations_of-Unchanged now tag) in
    include_step ic s tag tags r g v (holders-next ic now tag h) (λ other.
      include_terms-Included ic r.0 (AssociationSet.intersect s other) tags g
        (algebra-IsValid s other).0)

-- What the loop over the exclude terms gives for a set that is there.
record Excluded (ic : Collection) (s : AssociationSet) (tags : List Bytes)
    (r : Collection × Option (Option AssociationSet)) : Type 0 where
  rest : AssociationSet
  given : r.1 ≡ some (some rest)
  left :
      (k : UniqueAssociation)
      → AssociationSet.get rest k ≡ (if some_hold ic tags k then none else AssociationSet.get s k)

exclude_step :
    (ic : Collection) (s : AssociationSet) (tag : Bytes) (tags : List Bytes)
    (r : Collection × Option AssociationSet)
    → IsValid s
    → r.1 ≡ holders ic tag
    → Excluded ic s tags (exclude_terms r.0 (some s) tags)
    → ((other : AssociationSet)
        → Excluded ic
            (AssociationSet.exclude s other)
            tags
            (exclude_terms r.0 (some (AssociationSet.exclude s other)) tags))
    → Excluded ic s (tag ∷ tags) (elim r.1 as (λ _. Collection × Option (Option AssociationSet)) [
      | none ↦ exclude_terms r.0 (some s) tags
      | some other ↦ exclude_terms r.0 (some (AssociationSet.exclude s other)) tags
    ])
exclude_step ic s tag tags (c, none) v e skip next = record {
  rest = skip.rest;
  given = skip.given;
  left = λ k. skip.left k ∙ rw (sym e) refl;
}
exclude_step ic s tag tags (c, some other) v e skip next =
    let i = next other in
    record {
      rest = i.rest;
      given = i.given;
      left = λ k. i.left k ∙ rw (sym e) (ground (arith, get-exclude s other k v));
    }

exclude_terms-Excluded :
    (ic now : Collection) (s : AssociationSet) (tags : List Bytes)
    → Unchanged now ic
    → IsValid s
    → Excluded ic s tags (exclude_terms now (some s) tags)
unfolding exclude_terms
exclude_terms-Excluded ic now s [] h v = record { rest = s; given = refl; left = λ k. refl }
exclude_terms-Excluded ic now s (tag ∷ tags) h v =
    let r = reverse_associations_of now tag in
    let g = Unchanged-trans h (reverse_associations_of-Unchanged now tag) in
    exclude_step ic s tag tags r v (holders-next ic now tag h)
      (exclude_terms-Excluded ic r.0 s tags g v)
      (λ other.
        exclude_terms-Excluded ic r.0 (AssociationSet.exclude s other) tags g
          (algebra-IsValid s other).2)

-- The set that an answer carries; the other answers carry none.
abbrev pub selected : Resolved → Option AssociationSet
selected not_found = none
selected empty = none
selected panic = none
selected (matched s) = some s

-- The query by include and exclude terms and nothing else; its terms are objects.
abbrev pub plain : List Bytes → List Bytes → Bytes → TagQuery
plain include exclude filter = record {
  include = include;
  exclude = exclude;
  scope = [];
  missing_relation = [];
  has_relation = [];
  reverse = true;
  filter = filter;
}

filter_seed-plain :
    (ic : Collection) (s rest : AssociationSet) (include tags : List Bytes) (filter : Bytes)
    → (exclude_terms ic (some s) tags).1 ≡ some (some rest)
    → (filter_seed (plain include tags filter) ic (some s)).1 ≡ matched rest
unfolding filter_seed scope_to narrow narrow_to_relation drop_holders
filter_seed-plain ic s rest include tags filter e = rw (e, filter_seed) refl

matched-panic : (s : AssociationSet) → matched s ≢ panic
matched-panic s h = cc

-- An answer that is no panic, by the entries it selects.
abbrev pub Selects : Collection → AssociationSet → List Bytes → List Bytes → Resolved → Type 0
Selects ic s others exclude answer =
    (answer ≢ panic)
    × ((k : UniqueAssociation)
        → look (selected answer) k ≡ (
            if all_hold ic others k && not (some_hold ic exclude k)
            then AssociationSet.get s k
            else none))

-- The answers that the include terms leave open.
answer_by_seed :
    (ic : Collection) (s : AssociationSet) (include others exclude : List Bytes) (filter : Bytes)
    (r : Collection × Option AssociationSet)
    → Included ic s others r
    → Selects ic s others exclude
        (elim r.1 as (λ _. Collection × Resolved) [
          | none ↦ (r.0, empty)
          | some t ↦ filter_seed (plain include exclude filter) r.0 (some t)
        ]).1
answer_by_seed ic s include others exclude filter (c, none) i =
    ((λ h. cc), λ k. ground (arith, i.found k))
answer_by_seed ic s include others exclude filter (c, some t) i =
    let e = exclude_terms-Excluded ic c t exclude i.same i.valid in
    let answer = filter_seed-plain c t e.rest include exclude filter e.given in
    (
      (λ h. matched-panic e.rest (sym answer ∙ h)),
      λ k. ap (λ (a : Resolved). look (selected a) k) answer ∙ ground (arith, e.left k, i.found k),
    )

first_term :
    (ic : Collection) (s : AssociationSet) (term : Bytes) (others exclude : List Bytes)
    (filter : Bytes) (r : Collection × Option AssociationSet)
    → Unchanged r.0 ic
    → r.1 ≡ some s
    → IsValid s
    → Selects ic s others exclude
        (elim r.1 as (λ _. Collection × Resolved) [
          | none ↦ (r.0, not_found)
          | some t ↦ from_seed (plain (term ∷ others) exclude filter) others r.0 t
        ]).1
unfolding from_seed
first_term ic s term others exclude filter r h e v = rw e (
    answer_by_seed ic s (term ∷ others) others exclude filter (include_terms r.0 s others)
      (include_terms-Included ic r.0 s others h v))

-- A query by include and exclude terms and nothing else, whose first include term is known and has
-- a valid set of reverse associations, does not panic, and selects the entries of that set that
-- every other include term holds and no exclude term holds, at the positions of that set. A term
-- that is not known holds nothing.
pub resolve_query-plain :
    (ic : Collection) (s : AssociationSet) (term : Bytes) (others exclude : List Bytes)
    (filter : Bytes)
    → holders ic term ≡ some s
    → IsValid s
    → Selects ic s others exclude (resolve_query ic (plain (term ∷ others) exclude filter)).1
unfolding resolve_query resolve_terms seed_of
resolve_query-plain ic s term others exclude filter e v =
    first_term ic s term others exclude filter (reverse_associations_of ic term)
      (reverse_associations_of-Unchanged ic term) (reverse_associations_of-holders ic term ∙ e) v

exclude_terms-nil :
    (ic : Collection) (term : Bytes) (terms : List Bytes) (s : AssociationSet)
    → holders ic term ≡ some s
    → (exclude_terms ic none (term ∷ terms)).1 ≡ none
unfolding exclude_terms
exclude_terms-nil ic term terms s e =
    rw (reverse_associations_of-holders ic term ∙ e, exclude_terms) refl

-- A query without include terms that asks for a relation panics at its first exclude term, where
-- that term is known: the set it would be excluded from is nil.
pub resolve_query-panics :
    (ic : Collection) (q : TagQuery) (letter : ℕ) (letters term : Bytes) (terms : List Bytes)
    (s : AssociationSet)
    → holders ic term ≡ some s
    → (resolve_query ic
        (record q { include = []; has_relation = letter ∷ letters; exclude = term ∷ terms })).1
      ≡ panic
unfolding resolve_query resolve_terms filter_seed
resolve_query-panics ic q letter letters term terms s e =
    rw (exclude_terms-nil ic term terms s e, filter_seed) refl
