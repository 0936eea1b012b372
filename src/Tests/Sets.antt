-- ===== src/Tests/Sets.antt =====
-- Association sets, sharded trees and the triple cache on small inputs.
use tie.Prelude.{
  ◌≡◌, ◌↔◌, refl, true, none, some, if◌then◌else◌, is_some, length, take, arith, nat_eq,
}
use tie.Prelude.GoMap
use tie.Prelude.Int.{pos, int_eq}
use tie.Tiedb.Triples.{Triple}
use tie.Tiedb.AssociationSet.{
  UniqueAssociation, association_beq, association_eq, AssociationSet, new_association_set, get, put,
  delete, entries, size, has_relation, intersect, exclude, intersect_by_associate,
}
use tie.Tiedb.AssociationSet.Refines.{
  IsValid, new_association_set-IsValid, get-put, put-IsValid, get-delete, delete-IsValid,
}
use tie.Tiedb.AssociationSet.Visits.{visit_exact, has_relation_iff, Carries}
use tie.Tiedb.AssociationSet.Algebra.{get-intersect, get-exclude, intersect_by_associate_iff, Names}
use tie.Tiedb.TripleCache
use tie.Tiedb.TripleCache.{TripleCache, new_triple_cache}
use tie.Tiedb.TripleCache.Recency
use tie.Tiedb.TripleCache.Recency.{contents}
use tie.Tiedb.TripleCache.Uses.{used, after_get, get-used, put-used, evict-contents}

abbrev tag_a : UniqueAssociation
tag_a = record { associate_to = 7; relation = 3 }

abbrev tag_b : UniqueAssociation
tag_b = record { associate_to = 9; relation = 3 }

abbrev tag_c : UniqueAssociation
tag_c = record { associate_to = 9; relation = 4 }

-- Two entries: the set is in its slice tier.
abbrev two_tags : AssociationSet
two_tags = put (put new_association_set tag_a (pos 0)) tag_b (pos 50)

abbrev one_tag : AssociationSet
one_tag = put new_association_set tag_c (pos 100)

two_tags-IsValid : IsValid two_tags
two_tags-IsValid =
    put-IsValid (put new_association_set tag_a (pos 0)) tag_b (pos 50)
      (put-IsValid new_association_set tag_a (pos 0) new_association_set-IsValid)

one_tag-IsValid : IsValid one_tag
one_tag-IsValid = put-IsValid new_association_set tag_c (pos 100) new_association_set-IsValid

get-put_example : get (put two_tags tag_c (pos 100)) tag_c ≡ some (pos 100)
unfolding association_beq
get-put_example = get-put two_tags tag_c (pos 100) tag_c two_tags-IsValid

put-IsValid_example : IsValid (put two_tags tag_a (pos 100))
put-IsValid_example = put-IsValid two_tags tag_a (pos 100) two_tags-IsValid

get-delete_example : get (delete two_tags tag_a) tag_a ≡ none
unfolding association_beq
get-delete_example = get-delete two_tags tag_a tag_a two_tags-IsValid

delete-IsValid_example : IsValid (delete two_tags tag_a)
delete-IsValid_example = delete-IsValid two_tags tag_a two_tags-IsValid

visit_exact_example :
    GoMap.Distinct (entries two_tags)
    × ((k : UniqueAssociation) → GoMap.get (entries two_tags) k ≡ get two_tags k)
    × (length (entries two_tags) ≡ size two_tags)
visit_exact_example = visit_exact two_tags two_tags-IsValid

has_relation_iff_example : (has_relation two_tags 3 ≡ true) ↔ Carries two_tags 3
has_relation_iff_example = has_relation_iff two_tags 3 two_tags-IsValid

get-intersect_example :
    get (intersect two_tags one_tag) tag_b
    ≡ (if is_some (get one_tag tag_b) then get two_tags tag_b else none)
get-intersect_example = get-intersect two_tags one_tag tag_b two_tags-IsValid

get-exclude_example :
    get (exclude two_tags one_tag) tag_b
    ≡ (if is_some (get one_tag tag_b) then none else get two_tags tag_b)
get-exclude_example = get-exclude two_tags one_tag tag_b two_tags-IsValid

intersect_by_associate_iff_example :
    (get (intersect_by_associate two_tags one_tag) tag_b ≡ some (pos 50))
    ↔ ((get two_tags tag_b ≡ some (pos 50)) × Names one_tag 9)
intersect_by_associate_iff_example =
    intersect_by_associate_iff two_tags one_tag tag_b (pos 50) two_tags-IsValid one_tag-IsValid

abbrev likes : Triple
likes = record {
  level = pos 0;
  key = 1;
  value1_level = pos 0;
  value1 = 2;
  value2_level = pos 0;
  value2 = 3;
}

-- A cache for one triple, which is full.
abbrev empty_cache : TripleCache
empty_cache = new_triple_cache 1

empty_cache-IsValid : Recency.IsValid empty_cache
unfolding new_triple_cache contents Recency.find_element GoMap.get
empty_cache-IsValid = record {
  elements = tt;
  positions = tt;
  indexed = λ p. refl;
  unused = λ el h. refl;
  bounded = omega arith;
  positive = omega arith;
}

abbrev full_cache : TripleCache
full_cache = TripleCache.put empty_cache (pos 0) likes

full_cache-IsValid : Recency.IsValid full_cache
full_cache-IsValid = (put-used empty_cache (pos 0) likes empty_cache-IsValid).1

get-used_example :
    ((TripleCache.get full_cache (pos 0)).1 ≡ GoMap.get (contents full_cache.ll) (pos 0))
    × (contents (TripleCache.get full_cache (pos 0)).0.ll
        ≡ after_get (GoMap.get (contents full_cache.ll) (pos 0)) (pos 0) (contents full_cache.ll))
    × Recency.IsValid (TripleCache.get full_cache (pos 0)).0
get-used_example = get-used full_cache (pos 0) full_cache-IsValid

put-used_example :
    (contents (TripleCache.put full_cache (pos 50) likes).ll
      ≡ take full_cache.capacity (used (pos 50) likes (contents full_cache.ll)))
    × Recency.IsValid (TripleCache.put full_cache (pos 50) likes)
put-used_example = put-used full_cache (pos 50) likes full_cache-IsValid

evict-contents_example :
    (contents (TripleCache.evict full_cache (pos 0)).ll
      ≡ GoMap.delete (contents full_cache.ll) (pos 0))
    × Recency.IsValid (TripleCache.evict full_cache (pos 0))
evict-contents_example = evict-contents full_cache (pos 0) full_cache-IsValid
