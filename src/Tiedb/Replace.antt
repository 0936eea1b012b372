-- ===== src/Tiedb/Replace.antt =====
-- tiedb/assoc.go: SimpleUpdate and SetValues, which replace all values of one relation.
use tie.Prelude.{Bool, true, false, Option, none, some, List, [], ◌∷◌, if◌then◌else◌}
use tie.Tiedb.Triples.{Bytes}
use tie.Tiedb.Collection.{Collection, Error, read_only_error}
use tie.Tiedb.Assoc.{Message, nothing, failed, field_missing, add, delete}
use tie.Tiedb.Query.{get}

-- The loop that deletes the old values; what it reports is dropped.
unfoldable pub delete_each : Collection → Bytes → Bytes → List Bytes → Collection
delete_each ic key value1 [] = ic
delete_each ic key value1 (v ∷ vs) = delete_each (delete ic key value1 v).0 key value1 vs

-- The loop that adds the new ones; an error of one does not stop it.
unfoldable pub add_each : Collection → Bytes → Bytes → List Bytes → Collection
add_each ic key value1 [] = ic
add_each ic key value1 (v ∷ vs) = add_each (add ic key value1 v).0 key value1 vs

clear : Collection × Option (List Bytes) → Bytes → Bytes → Collection
clear (ic, none) key value1 = ic
clear (ic, some existing) key value1 = delete_each ic key value1 existing

unfoldable pub set_values : Collection → Bytes → Bytes → List Bytes → Collection
unfolding clear
set_values ic key value1 values =
    if ic.read_only then ic else add_each (clear (get ic key value1) key value1) key value1 values

answer_of : Collection × Option Error → Collection × Message × Bool
answer_of (ic, none) = (ic, nothing, true)
answer_of (ic, some e) = (ic, failed e, false)

update_field :
    Collection × Option (List Bytes) → Bytes → Bytes → Bytes → Bool → Collection × Message × Bool
update_field (ic, some existing) key value1 new_value2 add_on_fail =
    answer_of (add (delete_each ic key value1 existing) key value1 new_value2)
update_field (ic, none) key value1 new_value2 true = answer_of (add ic key value1 new_value2)
update_field (ic, none) key value1 new_value2 false = (ic, field_missing, false)

unfoldable pub simple_update :
    Collection → Bytes → Bytes → Bytes → Bool → Collection × Message × Bool
unfolding update_field answer_of
simple_update ic key value1 new_value2 add_on_fail =
    if ic.read_only
    then (ic, failed read_only_error, false)
    else update_field (get ic key value1) key value1 new_value2 add_on_fail
