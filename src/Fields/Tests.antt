-- ===== src/Fields/Tests.antt =====
-- Field paths over the sample schema.
use vanguard_go.Fields.{
  append_from, append_part, append_path_to_field_descriptors, child_message, find_field,
  repeated_field, resolve_field_descriptors_to_path, resolve_path_to_field_descriptors,
}
use vanguard_go.Fields.Resolve.{resolve-Walked}
use vanguard_go.Fields.RoundTrip.{resolve_round_trip}
use vanguard_go.Fields.Sample.{Column, author, book, full_name, library, title, written_by}
use vanguard_go.Fields.Walk.{Walk, Walked, descend, last}
use vanguard_go.Prelude.{List, [], codes, err, false, ok, refl, true, ◌++◌, ◌∷◌, ◌≡◌, ◌⊎◌}

abbrev author_name : List Column
author_name = written_by ∷ (full_name ∷ [])

resolve_author :
    resolve_path_to_field_descriptors library book (codes "written_by.full_name") false
    ≡ ok author_name
unfolding resolve_path_to_field_descriptors append_path_to_field_descriptors append_from append_part
    find_field child_message
resolve_author = refl

resolve_dotted :
    resolve_path_to_field_descriptors library book (codes "title.") false ≡ ok (title ∷ [])
unfolding resolve_path_to_field_descriptors append_path_to_field_descriptors append_from append_part
    find_field child_message
resolve_dotted = refl

resolve_repeated :
    resolve_path_to_field_descriptors library author (codes "pen_names.x") true
    ≡ err (repeated_field (codes "pen_names.x") (codes "pen_names"))
unfolding resolve_path_to_field_descriptors append_path_to_field_descriptors append_from append_part
    find_field child_message
resolve_repeated = refl

resolve-Walked_example : Walked library false book (codes "title.") (title ∷ [])
resolve-Walked_example =
    resolve-Walked library book (codes "title.") false (title ∷ []) resolve_dotted

resolve_round_trip_example :
    (codes "title." ≡ resolve_field_descriptors_to_path library (title ∷ []) false)
    ⊎ (codes "title." ≡ resolve_field_descriptors_to_path library (title ∷ []) false ++ codes ".")
resolve_round_trip_example =
    resolve_round_trip library book (codes "title.") (title ∷ []) resolve_dotted

json-Walk : Walk library true book (codes "writtenBy" ∷ (codes "fullName" ∷ [])) author_name
unfolding find_field
json-Walk = descend refl refl refl (last refl)
