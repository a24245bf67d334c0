-- ===== src/Tests/Ids.antt =====
-- The loops over ids at short lists.
use mcp_semantic_search_zvec.Prelude.{◌≡◌, true, false, [], ◌∷◌, none, some, String, length, ◌↔◌}
use mcp_semantic_search_zvec.Ids.{Ids, contains, dedupe_ids, delete_error, assert_unique}
use mcp_semantic_search_zvec.Ids.Sets.{IsUnique, NoneEmpty, dedupe_ids_lem, assert_unique_lem}
use mcp_semantic_search_zvec.Ids.Deletes.{Resolves, delete_error-Resolves}

abbrev requested : Ids
requested = "a" ∷ "b" ∷ "a" ∷ "c" ∷ []

dedupe_ids_lem_example :
    IsUnique (dedupe_ids requested)
    × ((id : String) → contains (dedupe_ids requested) id ≡ contains requested id)
dedupe_ids_lem_example = dedupe_ids_lem requested

assert_unique_lem_example :
    (assert_unique requested ≡ none) ↔ (IsUnique requested × NoneEmpty requested)
assert_unique_lem_example = assert_unique_lem requested

delete_error-Resolves_example :
    Resolves requested ("b" ∷ []) (delete_error requested ("b" ∷ []) false)
    × (delete_error requested ("b" ∷ []) true
        ≡ some (record { succeeded = []; failed = length requested }))
delete_error-Resolves_example = delete_error-Resolves requested ("b" ∷ [])
