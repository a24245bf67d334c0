-- ===== src/Ids.antt =====
-- Document ids: internal/store/zvec/write_result.go, AssertUnique of internal/indexer/chunk/docid,
-- and staleDocIDs and rollbackNewDocIDs of internal/indexer/coordinator.go. Go's sets of ids, maps
-- to struct{}, are lists that are only asked for membership.
pub mod Sets
pub mod Deletes
use mcp_semantic_search_zvec.Prelude.{
  ℕ, suc, Bool, true, false, not, ◌||◌, List, [], ◌∷◌, Option, none, some, String, str_eq, length,
  if◌then◌else◌, ◌==◌,
}

abbrev pub Ids : Type 0
Ids = List String

-- _, ok := set[id]
unfoldable pub contains : Ids → String → Bool
contains [] id = false
contains (x ∷ xs) id = str_eq x id || contains xs id

unfoldable pub dedupe_from : Ids → Ids → Ids
dedupe_from seen [] = []
dedupe_from seen (id ∷ ids) = elim (contains seen id) [
  | true ↦ dedupe_from seen ids
  | false ↦ id ∷ dedupe_from (id ∷ seen) ids
]

unfoldable pub dedupe_ids : Ids → Ids
unfolding dedupe_from
dedupe_ids (id ∷ []) = id ∷ []
dedupe_ids ids = dedupe_from [] ids

-- The ids that are not in the set, in order: the loops of staleDocIDs and deleteOutcome.
unfoldable pub without : Ids → Ids → Ids
without set [] = []
without set (id ∷ ids) = let rest = without set ids in if contains set id then rest else id ∷ rest

unfoldable pub count_in : Ids → Ids → ℕ
count_in set [] = 0
count_in set (id ∷ ids) = let rest = count_in set ids in if contains set id then suc rest else rest

unfoldable pub stale_doc_ids : Ids → Ids → Ids
unfolding without
stale_doc_ids old_ids new_ids = without new_ids old_ids

-- `none` is a nil entry; only the ids of the entry are read.
unfoldable pub rollback_new_doc_ids : Ids → Option Ids → Ids
unfolding stale_doc_ids
rollback_new_doc_ids new_ids none = new_ids
rollback_new_doc_ids new_ids (some []) = new_ids
rollback_new_doc_ids new_ids (some (id ∷ ids)) = stale_doc_ids new_ids (id ∷ ids)

unfoldable pub delete_outcome : Ids → Ids → Ids × ℕ
unfolding without count_in
delete_outcome requested remaining = (without remaining requested, count_in remaining requested)

-- The ids that PartialWriteError reports as gone, and how many are not.
pub record PartialWrite : Type 0 where
  pub succeeded : Ids
  pub failed : ℕ

-- `fetch_failed` is `fetchErr != nil`. The texts of the errors are not modelled.
unfoldable pub delete_error : Ids → Ids → Bool → Option PartialWrite
unfolding delete_outcome
delete_error requested remaining true = some (record { succeeded = []; failed = length requested })
delete_error requested remaining false =
    let (succeeded, failed) = delete_outcome requested remaining in
    if failed == 0 then none else some (record { succeeded = succeeded; failed = failed })

pub data IdError : Type 0 where
  empty_doc_id : IdError
  duplicate_doc_id : String → IdError

unfoldable pub unique_from : Ids → Ids → Option IdError
unique_from seen [] = none
unique_from seen (id ∷ ids) =
    if str_eq id ""
    then some empty_doc_id
    else if contains seen id
    then some (duplicate_doc_id id)
    else unique_from (id ∷ seen) ids

unfoldable pub assert_unique : Ids → Option IdError
unfolding unique_from
assert_unique ids = unique_from [] ids
