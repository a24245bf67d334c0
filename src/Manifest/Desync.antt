-- ===== src/Manifest/Desync.antt =====
-- Whether the manifest and the vector store agree: Stats, AllDocIDs and UniqueDocIDCount of
-- internal/store/manifest/store.go, and manifestZvecDesync of internal/indexer/coordinator.go. What
-- the file system, SQLite and the vector store answer is an argument.
pub mod Agreement
pub mod Distinct
use mcp_semantic_search_zvec.Prelude.{
  ℕ, ◌+◌, Bool, true, false, not, ◌||◌, List, [], ◌∷◌, ◌++◌, Option, none, some, String, str_eq,
  ◌==◌, if◌then◌else◌, length,
}
use mcp_semantic_search_zvec.Ids.{Ids, contains}
use mcp_semantic_search_zvec.Manifest.{Manifest, FileEntry}

unfoldable pub chunk_sum : Manifest → ℕ
chunk_sum [] = 0
chunk_sum (e ∷ es) = e.chunk_count + chunk_sum es

unfoldable pub stats : Manifest → ℕ × ℕ
unfolding chunk_sum
stats m = (length m, chunk_sum m)

-- The ids of one entry: the set of the ids seen has those of the result.
unfoldable pub add_ids : Ids → Ids → Ids
add_ids out [] = out
add_ids out (id ∷ ids) =
    let skipped = add_ids out ids in
    let added = add_ids (out ++ id ∷ []) ids in
    if str_eq id "" || contains out id then skipped else added

unfoldable pub all_doc_ids_from : Ids → Manifest → Ids
unfolding add_ids
all_doc_ids_from out [] = out
all_doc_ids_from out (e ∷ es) = all_doc_ids_from (add_ids out e.doc_ids) es

unfoldable pub all_doc_ids : Manifest → Ids
unfolding all_doc_ids_from
all_doc_ids m = all_doc_ids_from [] m

-- The size of the set of the same loop.
unfoldable pub unique_doc_id_count : Manifest → ℕ
unfolding all_doc_ids_from
unique_doc_id_count m = length (all_doc_ids_from [] m)

pub data Desync (E : Type 0) : Type 0 where
  desynced : Bool → Desync E
  desync_failed : E → Desync E

-- The manifest file, opened.
pub data Opened (E : Type 0) : Type 0 where
  missing : Opened E
  open_failed : E → Opened E
  opened : Manifest → Opened E

-- An answer of the vector store: the collection is missing, it is locked, or another error.
pub data Answer (A E : Type 0) : Type 0 where
  answer : A → Answer A E
  collection_missing locked : Answer A E
  store_failed : E → Answer A E

-- The vector store when it is asked: whether it is open, what Open answers where it is not, and
-- the other two answers. `missing_error` is the error of a missing collection, where that is
-- returned.
pub record StoreAnswers (E : Type 0) : Type 0 where
  pub is_open : Bool
  pub open_answer : Answer Bool E
  pub doc_count : Answer ℕ E
  pub doc_ids_present : Ids → Answer Bool E
  pub missing_error : E

module _ {E : Type 0} (store : StoreAnswers E) where
  -- A lock counts as desynchronised; a missing collection is an error here.
  unfoldable pub check_present : Answer Bool E → Desync E
  check_present (answer present) = desynced (not present)
  check_present collection_missing = desync_failed store.missing_error
  check_present locked = desynced true
  check_present (store_failed e) = desync_failed e

  unfoldable pub check_ids : Ids → Desync E
  unfolding check_present
  check_ids [] = desynced false
  check_ids (id ∷ ids) = check_present (store.doc_ids_present (id ∷ ids))

  unfoldable pub check_count : Manifest → Answer ℕ E → Desync E
  unfolding check_ids unique_doc_id_count all_doc_ids
  check_count m (answer n) =
      if n == 0
      then desynced true
      else if unique_doc_id_count m == n
      then check_ids (all_doc_ids m)
      else desynced true
  check_count m collection_missing = desync_failed store.missing_error
  check_count m locked = desynced true
  check_count m (store_failed e) = desync_failed e

  unfoldable pub check_open : Manifest → Bool → Answer Bool E → Desync E
  unfolding check_count
  check_open m true open_answer = check_count m store.doc_count
  check_open m false (answer ok) = check_count m store.doc_count
  check_open m false collection_missing = desynced true
  check_open m false locked = desynced true
  check_open m false (store_failed e) = desync_failed e

  unfoldable pub check_manifest : Manifest → Desync E
  unfolding check_open stats unique_doc_id_count
  check_manifest m =
      if (stats m).1 == 0
      then desynced false
      else if unique_doc_id_count m == (stats m).1
      then check_open m store.is_open store.open_answer
      else desynced true

  unfoldable pub manifest_zvec_desync : Opened E → Desync E
  unfolding check_manifest
  manifest_zvec_desync missing = desynced false
  manifest_zvec_desync (open_failed e) = desync_failed e
  manifest_zvec_desync (opened m) = check_manifest m
