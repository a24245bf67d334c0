-- ===== src/Vectors.antt =====
-- zvec.Store of internal/store/zvec/store.go, as far as the coordinator writes to it, and the
-- deletes of internal/indexer/coordinator_helpers.go with their attempts.
pub mod Laws
pub mod Deletes
pub mod Removals
use mcp_semantic_search_zvec.Prelude.{
  ℕ, zero, suc, Bool, true, false, List, [], ◌∷◌, Option, none, some, if◌then◌else◌,
}
use mcp_semantic_search_zvec.Window.{Chunk}
use mcp_semantic_search_zvec.Ids.{Ids, stale_doc_ids}

-- The kinds of error of the vector store that the coordinator tells apart.
pub data WriteError : Type 0 where
  not_linked : WriteError
  partial_write : Ids → WriteError
  flush_write : Ids → WriteError
  refused : WriteError

unfoldable pub is_zvec_unavailable : WriteError → Bool
is_zvec_unavailable not_linked = true
is_zvec_unavailable (partial_write ids) = false
is_zvec_unavailable (flush_write ids) = false
is_zvec_unavailable refused = false

unfoldable pub partial_write_outcome : WriteError → Option Ids
partial_write_outcome not_linked = none
partial_write_outcome (partial_write ids) = some ids
partial_write_outcome (flush_write ids) = some ids
partial_write_outcome refused = none

-- zvec.Store, as far as the coordinator writes to it: `Vec` is the vector of a chunk.
pub record VectorStore (V Vec : Type 0) : Type 0 where
  pub upsert_chunks : V → List Chunk → List Vec → V × Option WriteError
  pub delete_by_ids : V → Ids → V × Option WriteError

-- An error of a delete, where the coordinator minds it.
unfoldable pub minded : Option WriteError → Option WriteError
unfolding is_zvec_unavailable
minded none = none
minded (some e) = if is_zvec_unavailable e then none else some e

abbrev pub max_attempts : ℕ
max_attempts = 3

pub data Attempt : Type 0 where
  settled : Attempt
  again : Ids → WriteError → Attempt

-- Only a PartialWriteError says which ids are gone.
unfoldable pub retry_rest : Ids → WriteError → Attempt
retry_rest [] err = settled
retry_rest (id ∷ ids) err = again (id ∷ ids) err

-- What one attempt means for the ids that it was asked to delete.
unfoldable pub judge : Ids → Option WriteError → Attempt
unfolding retry_rest stale_doc_ids
judge ids none = settled
judge ids (some not_linked) = settled
judge ids (some (partial_write [])) = again ids (partial_write [])
judge ids (some (partial_write (d ∷ ds))) =
    retry_rest (stale_doc_ids ids (d ∷ ds)) (partial_write (d ∷ ds))
judge ids (some (flush_write done)) = again ids (flush_write done)
judge ids (some refused) = again ids refused

unfoldable pub go_on :
    {V : Type 0}
    → (Ids → Option WriteError → V × Option WriteError)
    → V
    → Attempt
    → V × Option WriteError
go_on loop v settled = (v, none)
go_on loop v (again ids e) = loop ids (some e)

module _ {V Vec : Type 0} (store : VectorStore V Vec) where
  -- A rollback is best effort: its error is only logged.
  unfoldable pub delete_if_any : V → Ids → V
  delete_if_any v [] = v
  delete_if_any v (id ∷ ids) = (store.delete_by_ids v (id ∷ ids)).0

  -- An empty list is not sent to the store.
  unfoldable pub delete_entry_ids : V → Ids → V × Option WriteError
  unfolding minded
  delete_entry_ids v [] = (v, none)
  delete_entry_ids v (id ∷ ids) =
      let (v', err) = store.delete_by_ids v (id ∷ ids) in (v', minded err)

  -- The loop of deleteStaleVectorsFrom, with the attempts that are left.
  unfoldable pub delete_attempts : ℕ → V → Ids → Option WriteError → V × Option WriteError
  unfolding judge go_on
  delete_attempts zero v ids last = (v, last)
  delete_attempts (suc attempts) v ids last =
      let (v', err) = store.delete_by_ids v ids in
      go_on (delete_attempts attempts v') v' (judge ids err)

  unfoldable pub delete_stale_vectors_from : V → Ids → V × Option WriteError
  unfolding delete_attempts
  delete_stale_vectors_from v ids = delete_attempts max_attempts v ids none

  -- Without stale ids there is nothing to do.
  unfoldable pub delete_stale : V → Ids → V × Option WriteError
  unfolding delete_stale_vectors_from
  delete_stale v [] = (v, none)
  delete_stale v (id ∷ ids) = delete_stale_vectors_from v (id ∷ ids)
