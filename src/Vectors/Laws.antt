-- ===== src/Vectors/Laws.antt =====
-- What the coordinator relies on of the vector store.
use mcp_semantic_search_zvec.Prelude.{
  ◌≡◌, ◌≢◌, Bool, true, false, List, [], Option, none, some, String,
}
use mcp_semantic_search_zvec.Window.{Chunk}
use mcp_semantic_search_zvec.Ids.{Ids, contains}
use mcp_semantic_search_zvec.Batches.{ids_of}
use mcp_semantic_search_zvec.Vectors.{
  VectorStore, WriteError, not_linked, partial_write, partial_write_outcome,
}

-- The ids that an error reports as written.
abbrev pub reported : Option Ids → Ids
reported none = []
reported (some ids) = ids

-- `has v id` says that the vector with that id is in the store. A write touches no other id than
-- those it is asked for, whether it succeeds or not, and an upsert removes none; one that succeeds
-- has stored all of them, and one that fails reports none but them.
pub record IsLawful {V Vec : Type 0} (store : VectorStore V Vec) (has : V → String → Bool)
    : Type 0 where
  pub upsert_frame :
      (v : V) (batch : List Chunk) (vecs : List Vec) (id : String)
      → contains (ids_of batch) id ≡ false
      → has (store.upsert_chunks v batch vecs).0 id ≡ has v id
  pub upsert_keeps :
      (v : V) (batch : List Chunk) (vecs : List Vec) (id : String)
      → has v id ≡ true
      → has (store.upsert_chunks v batch vecs).0 id ≡ true
  pub upsert_stores :
      (v : V) (batch : List Chunk) (vecs : List Vec) (id : String)
      → (store.upsert_chunks v batch vecs).1 ≡ none
      → contains (ids_of batch) id ≡ true
      → has (store.upsert_chunks v batch vecs).0 id ≡ true
  pub upsert_linked :
      (v : V) (batch : List Chunk) (vecs : List Vec)
      → (store.upsert_chunks v batch vecs).1 ≢ some not_linked
  pub upsert_reports :
      (v : V) (batch : List Chunk) (vecs : List Vec) (e : WriteError) (id : String)
      → (store.upsert_chunks v batch vecs).1 ≡ some e
      → contains (reported (partial_write_outcome e)) id ≡ true
      → contains (ids_of batch) id ≡ true
  pub delete_frame :
      (v : V) (ids : Ids) (id : String)
      → contains ids id ≡ false
      → has (store.delete_by_ids v ids).0 id ≡ has v id

-- Of a delete: where it succeeds, or says which ids are gone, those are not in the store.
pub record Removes {V Vec : Type 0} (store : VectorStore V Vec) (has : V → String → Bool)
    : Type 0 where
  pub delete_removes :
      (v : V) (ids : Ids) (id : String)
      → (store.delete_by_ids v ids).1 ≡ none
      → contains ids id ≡ true
      → has (store.delete_by_ids v ids).0 id ≡ false
  pub delete_reports :
      (v : V) (ids done : Ids) (id : String)
      → (store.delete_by_ids v ids).1 ≡ some (partial_write done)
      → contains done id ≡ true
      → has (store.delete_by_ids v ids).0 id ≡ false
  pub delete_linked : (v : V) (ids : Ids) → (store.delete_by_ids v ids).1 ≢ some not_linked
