-- ===== src/Index.antt =====
-- Indexing one file and removing one: indexFile and purgeRemovedFile of
-- internal/indexer/coordinator.go, on a world of the vector store, the manifest and the cleanup
-- journal (internal/store/manifest/cleanup.go). What the system answers on the way is an argument.
pub mod Frame
pub mod Stored
pub mod Cleaned
use mathlib.Core.Option
use mcp_semantic_search_zvec.Prelude.{
  ℕ, zero, suc, ◌+◌, Bool, true, false, not, ◌&&◌, List, [], ◌∷◌, ◌++◌, Option, none, some, String,
  str_eq, if◌then◌else◌, ◌==◌, ℤ,
}
use mcp_semantic_search_zvec.Window.{Chunk}
use mcp_semantic_search_zvec.Ids.{Ids, IdError, stale_doc_ids, rollback_new_doc_ids}
use mcp_semantic_search_zvec.Manifest.{
  Manifest, FileEntry, get, upsert, delete, doc_ids_of_entry, rollback_ids, is_unchanged,
}
use mcp_semantic_search_zvec.Vectors.{
  VectorStore, WriteError, is_zvec_unavailable, partial_write_outcome, delete_if_any,
  delete_entry_ids, delete_stale,
}
use mcp_semantic_search_zvec.Batches.{ids_of, Source, Processed, process_batches}

-- The journal is `none` where it could not be opened.
pub record World (V : Type 0) : Type 0 where
  pub vectors : V
  pub manifest : Manifest
  pub journal : Option (List Ids)

-- What has been written for a file so far, and the number of batches.
pub record Writing (V : Type 0) : Type 0 where
  pub vectors : V
  pub new_doc_ids : Ids
  pub batch : ℕ

-- The errors of indexFile: of the embedder, of the store, of the ids and of any other call.
pub data IndexError (E : Type 0) : Type 0 where
  failed : E → IndexError E
  fatal_embed : E → IndexError E
  write_failed : WriteError → IndexError E
  bad_ids : IdError → IndexError E

pub data Embedded (Vec E : Type 0) : Type 0 where
  embedded : List Vec → Embedded Vec E
  not_embedded : E → Embedded Vec E

-- What the file system says of a file: that it cannot be read, or its time, size and hash.
pub data Seen (E : Type 0) : Type 0 where
  unreadable : E → Seen E
  readable : ℕ → ℕ → String → Seen E

-- The answers of the system while one file is indexed. A statement of the manifest that fails
-- leaves it as it was; so does a failing append to the journal.
pub record Answers (Vec E : Type 0) : Type 0 where
  pub seen : Seen E
  pub chunker : Source (IndexError E)
  pub interrupted : ℕ → Option E
  pub embed : ℕ → List Chunk → Embedded Vec E
  pub get_fails : Option E
  pub upsert_fails : Option E
  pub delete_fails : Option E
  pub append_fails : Bool

-- The journal gets a line for the stale ids, unless there are none or it is not open.
unfoldable pub append : Bool → Ids → Option (List Ids) → Option (List Ids)
append fails ids none = none
append true ids (some lines) = some lines
append false [] (some lines) = some lines
append false (id ∷ ids) (some lines) = some (lines ++ (id ∷ ids) ∷ [])

-- The ids that are known or may be stored.
unfoldable pub noted : {V : Type 0} → Writing V → V → Option Ids → Writing V
noted w v none = record w { vectors = v; batch = w.batch + 1 }
noted w v (some ids) = record w {
  vectors = v;
  new_doc_ids = w.new_doc_ids ++ ids;
  batch = w.batch + 1;
}

module _ {V Vec E : Type 0} (store : VectorStore V Vec) where
  unfoldable pub after_upsert :
      Writing V → Ids → V × Option WriteError → Writing V × Option (IndexError E)
  unfolding noted is_zvec_unavailable partial_write_outcome
  after_upsert w ids (v, none) = (noted w v (some ids), none)
  after_upsert w ids (v, some e) =
      if is_zvec_unavailable e
      then (noted w v (some ids), none)
      else (noted w v (partial_write_outcome e), some (write_failed e))

  unfoldable pub upsert_embedded :
      Writing V → List Chunk → Embedded Vec E → Writing V × Option (IndexError E)
  unfolding after_upsert
  upsert_embedded w batch (not_embedded e) = (w, some (fatal_embed e))
  upsert_embedded w batch (embedded vecs) =
      after_upsert w (ids_of batch) (store.upsert_chunks w.vectors batch vecs)

  unfoldable pub unless_interrupted :
      Option E → Writing V × Option (IndexError E) → Writing V → Writing V × Option (IndexError E)
  unless_interrupted (some e) next w = (w, some (failed e))
  unless_interrupted none next w = next

  -- The callback that indexFile hands to ProcessBatches.
  unfoldable pub index_batch :
      Answers Vec E → Writing V → List Chunk → Writing V × Option (IndexError E)
  unfolding upsert_embedded unless_interrupted
  index_batch answers w batch =
      unless_interrupted (answers.interrupted w.batch)
        (upsert_embedded w batch (answers.embed w.batch batch)) w

  -- manStore.Delete after the vectors are gone.
  unfoldable pub forget :
      World V → String → Option E → V × Option WriteError → World V × Option (IndexError E)
  unfolding delete
  forget w rel delete_fails (v, some e) = (record w { vectors = v }, some (write_failed e))
  forget w rel (some e) (v, none) = (record w { vectors = v }, some (failed e))
  forget w rel none (v, none) = (record w { vectors = v; manifest = delete w.manifest rel }, none)

  -- The vectors and the entry of a file without chunks.
  unfoldable pub drop_file :
      Answers Vec E → World V → String → Option FileEntry → World V × Option (IndexError E)
  unfolding forget delete_entry_ids doc_ids_of_entry
  drop_file answers w rel old =
      forget w rel answers.delete_fails (delete_entry_ids store w.vectors (doc_ids_of_entry old))

  -- After the manifest is written: the journal, then the stale vectors.
  unfoldable pub clean_up : Bool → World V → Ids → World V × Option (IndexError E)
  unfolding delete_stale append
  clean_up append_fails w stale =
      let (v, err) = delete_stale store w.vectors stale in
      (
        record w { vectors = v; journal = append append_fails stale w.journal },
        Option.map write_failed err,
      )

  -- `upsert_fails` and `append_fails` are the answers to manStore.Upsert and cleanup.Append.
  unfoldable pub commit :
      Option E → Bool → World V → Option FileEntry → FileEntry → World V × Option (IndexError E)
  unfolding clean_up rollback_ids delete_if_any stale_doc_ids doc_ids_of_entry upsert
  commit (some e) append_fails w old entry = (
    record w { vectors = delete_if_any store w.vectors (rollback_ids entry.doc_ids old) },
    some (failed e),
  )
  commit none append_fails w old entry =
      clean_up append_fails (record w { manifest = upsert w.manifest entry })
        (stale_doc_ids (doc_ids_of_entry old) entry.doc_ids)

  -- What follows ProcessBatches: its error, no chunks, or an entry to write.
  unfoldable pub after_chunks :
      Answers Vec E
      → World V
      → Option FileEntry
      → FileEntry
      → Option (IndexError E)
      → World V × Option (IndexError E)
  unfolding commit drop_file rollback_ids delete_if_any
  after_chunks answers w old entry (some e) = (
    record w { vectors = delete_if_any store w.vectors (rollback_ids entry.doc_ids old) },
    some e,
  )
  after_chunks answers w old entry none =
      let dropped = drop_file answers w entry.relative_path old in
      let committed = commit answers.upsert_fails answers.append_fails w old entry in
      if entry.chunk_count == 0 then dropped else committed

  module _ (doc_id_for : Chunk → ℕ → String) (batch_size : ℤ) (answers : Answers Vec E) where
    unfoldable pub written : V → Processed (Writing V) (IndexError E)
    unfolding index_batch process_batches
    written v =
        process_batches doc_id_for (index_batch answers) bad_ids batch_size answers.chunker
          (record { vectors = v; new_doc_ids = []; batch = 0 })

    unfoldable pub index_changed :
        World V → String → ℕ → ℕ → String → Option FileEntry → World V × Option (IndexError E)
    unfolding written after_chunks
    index_changed w rel mtime size hash old =
        let p = written w.vectors in
        after_chunks answers (record w { vectors = p.state.vectors }) old
          (record {
            relative_path = rel;
            mtime_ns = mtime;
            size = size;
            chunk_count = p.count;
            doc_ids = p.state.new_doc_ids;
            content_hash = hash;
          })
          p.error

    -- A forced run does not look at the manifest.
    unfoldable pub index_seen :
        Bool → Option E → World V → String → ℕ → ℕ → String → World V × Option (IndexError E)
    unfolding index_changed get is_unchanged
    index_seen true get_fails w rel mtime size hash = index_changed w rel mtime size hash none
    index_seen false (some e) w rel mtime size hash = (w, some (failed e))
    index_seen false none w rel mtime size hash =
        let old = get w.manifest rel in
        let changed = index_changed w rel mtime size hash old in
        if is_unchanged old mtime size hash then (w, none) else changed

    unfoldable pub index_file_seen :
        Seen E → World V → String → Bool → World V × Option (IndexError E)
    unfolding index_seen
    index_file_seen (unreadable e) w rel force = (w, some (failed e))
    index_file_seen (readable mtime size hash) w rel force =
        index_seen force answers.get_fails w rel mtime size hash

    unfoldable pub index_file : World V → String → Bool → World V × Option (IndexError E)
    unfolding index_file_seen
    index_file w rel force = index_file_seen answers.seen w rel force

  unfoldable pub purge_entry :
      Option E → World V → String → Option FileEntry → World V × Option (IndexError E)
  unfolding forget delete_entry_ids
  purge_entry delete_fails w rel none = (w, none)
  purge_entry delete_fails w rel (some entry) =
      forget w rel delete_fails (delete_entry_ids store w.vectors entry.doc_ids)

  unfoldable pub purge_removed_file :
      Option E → Option E → World V → String → World V × Option (IndexError E)
  unfolding purge_entry get
  purge_removed_file (some e) delete_fails w rel = (w, some (failed e))
  purge_removed_file none delete_fails w rel = purge_entry delete_fails w rel (get w.manifest rel)
