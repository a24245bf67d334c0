-- ===== src/Index/Cleaned.antt =====
-- After a file is indexed or removed, the ids that its entry no longer has are not in the store.
use mathlib.Core.Option
use mcp_semantic_search_zvec.Prelude.{
  ℕ, ◌≡◌, Bool, true, false, Option, none, some, String, ℤ, Bool-cases, Option-cases, inl, inr,
  ◌==◌,
}
use mcp_semantic_search_zvec.Window.{Chunk}
use mcp_semantic_search_zvec.Ids.{Ids, contains, stale_doc_ids}
use mcp_semantic_search_zvec.Manifest.{FileEntry, get, upsert, doc_ids_of_entry, is_unchanged}
use mcp_semantic_search_zvec.Vectors.{VectorStore, WriteError, delete_entry_ids, delete_stale}
use mcp_semantic_search_zvec.Vectors.Laws.{IsLawful, Removes}
use mcp_semantic_search_zvec.Vectors.Removals.{
  IsGone, stale_doc_ids-old, delete_stale-IsGone, delete_entry_ids-IsGone,
}
use mcp_semantic_search_zvec.Index.{
  World, Answers, IndexError, Seen, readable, unreadable, forget, drop_file, clean_up, commit,
  after_chunks, written, index_changed, index_seen, index_file_seen, index_file, append,
  write_failed, purge_entry, purge_removed_file,
}
use mcp_semantic_search_zvec.Index.Stored.{get-upsert, get-delete}

module _ {V Vec : Type 0} (E : Type 0) (store : VectorStore V Vec) (has : V → String → Bool)
    (lawful : IsLawful store has) (removes : Removes store has) (id : String) where
  -- Where there is no error, the id is not in the store unless the entry of the file has it.
  abbrev pub IsCleaned : String → World V × Option (IndexError E) → Type 0
  IsCleaned rel (w, none) =
      contains (doc_ids_of_entry (get w.manifest rel)) id ≡ false → has w.vectors id ≡ false
  IsCleaned rel (w, some e) = Unit

  forget-IsCleaned :
      (w : World V) (rel : String) (delete_fails : Option E) (p : V × Option WriteError)
      → IsGone store has lawful removes id p
      → IsCleaned rel (forget store w rel delete_fails p)
  unfolding forget
  forget-IsCleaned w rel delete_fails (v, some e) h = tt
  forget-IsCleaned w rel (some e) (v, none) h = tt
  forget-IsCleaned w rel none (v, none) h = λ k. h

  commit-IsCleaned :
      (upsert_fails : Option E) (append_fails : Bool) (w : World V) (old : Option FileEntry)
      (entry : FileEntry)
      → contains (doc_ids_of_entry old) id ≡ true
      → IsCleaned entry.relative_path (commit store upsert_fails append_fails w old entry)
  unfolding commit clean_up
  commit-IsCleaned (some e) append_fails w old entry h = tt
  commit-IsCleaned none append_fails w old entry h =
      by_error (delete_stale store w.vectors (stale_doc_ids (doc_ids_of_entry old) entry.doc_ids))
        λ new.
          delete_stale-IsGone store has lawful removes id w.vectors
            (stale_doc_ids (doc_ids_of_entry old) entry.doc_ids)
            (stale_doc_ids-old (doc_ids_of_entry old) entry.doc_ids id h new)
    where
      by_error :
          (p : V × Option WriteError)
          → (contains entry.doc_ids id ≡ false → IsGone store has lawful removes id p)
          → IsCleaned entry.relative_path (
            record w {
              vectors = p.0;
              manifest = upsert w.manifest entry;
              journal =
                  append append_fails
                    (stale_doc_ids (doc_ids_of_entry old) entry.doc_ids)
                    w.journal;
            },
            Option.map write_failed p.1,
          )
      by_error (v, none) gone = λ k. gone (unfold doc_ids_of_entry in rw get-upsert at k)
      by_error (v, some e) gone = tt

  after_chunks-IsCleaned :
      (answers : Answers Vec E) (w : World V) (old : Option FileEntry) (entry : FileEntry)
      (err : Option (IndexError E))
      → contains (doc_ids_of_entry old) id ≡ true
      → IsCleaned entry.relative_path (after_chunks store answers w old entry err)
  unfolding after_chunks drop_file
  after_chunks-IsCleaned answers w old entry (some e) h = tt
  after_chunks-IsCleaned answers w old entry none h = elim (Bool-cases (entry.chunk_count == 0)) [
    | inl empty ↦ rw empty (
        forget-IsCleaned w entry.relative_path answers.delete_fails
          (delete_entry_ids store w.vectors (doc_ids_of_entry old))
          (delete_entry_ids-IsGone store has lawful removes id w.vectors (doc_ids_of_entry old) h))
    | inr some_chunks ↦
        rw some_chunks (commit-IsCleaned answers.upsert_fails answers.append_fails w old entry h)
  ]

  -- Where indexing a file, not forced, ends without an error, an id that the file's entry had before
  -- and has no longer is not in the vector store: no attempt to delete it, and no rest that a
  -- partial deletion left, is forgotten.
  pub index_file-IsCleaned :
      (doc_id_for : Chunk → ℕ → String) (batch_size : ℤ) (answers : Answers Vec E) (w : World V)
      (rel : String)
      → contains (doc_ids_of_entry (get w.manifest rel)) id ≡ true
      → IsCleaned rel (index_file store doc_id_for batch_size answers w rel false)
  unfolding index_file index_file_seen index_seen index_changed
  index_file-IsCleaned doc_id_for batch_size answers w rel h = by_seen answers.seen
    where
      changed :
          (mtime size : ℕ) (hash : String)
          → IsCleaned rel (
              index_changed store doc_id_for batch_size answers w rel mtime size hash
                (get w.manifest rel))
      changed mtime size hash =
          let p = written store doc_id_for batch_size answers w.vectors in
          after_chunks-IsCleaned answers (record w { vectors = p.state.vectors })
            (get w.manifest rel)
            (record {
              relative_path = rel;
              mtime_ns = mtime;
              size = size;
              chunk_count = p.count;
              doc_ids = p.state.new_doc_ids;
              content_hash = hash;
            })
            p.error h

      by_get :
          (get_fails : Option E) (mtime size : ℕ) (hash : String)
          → IsCleaned rel
              (index_seen store doc_id_for batch_size answers false get_fails w rel mtime size hash)
      by_get (some e) mtime size hash = tt
      by_get none mtime size hash =
          elim (Bool-cases (is_unchanged (get w.manifest rel) mtime size hash)) [
            | inl same ↦ rw same (λ k. cc)
            | inr other ↦ rw other (changed mtime size hash)
          ]

      by_seen :
          (seen : Seen E)
          → IsCleaned rel (index_file_seen store doc_id_for batch_size answers seen w rel false)
      by_seen (unreadable e) = tt
      by_seen (readable mtime size hash) = by_get answers.get_fails mtime size hash

  -- Where there is no error, the entry is gone, and so is the id if it was one of the entry's.
  abbrev pub IsPurged : Ids → String → World V × Option (IndexError E) → Type 0
  IsPurged ids rel (w, none) =
      (get w.manifest rel ≡ none) × (contains ids id ≡ true → has w.vectors id ≡ false)
  IsPurged ids rel (w, some e) = Unit

  forget-IsPurged :
      (ids : Ids) (w : World V) (rel : String) (delete_fails : Option E) (p : V × Option WriteError)
      → (contains ids id ≡ true → IsGone store has lawful removes id p)
      → IsPurged ids rel (forget store w rel delete_fails p)
  unfolding forget
  forget-IsPurged ids w rel delete_fails (v, some e) h = tt
  forget-IsPurged ids w rel (some e) (v, none) h = tt
  forget-IsPurged ids w rel none (v, none) h = (get-delete w.manifest rel, h)

  -- Where the removal of a file ends without an error, its entry is gone from the manifest, and no
  -- id that the entry had is left in the vector store.
  pub purge_removed_file-IsPurged :
      (get_fails delete_fails : Option E) (w : World V) (rel : String)
      → IsPurged
          (doc_ids_of_entry (get w.manifest rel))
          rel
          (purge_removed_file store get_fails delete_fails w rel)
  unfolding purge_removed_file purge_entry doc_ids_of_entry contains
  purge_removed_file-IsPurged (some e) delete_fails w rel = tt
  purge_removed_file-IsPurged none delete_fails w rel = elim (Option-cases (get w.manifest rel)) [
    | inl missing ↦ rw missing (missing, λ h. cc)
    | inr (entry, found) ↦ rw found (
        forget-IsPurged entry.doc_ids w rel delete_fails
          (delete_entry_ids store w.vectors entry.doc_ids)
          (delete_entry_ids-IsGone store has lawful removes id w.vectors entry.doc_ids))
  ]
