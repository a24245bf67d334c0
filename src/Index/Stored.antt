-- ===== src/Index/Stored.antt =====
-- After a file is indexed, the ids of its entry are in the store.
use mathlib.Core.Option
use mcp_semantic_search_zvec.Prelude.{
  ℕ, ◌≡◌, refl, ap, ◌∙◌, Bool, true, false, List, [], ◌∷◌, Option, none, some, String, eq_iff,
  arith, ℤ, Bool-cases, inl, inr, ◌==◌,
}
use mcp_semantic_search_zvec.Window.{Chunk}
use mcp_semantic_search_zvec.Window.Slices.{All}
use mcp_semantic_search_zvec.Ids.{Ids, contains, stale_doc_ids}
use mcp_semantic_search_zvec.Ids.Sets.{contains-append}
use mcp_semantic_search_zvec.Batches.{ids_of, with_id}
use mcp_semantic_search_zvec.Batches.Invariants.{process_batches-Inv}
use mcp_semantic_search_zvec.Manifest.{
  Manifest, FileEntry, get, upsert, delete, doc_ids_of_entry, is_unchanged,
}
use mcp_semantic_search_zvec.Vectors.{
  VectorStore, WriteError, not_linked, partial_write, flush_write, refused, is_zvec_unavailable,
  delete_entry_ids, delete_stale,
}
use mcp_semantic_search_zvec.Vectors.Laws.{IsLawful}
use mcp_semantic_search_zvec.Vectors.Deletes.{stale_doc_ids-new, delete_stale-frame}
use mcp_semantic_search_zvec.Index.{
  World, Writing, Answers, IndexError, Embedded, embedded, not_embedded, Seen, readable, unreadable,
  noted, after_upsert, upsert_embedded, unless_interrupted, index_batch, forget, drop_file,
  clean_up, commit, after_chunks, written, index_changed, index_seen, index_file_seen, index_file,
  bad_ids, append, write_failed,
}

pub get-upsert :
    (m : Manifest) (entry : FileEntry) → get (upsert m entry) entry.relative_path ≡ some entry
unfolding get upsert
get-upsert [] entry = ground (arith, eq_iff entry.relative_path entry.relative_path)
get-upsert (e ∷ es) entry =
    ground (arith, get-upsert es entry, eq_iff entry.relative_path entry.relative_path)

pub get-delete : (m : Manifest) (rel : String) → get (delete m rel) rel ≡ none
unfolding get delete
get-delete [] rel = refl
get-delete (e ∷ es) rel = ground (arith, get-delete es rel)

-- No condition on the chunks.
abbrev Any : Chunk → Type 0
Any ch = Unit

no_condition :
    (doc_id_for : Chunk → ℕ → String) (chs : List Chunk)
    → All (λ ch. (n : ℕ) → Any (with_id doc_id_for ch n)) chs
no_condition doc_id_for [] = tt
no_condition doc_id_for (ch ∷ chs) = (λ n. tt, no_condition doc_id_for chs)

module _ {V Vec : Type 0} (E : Type 0) (store : VectorStore V Vec) (has : V → String → Bool)
    (lawful : IsLawful store has) (id : String) where
  -- While there is no error, the id is in the store if it is one of the new ones.
  abbrev Stored : Option (IndexError E) → Writing V → Type 0
  Stored none w = contains w.new_doc_ids id ≡ true → has w.vectors id ≡ true
  Stored (some e) w = Unit

  upserted-Stored :
      (w : Writing V) (batch : List Chunk) (vecs : List Vec) (v : V) (err : Option WriteError)
      → store.upsert_chunks w.vectors batch vecs ≡ (v, err)
      → Stored none w
      → Stored
          (after_upsert {E = E} store w (ids_of batch) (v, err)).1
          (after_upsert {E = E} store w (ids_of batch) (v, err)).0
  unfolding after_upsert noted is_zvec_unavailable
  upserted-Stored w batch vecs v none e h = λ k. elim (Bool-cases (contains w.new_doc_ids id)) [
    | inl old ↦
        let kept = lawful.upsert_keeps w.vectors batch vecs id (h old) in
        let kept' : has v id ≡ true = rw e at kept in kept'
    | inr new ↦
        let stored =
          lawful.upsert_stores w.vectors batch vecs id (ap (λ p. p.1) e)
            (ground (arith, k, new, contains-append w.new_doc_ids (ids_of batch) id)) in
        let stored' : has v id ≡ true = rw e at stored in stored'
  ]
  upserted-Stored w batch vecs v (some not_linked) e h =
      absurd (lawful.upsert_linked w.vectors batch vecs (ap (λ p. p.1) e))
  upserted-Stored w batch vecs v (some (partial_write ids)) e h = tt
  upserted-Stored w batch vecs v (some (flush_write ids)) e h = tt
  upserted-Stored w batch vecs v (some refused) e h = tt

  upsert_embedded-Stored :
      (w : Writing V) (batch : List Chunk) (vecs : Embedded Vec E)
      → Stored none w
      → Stored (upsert_embedded store w batch vecs).1 (upsert_embedded store w batch vecs).0
  unfolding upsert_embedded
  upsert_embedded-Stored w batch (not_embedded e) h = tt
  upsert_embedded-Stored w batch (embedded vecs) h =
      upserted-Stored w batch vecs (store.upsert_chunks w.vectors batch vecs).0
        (store.upsert_chunks w.vectors batch vecs).1 refl h

  index_batch-Stored :
      (answers : Answers Vec E) (w : Writing V) (batch : List Chunk)
      → Stored none w
      → Stored (index_batch store answers w batch).1 (index_batch store answers w batch).0
  unfolding index_batch unless_interrupted
  index_batch-Stored answers w batch h = by_answer (answers.interrupted w.batch)
    where
      by_answer :
          (interrupted : Option E)
          → let p =
              unless_interrupted store interrupted
                (upsert_embedded store w batch (answers.embed w.batch batch))
                w in
            Stored p.1 p.0
      by_answer (some e) = tt
      by_answer none = upsert_embedded-Stored w batch (answers.embed w.batch batch) h

  -- Where there is no error, the id is in the store if the entry of the file has it.
  abbrev pub IsKept : String → World V × Option (IndexError E) → Type 0
  IsKept rel (w, none) =
      contains (doc_ids_of_entry (get w.manifest rel)) id ≡ true → has w.vectors id ≡ true
  IsKept rel (w, some e) = Unit

  forget-IsKept :
      (w : World V) (rel : String) (delete_fails : Option E) (v : V) (err : Option WriteError)
      → IsKept rel (forget store w rel delete_fails (v, err))
  unfolding forget doc_ids_of_entry contains
  forget-IsKept w rel delete_fails v (some e) = tt
  forget-IsKept w rel (some e) v none = tt
  forget-IsKept w rel none v none = λ k. ground (arith, k, get-delete w.manifest rel)

  commit-IsKept :
      (upsert_fails : Option E) (append_fails : Bool) (w : World V) (old : Option FileEntry)
      (entry : FileEntry)
      → (contains entry.doc_ids id ≡ true → has w.vectors id ≡ true)
      → IsKept entry.relative_path (commit store upsert_fails append_fails w old entry)
  unfolding commit
  commit-IsKept (some e) append_fails w old entry h = tt
  commit-IsKept none append_fails w old entry h =
      cleaned (stale_doc_ids (doc_ids_of_entry old) entry.doc_ids)
        (λ k. stale_doc_ids-new (doc_ids_of_entry old) entry.doc_ids id k)
    where
      by_error :
          (stale : Ids) (p : V × Option WriteError)
          → (contains entry.doc_ids id ≡ true → has p.0 id ≡ true)
          → IsKept entry.relative_path (
            record w {
              vectors = p.0;
              manifest = upsert w.manifest entry;
              journal = append append_fails stale w.journal;
            },
            Option.map write_failed p.1,
          )
      by_error stale (v, none) kept = λ k. kept (unfold doc_ids_of_entry in rw get-upsert at k)
      by_error stale (v, some e) kept = tt

      cleaned :
          (stale : Ids)
          → (contains entry.doc_ids id ≡ true → contains stale id ≡ false)
          → IsKept entry.relative_path (
              clean_up {E = E} store append_fails
                (record w { manifest = upsert w.manifest entry })
                stale)
      cleaned stale apart =
          unfold clean_up in
          by_error stale (delete_stale store w.vectors stale)
            λ k. delete_stale-frame store has lawful id w.vectors stale (apart k) ∙ h k

  after_chunks-IsKept :
      (answers : Answers Vec E) (w : World V) (old : Option FileEntry) (entry : FileEntry)
      (written_state : Writing V) (err : Option (IndexError E))
      → entry.doc_ids ≡ written_state.new_doc_ids
      → w.vectors ≡ written_state.vectors
      → Stored err written_state
      → IsKept entry.relative_path (after_chunks store answers w old entry err)
  unfolding after_chunks drop_file
  after_chunks-IsKept answers w old entry s (some e) ids vectors h = tt
  after_chunks-IsKept answers w old entry s none ids vectors h =
      elim (Bool-cases (entry.chunk_count == 0)) [
        | inl empty ↦ rw empty (
            forget-IsKept w entry.relative_path answers.delete_fails
              (delete_entry_ids store w.vectors (doc_ids_of_entry old)).0
              (delete_entry_ids store w.vectors (doc_ids_of_entry old)).1)
        | inr some_chunks ↦ rw some_chunks (
            commit-IsKept answers.upsert_fails answers.append_fails w old entry
              (rw (ids, vectors) h))
      ]

  module _ (doc_id_for : Chunk → ℕ → String) (batch_size : ℤ) (answers : Answers Vec E) where
    written-Stored :
        (v : V)
        → Stored
            (written store doc_id_for batch_size answers v).error
            (written store doc_id_for batch_size answers v).state
    unfolding written
    written-Stored v =
        process_batches-Inv doc_id_for (index_batch store answers) Stored Any
          (λ w batch a h. index_batch-Stored answers w batch h) (λ e w h. tt) bad_ids batch_size
          answers.chunker (record { vectors = v; new_doc_ids = []; batch = 0 })
          (no_condition doc_id_for answers.chunker.chunks) (λ k. unfold contains in cc)

    index_changed-IsKept :
        (w : World V) (rel : String) (mtime size : ℕ) (hash : String) (old : Option FileEntry)
        → IsKept rel (index_changed store doc_id_for batch_size answers w rel mtime size hash old)
    unfolding index_changed
    index_changed-IsKept w rel mtime size hash old =
        let p = written store doc_id_for batch_size answers w.vectors in
        after_chunks-IsKept answers (record w { vectors = p.state.vectors }) old
          (record {
            relative_path = rel;
            mtime_ns = mtime;
            size = size;
            chunk_count = p.count;
            doc_ids = p.state.new_doc_ids;
            content_hash = hash;
          })
          p.state p.error refl refl (written-Stored w.vectors)

    index_seen-IsKept :
        (force : Bool) (get_fails : Option E) (w : World V) (rel : String) (mtime size : ℕ)
        (hash : String)
        → IsKept rel (w, none)
        → IsKept rel
            (index_seen store doc_id_for batch_size answers force get_fails w rel mtime size hash)
    unfolding index_seen
    index_seen-IsKept true get_fails w rel mtime size hash h =
        index_changed-IsKept w rel mtime size hash none
    index_seen-IsKept false (some e) w rel mtime size hash h = tt
    index_seen-IsKept false none w rel mtime size hash h =
        elim (Bool-cases (is_unchanged (get w.manifest rel) mtime size hash)) [
          | inl same ↦ rw same h
          | inr changed ↦
              rw changed (index_changed-IsKept w rel mtime size hash (get w.manifest rel))
        ]

    -- Where indexing a file ends without an error, an id that the file's manifest entry then has is
    -- in the vector store, if that was so before: neither a rollback nor the deletion of stale
    -- vectors takes away a vector that the entry still names.
    pub index_file-IsKept :
        (w : World V) (rel : String) (force : Bool)
        → IsKept rel (w, none)
        → IsKept rel (index_file store doc_id_for batch_size answers w rel force)
    unfolding index_file index_file_seen
    index_file-IsKept w rel force h = by_seen answers.seen
      where
        by_seen :
            (seen : Seen E)
            → IsKept rel (index_file_seen store doc_id_for batch_size answers seen w rel force)
        by_seen (unreadable e) = tt
        by_seen (readable mtime size hash) =
            index_seen-IsKept force answers.get_fails w rel mtime size hash h
