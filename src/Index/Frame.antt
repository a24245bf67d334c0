-- ===== src/Index/Frame.antt =====
-- What indexing a file leaves alone.
use mcp_semantic_search_zvec.Prelude.{
  ℕ, ◌≡◌, refl, ◌∙◌, Bool, true, false, List, [], ◌∷◌, Option, none, some, String, str_eq, arith, ℤ,
  Bool-cases, inl, inr, ◌==◌,
}
use mcp_semantic_search_zvec.Window.{Chunk}
use mcp_semantic_search_zvec.Window.Slices.{All}
use mcp_semantic_search_zvec.Ids.{Ids, contains, stale_doc_ids, rollback_new_doc_ids}
use mcp_semantic_search_zvec.Ids.Sets.{contains-append}
use mcp_semantic_search_zvec.Batches.{ids_of, with_id}
use mcp_semantic_search_zvec.Batches.Invariants.{process_batches-Inv}
use mcp_semantic_search_zvec.Manifest.{FileEntry, get, doc_ids_of_entry, rollback_ids, is_unchanged}
use mcp_semantic_search_zvec.Vectors.{
  VectorStore, WriteError, is_zvec_unavailable, partial_write_outcome, delete_entry_ids,
}
use mcp_semantic_search_zvec.Vectors.Laws.{IsLawful, reported}
use mcp_semantic_search_zvec.Vectors.Deletes.{
  stale_doc_ids-absent, delete_if_any-frame, delete_entry_ids-frame, delete_stale-frame,
}
use mcp_semantic_search_zvec.Index.{
  World, Writing, Answers, IndexError, Embedded, embedded, not_embedded, Seen, readable, unreadable,
  noted, after_upsert, upsert_embedded, unless_interrupted, index_batch, forget, drop_file,
  clean_up, commit, after_chunks, written, index_changed, index_seen, index_file_seen, index_file,
  bad_ids,
}

rollback_ids-absent :
    (new : Ids) (old : Option FileEntry) (id : String)
    → contains new id ≡ false
    → contains (rollback_ids new old) id ≡ false
unfolding rollback_ids rollback_new_doc_ids
rollback_ids-absent new none id h = h
rollback_ids-absent new (some e) id h = of_ids e.doc_ids
  where
    of_ids : (ids : Ids) → contains (rollback_new_doc_ids new (some ids)) id ≡ false
    of_ids [] = h
    of_ids (x ∷ ids) = stale_doc_ids-absent new (x ∷ ids) id h

-- The chunk has another id.
abbrev pub IsOther : String → Chunk → Type 0
IsOther id ch = str_eq ch.doc_id id ≡ false

ids_of-absent :
    (id : String) (batch : List Chunk) → All (IsOther id) batch → contains (ids_of batch) id ≡ false
unfolding contains
ids_of-absent id [] h = refl
ids_of-absent id (ch ∷ chs) h = ground (arith, h.0, ids_of-absent id chs h.1)

module _ {V Vec : Type 0} (E : Type 0) (store : VectorStore V Vec) (has : V → String → Bool)
    (lawful : IsLawful store has) (id : String) where
  -- The vector of the id is as it was, and the id is none of the new ones.
  abbrev Apart : V → Writing V → Type 0
  Apart v0 w = (has w.vectors id ≡ has v0 id) × (contains w.new_doc_ids id ≡ false)

  noted-Apart :
      (v0 v : V) (w : Writing V) (ids : Option Ids)
      → Apart v0 w
      → has v id ≡ has w.vectors id
      → contains (reported ids) id ≡ false
      → Apart v0 (noted w v ids)
  unfolding noted
  noted-Apart v0 v w none h e a = (e ∙ h.0, h.1)
  noted-Apart v0 v w (some ids) h e a =
      (e ∙ h.0, ground (arith, h.1, a, contains-append w.new_doc_ids ids id))

  after_upsert-Apart :
      (v0 v : V) (w : Writing V) (ids : Ids) (err : Option WriteError)
      → Apart v0 w
      → has v id ≡ has w.vectors id
      → contains ids id ≡ false
      → ((e : WriteError) → err ≡ some e → contains (reported (partial_write_outcome e)) id ≡ false)
      → Apart v0 (after_upsert {E = E} store w ids (v, err)).0
  unfolding after_upsert
  after_upsert-Apart v0 v w ids none h e a r = noted-Apart v0 v w (some ids) h e a
  after_upsert-Apart v0 v w ids (some err) h e a r = elim (Bool-cases (is_zvec_unavailable err)) [
    | inl unavailable ↦ rw unavailable (noted-Apart v0 v w (some ids) h e a)
    | inr other ↦ rw other (noted-Apart v0 v w (partial_write_outcome err) h e (r err refl))
  ]

  upsert_embedded-Apart :
      (v0 : V) (w : Writing V) (batch : List Chunk) (vecs : Embedded Vec E)
      → All (IsOther id) batch
      → Apart v0 w
      → Apart v0 (upsert_embedded store w batch vecs).0
  unfolding upsert_embedded
  upsert_embedded-Apart v0 w batch (not_embedded e) a h = h
  upsert_embedded-Apart v0 w batch (embedded vecs) a h =
      let absent = ids_of-absent id batch a in
      after_upsert-Apart v0 (store.upsert_chunks w.vectors batch vecs).0 w (ids_of batch)
        (store.upsert_chunks w.vectors batch vecs).1 h
        (lawful.upsert_frame w.vectors batch vecs id absent) absent
        λ e failed. ground (arith, absent, lawful.upsert_reports w.vectors batch vecs e id failed)

  index_batch-Apart :
      (answers : Answers Vec E) (v0 : V) (w : Writing V) (batch : List Chunk)
      → All (IsOther id) batch
      → Apart v0 w
      → Apart v0 (index_batch store answers w batch).0
  unfolding index_batch unless_interrupted
  index_batch-Apart answers v0 w batch a h = by_answer (answers.interrupted w.batch)
    where
      by_answer :
          (interrupted : Option E)
          → Apart v0
              (unless_interrupted store interrupted
                (upsert_embedded store w batch (answers.embed w.batch batch))
                w).0
      by_answer (some e) = h
      by_answer none = upsert_embedded-Apart v0 w batch (answers.embed w.batch batch) a h

  pub forget-frame :
      (w : World V) (rel : String) (delete_fails : Option E) (v : V) (err : Option WriteError)
      → has v id ≡ has w.vectors id
      → has (forget store w rel delete_fails (v, err)).0.vectors id ≡ has w.vectors id
  unfolding forget
  forget-frame w rel delete_fails v (some e) h = h
  forget-frame w rel (some e) v none h = h
  forget-frame w rel none v none h = h

  commit-frame :
      (upsert_fails : Option E) (append_fails : Bool) (w : World V) (old : Option FileEntry)
      (entry : FileEntry)
      → contains (doc_ids_of_entry old) id ≡ false
      → contains entry.doc_ids id ≡ false
      → has (commit store upsert_fails append_fails w old entry).0.vectors id ≡ has w.vectors id
  unfolding commit clean_up
  commit-frame (some e) append_fails w old entry ho hn =
      delete_if_any-frame store has lawful id w.vectors (rollback_ids entry.doc_ids old)
        (rollback_ids-absent entry.doc_ids old id hn)
  commit-frame none append_fails w old entry ho hn =
      delete_stale-frame store has lawful id w.vectors
        (stale_doc_ids (doc_ids_of_entry old) entry.doc_ids)
        (stale_doc_ids-absent (doc_ids_of_entry old) entry.doc_ids id ho)

  after_chunks-frame :
      (answers : Answers Vec E) (w : World V) (old : Option FileEntry) (entry : FileEntry)
      (err : Option (IndexError E))
      → contains (doc_ids_of_entry old) id ≡ false
      → contains entry.doc_ids id ≡ false
      → has (after_chunks store answers w old entry err).0.vectors id ≡ has w.vectors id
  unfolding after_chunks drop_file
  after_chunks-frame answers w old entry (some e) ho hn =
      delete_if_any-frame store has lawful id w.vectors (rollback_ids entry.doc_ids old)
        (rollback_ids-absent entry.doc_ids old id hn)
  after_chunks-frame answers w old entry none ho hn = elim (Bool-cases (entry.chunk_count == 0)) [
    | inl empty ↦ rw empty (
        forget-frame w entry.relative_path answers.delete_fails
          (delete_entry_ids store w.vectors (doc_ids_of_entry old)).0
          (delete_entry_ids store w.vectors (doc_ids_of_entry old)).1
          (delete_entry_ids-frame store has lawful id w.vectors (doc_ids_of_entry old) ho))
    | inr some_chunks ↦
        rw some_chunks (commit-frame answers.upsert_fails answers.append_fails w old entry ho hn)
  ]

  module _ (doc_id_for : Chunk → ℕ → String) (batch_size : ℤ) (answers : Answers Vec E)
      (others : All
        (λ ch. (n : ℕ) → str_eq (doc_id_for ch n) id ≡ false)
        answers.chunker.chunks) where
    pub written-Apart : (v : V) → Apart v (written store doc_id_for batch_size answers v).state
    unfolding written
    written-Apart v =
        process_batches-Inv doc_id_for (index_batch store answers) (λ err w. Apart v w) (IsOther id)
          (index_batch-Apart answers v) (λ e w h. h) bad_ids batch_size answers.chunker
          (record { vectors = v; new_doc_ids = []; batch = 0 }) (unfold with_id in others)
          (refl, unfold contains in refl)

    index_changed-frame :
        (w : World V) (rel : String) (mtime size : ℕ) (hash : String) (old : Option FileEntry)
        → contains (doc_ids_of_entry old) id ≡ false
        → has
            (index_changed store doc_id_for batch_size answers w rel mtime size hash old).0.vectors
            id
          ≡ has w.vectors id
    unfolding index_changed
    index_changed-frame w rel mtime size hash old ho =
        let apart = written-Apart w.vectors in
        let p = written store doc_id_for batch_size answers w.vectors in
        after_chunks-frame answers (record w { vectors = p.state.vectors }) old
          (record {
            relative_path = rel;
            mtime_ns = mtime;
            size = size;
            chunk_count = p.count;
            doc_ids = p.state.new_doc_ids;
            content_hash = hash;
          })
          p.error ho apart.1
        ∙ apart.0

    index_seen-frame :
        (force : Bool) (get_fails : Option E) (w : World V) (rel : String) (mtime size : ℕ)
        (hash : String)
        → contains (doc_ids_of_entry (get w.manifest rel)) id ≡ false
        → has
            (index_seen store doc_id_for batch_size answers force get_fails w rel mtime size
              hash).0.vectors
            id
          ≡ has w.vectors id
    unfolding index_seen
    index_seen-frame true get_fails w rel mtime size hash ho =
        index_changed-frame w rel mtime size hash none (unfold doc_ids_of_entry contains in refl)
    index_seen-frame false (some e) w rel mtime size hash ho = refl
    index_seen-frame false none w rel mtime size hash ho =
        elim (Bool-cases (is_unchanged (get w.manifest rel) mtime size hash)) [
          | inl same ↦ rw same refl
          | inr changed ↦
              rw changed (index_changed-frame w rel mtime size hash (get w.manifest rel) ho)
        ]

    -- Indexing a file, whatever goes wrong on the way, neither stores nor deletes a vector whose id
    -- is not among those that its chunks may get and not in its manifest entry.
    pub index_file-frame :
        (w : World V) (rel : String) (force : Bool)
        → contains (doc_ids_of_entry (get w.manifest rel)) id ≡ false
        → has (index_file store doc_id_for batch_size answers w rel force).0.vectors id
          ≡ has w.vectors id
    unfolding index_file index_file_seen
    index_file-frame w rel force ho = by_seen answers.seen
      where
        by_seen :
            (seen : Seen E)
            → has
                (index_file_seen store doc_id_for batch_size answers seen w rel force).0.vectors
                id
              ≡ has w.vectors id
        by_seen (unreadable e) = refl
        by_seen (readable mtime size hash) =
            index_seen-frame force answers.get_fails w rel mtime size hash ho
