-- ===== src/Run/Journal.antt =====
-- What a run does with the cleanup journal.
use mcp_semantic_search_zvec.Prelude.{
  ℕ, ◌≡◌, refl, ◌∙◌, inl, inr, Bool, false, List, [], ◌∷◌, Option, none, some, String, arith, ℤ,
  Bool-cases, ◌==◌,
}
use mcp_semantic_search_zvec.Window.{Chunk}
use mcp_semantic_search_zvec.Ids.{Ids, contains, stale_doc_ids}
use mcp_semantic_search_zvec.Manifest.{FileEntry, get, doc_ids_of_entry, is_unchanged}
use mcp_semantic_search_zvec.Vectors.{VectorStore, WriteError, delete_entry_ids}
use mcp_semantic_search_zvec.Errors.{ErrorView, is_fatal_indexing_error, is_per_file_skippable}
use mcp_semantic_search_zvec.Index.{
  World, Answers, IndexError, Seen, readable, unreadable, append, forget, drop_file, clean_up,
  commit, after_chunks, written, index_changed, index_seen, index_file_seen, index_file,
  purge_entry, purge_removed_file,
}
use mcp_semantic_search_zvec.Run.Replay.{after_replay-settles}
use mcp_semantic_search_zvec.Run.{
  ScannedFile, RunAnswers, RunError, Run, pending, cleared, replay, reconcile_cleanup_journal,
  after_purge, after_failure, after_index, run_file, unless_stopped, run_files, after_removal,
  remove_entry, remove_gone, after_list, run,
}

append-none :
    (fails : Bool) (stale : Ids) (journal : Option (List Ids))
    → journal ≡ none
    → append fails stale journal ≡ none
unfolding append
append-none fails stale none h = refl
append-none fails stale (some lines) h = absurd (ground (arith, h))

module _ {V Vec E : Type 0} (store : VectorStore V Vec) where
  abbrev Lost : World V × Option (IndexError E) → Type 0
  Lost p = p.0.journal ≡ none

  forget-Lost :
      (w : World V) (rel : String) (fails : Option E) (r : V × Option WriteError)
      → w.journal ≡ none
      → Lost (forget store w rel fails r)
  unfolding forget
  forget-Lost w rel fails (v, some e) h = h
  forget-Lost w rel (some e) (v, none) h = h
  forget-Lost w rel none (v, none) h = h

  purge-Lost :
      (get_fails delete_fails : Option E) (w : World V) (rel : String)
      → w.journal ≡ none
      → Lost (purge_removed_file store get_fails delete_fails w rel)
  unfolding purge_removed_file purge_entry
  purge-Lost (some e) delete_fails w rel h = h
  purge-Lost none delete_fails w rel h = by_entry (get w.manifest rel)
    where
      by_entry : (o : Option FileEntry) → Lost (purge_entry store delete_fails w rel o)
      by_entry none = h
      by_entry (some e) =
          forget-Lost w rel delete_fails (delete_entry_ids store w.vectors e.doc_ids) h

  commit-Lost :
      (upsert_fails : Option E) (append_fails : Bool) (w : World V) (old : Option FileEntry)
      (e : FileEntry)
      → w.journal ≡ none
      → Lost (commit store upsert_fails append_fails w old e)
  unfolding commit clean_up
  commit-Lost (some err) append_fails w old e h = h
  commit-Lost none append_fails w old e h =
      append-none append_fails (stale_doc_ids (doc_ids_of_entry old) e.doc_ids) w.journal h

  after_chunks-Lost :
      (a : Answers Vec E) (w : World V) (old : Option FileEntry) (e : FileEntry)
      (err : Option (IndexError E))
      → w.journal ≡ none
      → Lost (after_chunks store a w old e err)
  unfolding after_chunks drop_file
  after_chunks-Lost a w old e (some err) h = h
  after_chunks-Lost a w old e none h = elim (Bool-cases (e.chunk_count == 0)) [
    | inl empty ↦ rw empty (
        forget-Lost w e.relative_path a.delete_fails
          (delete_entry_ids store w.vectors (doc_ids_of_entry old)) h)
    | inr chunks ↦ rw chunks (commit-Lost a.upsert_fails a.append_fails w old e h)
  ]

  module _ (view : IndexError E → ErrorView) (doc_id_for : Chunk → ℕ → String)
      (batch_size : ℤ) where
    index_seen-Lost :
        (a : Answers Vec E) (get_fails : Option E) (w : World V) (rel : String) (mtime size : ℕ)
        (hash : String)
        → w.journal ≡ none
        → Lost (index_seen store doc_id_for batch_size a false get_fails w rel mtime size hash)
    unfolding index_seen index_changed
    index_seen-Lost a (some e) w rel mtime size hash h = h
    index_seen-Lost a none w rel mtime size hash h =
        elim (Bool-cases (is_unchanged (get w.manifest rel) mtime size hash)) [
          | inl kept ↦ rw kept h
          | inr changed ↦ rw changed (
              let p = written store doc_id_for batch_size a w.vectors in
              after_chunks-Lost a (record w { vectors = p.state.vectors }) (get w.manifest rel)
                (record {
                  relative_path = rel;
                  mtime_ns = mtime;
                  size = size;
                  chunk_count = p.count;
                  doc_ids = p.state.new_doc_ids;
                  content_hash = hash;
                })
                p.error h)
        ]

    index_file-Lost :
        (a : Answers Vec E) (w : World V) (rel : String)
        → w.journal ≡ none
        → Lost (index_file store doc_id_for batch_size a w rel false)
    unfolding index_file index_file_seen
    index_file-Lost a w rel h = by_seen a.seen
      where
        by_seen :
            (seen : Seen E) → Lost (index_file_seen store doc_id_for batch_size a seen w rel false)
        by_seen (unreadable e) = h
        by_seen (readable mtime size hash) = index_seen-Lost a a.get_fails w rel mtime size hash h

    abbrev Gone : Run V × Option (RunError E) → Type 0
    Gone p = p.0.world.journal ≡ none

    unless_stopped-Gone :
        (p : Run V × Option (RunError E)) (next : Run V → Run V × Option (RunError E))
        → Gone p
        → ((r : Run V) → r.world.journal ≡ none → Gone (next r))
        → Gone (unless_stopped store view doc_id_for batch_size p next)
    unfolding unless_stopped
    unless_stopped-Gone (r, none) next g k = k r g
    unless_stopped-Gone (r, some e) next g k = g

    after_purge-Gone :
        (r : Run V) (rel : String) (p : World V × Option (IndexError E))
        → Lost p
        → Gone (after_purge store r rel p)
    unfolding after_purge
    after_purge-Gone r rel (w, none) g = g
    after_purge-Gone r rel (w, some e) g = g

    after_failure-Gone :
        (f : ScannedFile Vec E) (r : Run V) (e : IndexError E) (v : ErrorView)
        → r.world.journal ≡ none
        → Gone (after_failure store view doc_id_for batch_size f r e v)
    unfolding after_failure
    after_failure-Gone f r e v g = elim (Bool-cases (is_fatal_indexing_error v)) [
      | inl fatal ↦ rw fatal g
      | inr mild ↦ rw mild (elim (Bool-cases (is_per_file_skippable v)) [
        | inr stops ↦ rw stops g
        | inl skips ↦ rw skips (elim (Bool-cases v.is_not_exist) [
          | inr there ↦ rw there g
          | inl vanished ↦ rw vanished (
              after_purge-Gone r f.rel
                (purge_removed_file store f.purge_get_fails f.purge_delete_fails r.world f.rel)
                (purge-Lost f.purge_get_fails f.purge_delete_fails r.world f.rel g))
        ])
      ])
    ]

    after_index-Gone :
        (f : ScannedFile Vec E) (r : Run V) (p : World V × Option (IndexError E))
        → Lost p
        → Gone (after_index store view doc_id_for batch_size f r p)
    unfolding after_index
    after_index-Gone f r (w, none) g = g
    after_index-Gone f r (w, some e) g = after_failure-Gone f (record r { world = w }) e (view e) g

    run_file-Gone :
        (f : ScannedFile Vec E) (context_done stalled : Option E) (r : Run V)
        → r.world.journal ≡ none
        → Gone (run_file store view doc_id_for batch_size f context_done stalled r)
    unfolding run_file
    run_file-Gone f (some e) stalled r g = g
    run_file-Gone f none (some e) r g = g
    run_file-Gone f none none r g =
        after_index-Gone f (record r { discovered = f.rel ∷ r.discovered })
          (index_file store doc_id_for batch_size f.answers r.world f.rel false)
          (index_file-Lost f.answers r.world f.rel g)

    run_files-Gone :
        (fs : List (ScannedFile Vec E)) (r : Run V)
        → r.world.journal ≡ none
        → Gone (run_files store view doc_id_for batch_size fs r)
    unfolding run_files
    run_files-Gone [] r g = g
    run_files-Gone (f ∷ fs) r g =
        unless_stopped-Gone (run_file store view doc_id_for batch_size f f.context_done f.stalled r)
          (run_files store view doc_id_for batch_size fs)
          (run_file-Gone f f.context_done f.stalled r g) (run_files-Gone fs)

    after_removal-Gone :
        (r : Run V) (p : World V × Option (IndexError E))
        → Lost p
        → Gone (after_removal store view doc_id_for batch_size r p)
    unfolding after_removal
    after_removal-Gone r (w, none) g = g
    after_removal-Gone r (w, some e) g = g

    remove_gone-Gone :
        (a : RunAnswers E) (es : List FileEntry) (r : Run V)
        → r.world.journal ≡ none
        → Gone (remove_gone store view doc_id_for batch_size a es r)
    unfolding remove_gone remove_entry
    remove_gone-Gone a [] r g = g
    remove_gone-Gone a (e ∷ es) r g =
        unless_stopped-Gone (remove_entry store view doc_id_for batch_size a e r)
          (remove_gone store view doc_id_for batch_size a es)
          (elim (Bool-cases (contains r.discovered e.relative_path)) [
            | inl there ↦ rw there g
            | inr gone ↦ rw gone (
                after_removal-Gone r _ (
                  forget-Lost r.world e.relative_path (a.delete_fails e.relative_path)
                    (delete_entry_ids store r.world.vectors e.doc_ids) g))
          ])
          (remove_gone-Gone a es)

    after_list-Gone :
        (a : RunAnswers E) (fails : Option E) (r : Run V)
        → r.world.journal ≡ none
        → Gone (after_list store view doc_id_for batch_size a fails r)
    unfolding after_list
    after_list-Gone a (some e) r g = g
    after_list-Gone a none r g = remove_gone-Gone a r.world.manifest r g

    -- A run that replays a journal with ids pending and removes it records nothing in the journal any
    -- more: whatever files it indexes, and however it ends, there is no journal at its end.
    pub run-journal :
        (a : RunAnswers E) (files : List (ScannedFile Vec E)) (w : World V) (first : String)
        (rest : Ids)
        → a.pending_fails ≡ false
        → a.clear_fails ≡ false
        → pending w.journal ≡ first ∷ rest
        → (store.delete_by_ids w.vectors (first ∷ rest)).1 ≡ none
        → (run store view doc_id_for batch_size a files w).0.world.journal ≡ none
    unfolding run reconcile_cleanup_journal replay
    run-journal a files w first rest reads clears e ok =
        let start =
          after_replay-settles a.clear_fails w (store.delete_by_ids w.vectors (first ∷ rest)).0
            (store.delete_by_ids w.vectors (first ∷ rest)).1 ok in
        unless_stopped-Gone
          (run_files store view doc_id_for batch_size files (record {
            world = reconcile_cleanup_journal store a w;
            discovered = [];
            files_failed = 0;
          }))
          (after_list store view doc_id_for batch_size a a.list_fails)
          (run_files-Gone files
            (record {
              world = reconcile_cleanup_journal store a w;
              discovered = [];
              files_failed = 0;
            })
            (rw (reads, e) (start ∙ unfold cleared in rw clears refl)))
          (after_list-Gone a a.list_fails)
