-- ===== src/Run/Kept.antt =====
-- What a run does to one id of one file.
use mcp_semantic_search_zvec.Prelude.{
  ℕ, ◌≡◌, refl, ◌∙◌, inl, inr, Bool, true, false, List, [], ◌∷◌, Option, none, some, String, arith,
  ℤ, Bool-cases,
}
use mcp_semantic_search_zvec.Window.{Chunk}
use mcp_semantic_search_zvec.Window.Slices.{All}
use mcp_semantic_search_zvec.Ids.{Ids, contains}
use mcp_semantic_search_zvec.Manifest.{FileEntry, get, doc_ids_of_entry}
use mcp_semantic_search_zvec.Vectors.{VectorStore, WriteError, delete_entry_ids, minded}
use mcp_semantic_search_zvec.Vectors.Laws.{IsLawful}
use mcp_semantic_search_zvec.Errors.{ErrorView, is_fatal_indexing_error, is_per_file_skippable}
use mcp_semantic_search_zvec.Index.{World, IndexError, forget, purge_removed_file}
use mcp_semantic_search_zvec.Run.Rewrites.{Foreign, Foreign-Rewrite, purge-Rewrite, forget-Rewrite}
use mcp_semantic_search_zvec.Run.{
  ScannedFile, RunAnswers, RunError, Run, pending, after_replay, replay, reconcile_cleanup_journal,
  after_purge, after_failure, after_index, run_file, unless_stopped, run_files, after_removal,
  remove_entry, remove_gone, after_list, run,
}
use mcp_semantic_search_zvec.Run.Files.{
  IsOther, Stored, forget-Stored, purge-Stored, Avoids, indexed, indexed-Rewrite,
  indexed_other-Stored, indexed-Stored,
}

module _ {V Vec : Type 0} (E : Type 0) (store : VectorStore V Vec) (has : V → String → Bool)
    (lawful : IsLawful store has) (path id : String) where
  module _ (doc_id_for : Chunk → ℕ → String) (batch_size : ℤ)
      (view : IndexError E → ErrorView) where
    -- Of what follows a step: the other rows do not name the id, and as long as no file failed, the
    -- id is in the store if the entry of the file names it.
    abbrev Inv : Run V → Type 0
    Inv r =
        Foreign path id r.world.manifest
        × (r.files_failed ≡ 0 → Stored E store has lawful path id r.world)

    abbrev Fine : Run V × Option (RunError E) → Type 0
    Fine (r, none) = Inv r
    Fine (r, some e) = Unit

    unless_stopped-Fine :
        (p : Run V × Option (RunError E)) (next : Run V → Run V × Option (RunError E))
        → Fine p
        → ((r : Run V) → Inv r → Fine (next r))
        → Fine (unless_stopped store view doc_id_for batch_size p next)
    unfolding unless_stopped
    unless_stopped-Fine (r, none) next f k = k r f
    unless_stopped-Fine (r, some e) next f k = tt

    after_purge-Fine :
        (r : Run V) (rel : String) (p : World V × Option (IndexError E))
        → Foreign path id p.0.manifest
        → (r.files_failed ≡ 0 → p.1 ≡ none → Stored E store has lawful path id p.0)
        → Fine (after_purge store r rel p)
    unfolding after_purge
    after_purge-Fine r rel (w, none) g s = (g, λ z. s z refl)
    after_purge-Fine r rel (w, some e) g s = (g, λ z. absurd (omega (arith, z)))

    after_failure-Fine :
        (f : ScannedFile Vec E) (r : Run V) (e : IndexError E) (v : ErrorView)
        → Foreign path id r.world.manifest
        → (r.files_failed ≡ 0
            → IsOther E store has lawful path id f.rel
            → Stored E store has lawful path id r.world)
        → Fine (after_failure store view doc_id_for batch_size f r e v)
    unfolding after_failure
    after_failure-Fine f r e v g s = elim (Bool-cases (is_fatal_indexing_error v)) [
      | inl fatal ↦ rw fatal tt
      | inr mild ↦ rw mild (elim (Bool-cases (is_per_file_skippable v)) [
        | inr stops ↦ rw stops tt
        | inl skips ↦ rw skips (elim (Bool-cases v.is_not_exist) [
          | inr there ↦ rw there (g, λ z. absurd (omega (arith, z)))
          | inl vanished ↦ rw vanished (
              after_purge-Fine r f.rel
                (purge_removed_file store f.purge_get_fails f.purge_delete_fails r.world f.rel)
                (Foreign-Rewrite path id f.rel r.world.manifest _
                  (purge-Rewrite store
                    (λ ids. IsOther E store has lawful path id f.rel → contains ids id ≡ false)
                    f.purge_get_fails f.purge_delete_fails r.world f.rel)
                  g)
                (λ z.
                  purge-Stored E store has lawful path id f.purge_get_fails f.purge_delete_fails
                    r.world f.rel g (s z)))
        ])
      ])
    ]

    after_index-Fine :
        (f : ScannedFile Vec E) (r : Run V) (p : World V × Option (IndexError E))
        → Foreign path id p.0.manifest
        → (r.files_failed ≡ 0 → p.1 ≡ none → Stored E store has lawful path id p.0)
        → (r.files_failed ≡ 0
            → IsOther E store has lawful path id f.rel
            → Stored E store has lawful path id p.0)
        → Fine (after_index store view doc_id_for batch_size f r p)
    unfolding after_index
    after_index-Fine f r (w, none) g s o = (g, λ z. s z refl)
    after_index-Fine f r (w, some e) g s o =
        after_failure-Fine f (record r { world = w }) e (view e) g o

    run_file-Fine :
        (f : ScannedFile Vec E) (context_done stalled : Option E) (r : Run V)
        → Avoids E store has lawful path id doc_id_for batch_size view f
        → Inv r
        → Fine (run_file store view doc_id_for batch_size f context_done stalled r)
    unfolding run_file
    run_file-Fine f (some e) stalled r a v = tt
    run_file-Fine f none (some e) r a v = tt
    run_file-Fine f none none r a v =
        after_index-Fine f (record r { discovered = f.rel ∷ r.discovered })
          (indexed E store has lawful path id doc_id_for batch_size view f r.world)
          (Foreign-Rewrite path id f.rel r.world.manifest _
            (indexed-Rewrite E store has lawful path id doc_id_for batch_size view f r.world a) v.0)
          (λ z.
            indexed-Stored E store has lawful path id doc_id_for batch_size view f r.world a v.0
              (v.1 z))
          (λ z.
            indexed_other-Stored E store has lawful path id doc_id_for batch_size view f r.world a
              v.0 (v.1 z))

    run_files-Fine :
        (fs : List (ScannedFile Vec E)) (r : Run V)
        → All (Avoids E store has lawful path id doc_id_for batch_size view) fs
        → Inv r
        → Fine (run_files store view doc_id_for batch_size fs r)
    unfolding run_files
    run_files-Fine [] r a v = v
    run_files-Fine (f ∷ fs) r a v =
        unless_stopped-Fine (run_file store view doc_id_for batch_size f f.context_done f.stalled r)
          (run_files store view doc_id_for batch_size fs)
          (run_file-Fine f f.context_done f.stalled r a.0 v) λ r' v'. run_files-Fine fs r' a.1 v'

    after_removal-Fine :
        (r : Run V) (p : World V × Option (IndexError E))
        → Foreign path id p.0.manifest
        → (r.files_failed ≡ 0 → p.1 ≡ none → Stored E store has lawful path id p.0)
        → Fine (after_removal store view doc_id_for batch_size r p)
    unfolding after_removal
    after_removal-Fine r (w, none) g s = (g, λ z. s z refl)
    after_removal-Fine r (w, some e) g s = tt

    remove_entry-Fine :
        (a : RunAnswers E) (e : FileEntry) (r : Run V)
        → (IsOther E store has lawful path id e.relative_path → contains e.doc_ids id ≡ false)
        → Inv r
        → Fine (remove_entry store view doc_id_for batch_size a e r)
    unfolding remove_entry
    remove_entry-Fine a e r c v = elim (Bool-cases (contains r.discovered e.relative_path)) [
      | inl there ↦ rw there v
      | inr gone ↦
          let fails = a.delete_fails e.relative_path in
          let p = delete_entry_ids store r.world.vectors e.doc_ids in
          rw gone (
            after_removal-Fine r (forget store r.world e.relative_path fails p)
              (Foreign-Rewrite path id e.relative_path r.world.manifest _
                (forget-Rewrite store
                  (λ ids.
                    IsOther E store has lawful path id e.relative_path → contains ids id ≡ false)
                  r.world e.relative_path fails p)
                v.0)
              (λ z.
                forget-Stored E store has lawful path id r.world e.relative_path fails e.doc_ids c
                  (λ other. v.1 z)))
    ]

    remove_gone-Fine :
        (a : RunAnswers E) (es : List FileEntry) (r : Run V)
        → Foreign path id es
        → Inv r
        → Fine (remove_gone store view doc_id_for batch_size a es r)
    unfolding remove_gone
    remove_gone-Fine a [] r g v = v
    remove_gone-Fine a (e ∷ es) r g v =
        unless_stopped-Fine (remove_entry store view doc_id_for batch_size a e r)
          (remove_gone store view doc_id_for batch_size a es) (remove_entry-Fine a e r g.0 v)
          λ r' v'. remove_gone-Fine a es r' g.1 v'

    after_list-Fine :
        (a : RunAnswers E) (fails : Option E) (r : Run V)
        → Inv r
        → Fine (after_list store view doc_id_for batch_size a fails r)
    unfolding after_list
    after_list-Fine a (some e) r v = tt
    after_list-Fine a none r v = remove_gone-Fine a r.world.manifest r v.0 v

    after_replay-Inv :
        (clear_fails : Bool) (w : World V) (p : V × Option WriteError)
        → has p.0 id ≡ has w.vectors id
        → Foreign path id w.manifest
        → Stored E store has lawful path id w
        → Inv (record { world = after_replay clear_fails w p; discovered = []; files_failed = 0 })
    unfolding after_replay
    after_replay-Inv clear_fails w (v, none) e g s = (g, λ z h. e ∙ s h)
    after_replay-Inv clear_fails w (v, some x) e g s = (g, λ z h. e ∙ s h)

    replay-Inv :
        (a : RunAnswers E) (w : World V) (ids : Ids)
        → contains ids id ≡ false
        → Foreign path id w.manifest
        → Stored E store has lawful path id w
        → Inv
            (record { world = replay store a.clear_fails w ids; discovered = []; files_failed = 0 })
    unfolding replay
    replay-Inv a w [] c g s = (g, λ z. s)
    replay-Inv a w (x ∷ ids) c g s =
        let p = store.delete_by_ids w.vectors (x ∷ ids) in
        after_replay-Inv a.clear_fails w (p.0, minded p.1)
          (lawful.delete_frame w.vectors (x ∷ ids) id c) g s

    reconcile-Inv :
        (a : RunAnswers E) (w : World V)
        → contains (pending w.journal) id ≡ false
        → Foreign path id w.manifest
        → Stored E store has lawful path id w
        → Inv (record {
          world = reconcile_cleanup_journal store a w;
          discovered = [];
          files_failed = 0;
        })
    unfolding reconcile_cleanup_journal
    reconcile-Inv a w c g s = elim (Bool-cases a.pending_fails) [
      | inl fails ↦ rw fails (g, λ z. s)
      | inr reads ↦ rw reads (replay-Inv a w (pending w.journal) c g s)
    ]

    -- A run that is not forced and ends without an error and without a failed file leaves every id
    -- that the entry of a file names in the vector store, if that was so before, provided that the
    -- id was not pending in the cleanup journal, that the rows of other files do not name it, and
    -- that no chunk of another file gets it: whatever the answers of the system, and whether the
    -- file was scanned, vanished or is gone.
    pub run-IsKept :
        (a : RunAnswers E) (files : List (ScannedFile Vec E)) (w : World V)
        → All (Avoids E store has lawful path id doc_id_for batch_size view) files
        → contains (pending w.journal) id ≡ false
        → Foreign path id w.manifest
        → (contains (doc_ids_of_entry (get w.manifest path)) id ≡ true → has w.vectors id ≡ true)
        → let r = run store view doc_id_for batch_size a files w in
          r.1 ≡ none
          → r.0.files_failed ≡ 0
          → contains (doc_ids_of_entry (get r.0.world.manifest path)) id ≡ true
          → has r.0.world.vectors id ≡ true
    unfolding run
    run-IsKept a files w avoids c g s ok =
        let fine =
          unless_stopped-Fine
            (run_files store view doc_id_for batch_size files (record {
              world = reconcile_cleanup_journal store a w;
              discovered = [];
              files_failed = 0;
            }))
            (after_list store view doc_id_for batch_size a a.list_fails)
            (run_files-Fine files _ avoids (reconcile-Inv a w c g s))
            (λ r v. after_list-Fine a a.list_fails r v) in
        (finished (run store view doc_id_for batch_size a files w) ok fine).1
      where
        finished : (p : Run V × Option (RunError E)) → p.1 ≡ none → Fine p → Inv p.0
        finished (r, none) e f = f
        finished (r, some x) e f = absurd (ground (arith, e))
