-- ===== src/Run.antt =====
-- A run of the coordinator that is not forced: `run` of internal/indexer/coordinator.go from the
-- cleanup journal to the files that are gone, on the world of Index. The files that the scan
-- finds come with what the system answers while each is handled; maintenance of the store is not
-- modelled.
pub mod Rewrites
pub mod Files
pub mod Kept
pub mod Replay
pub mod Journal
use mcp_semantic_search_zvec.Prelude.{
  ℕ, ◌+◌, ℤ, Bool, true, false, List, [], ◌∷◌, ◌++◌, Option, none, some, String, str_eq,
  if◌then◌else◌,
}
use mcp_semantic_search_zvec.Window.{Chunk}
use mcp_semantic_search_zvec.Ids.{Ids, contains}
use mcp_semantic_search_zvec.Manifest.{Manifest, FileEntry}
use mcp_semantic_search_zvec.Vectors.{VectorStore, WriteError, minded, delete_entry_ids}
use mcp_semantic_search_zvec.Errors.{ErrorView, is_fatal_indexing_error, is_per_file_skippable}
use mcp_semantic_search_zvec.Index.{
  World, Answers, IndexError, index_file, purge_removed_file, forget,
}
use mcp_semantic_search_zvec.Registry.{remove_id}

-- A path of the scan: whether the context is done or the run has stalled before it, and the answers
-- while it is indexed or, if it vanished, purged.
pub record ScannedFile (Vec E : Type 0) : Type 0 where
  pub rel : String
  pub context_done : Option E
  pub stalled : Option E
  pub answers : Answers Vec E
  pub purge_get_fails : Option E
  pub purge_delete_fails : Option E

pub record RunAnswers (E : Type 0) : Type 0 where
  pub pending_fails : Bool
  pub clear_fails : Bool
  pub list_fails : Option E
  pub delete_fails : String → Option E

-- The errors that end a run; those of a file carry its path.
pub data RunError (E : Type 0) : Type 0 where
  stopped : E → RunError E
  file_failed : String → IndexError E → RunError E
  removal_failed : IndexError E → RunError E

pub record Run (V : Type 0) : Type 0 where
  pub world : World V
  pub discovered : Ids
  pub files_failed : ℕ

-- All ids of the lines of the journal.
unfoldable pub lines_ids : List Ids → Ids
lines_ids [] = []
lines_ids (line ∷ lines) = line ++ lines_ids lines

unfoldable pub pending : Option (List Ids) → Ids
unfolding lines_ids
pending none = []
pending (some lines) = lines_ids lines

-- Clear removes the file, so that the journal of this run is gone.
unfoldable pub cleared : Bool → Option (List Ids) → Option (List Ids)
cleared true journal = journal
cleared false journal = none

abbrev pub file_error : {V : Type 0} → Run V → Run V
file_error r = record r { files_failed = r.files_failed + 1 }

unfoldable pub after_replay : {V : Type 0} → Bool → World V → V × Option WriteError → World V
unfolding cleared
after_replay clear_fails w (v, none) = record w {
  vectors = v;
  journal = cleared clear_fails w.journal;
}
after_replay clear_fails w (v, some e) = record w { vectors = v }

module _ {V Vec : Type 0} (store : VectorStore V Vec) where
  unfoldable pub replay : Bool → World V → Ids → World V
  unfolding after_replay minded
  replay clear_fails w [] = w
  replay clear_fails w (id ∷ ids) =
      let (v, err) = store.delete_by_ids w.vectors (id ∷ ids) in
      after_replay clear_fails w (v, minded err)

module _ {V Vec E : Type 0} (store : VectorStore V Vec) where
  unfoldable pub reconcile_cleanup_journal : RunAnswers E → World V → World V
  unfolding replay pending
  reconcile_cleanup_journal a w =
      if a.pending_fails then w else replay store a.clear_fails w (pending w.journal)

  -- A file that vanished is purged; one that cannot be is counted.
  unfoldable pub after_purge :
      Run V → String → World V × Option (IndexError E) → Run V × Option (RunError E)
  unfolding remove_id
  after_purge r rel (w, none) =
      (record r { world = w; discovered = remove_id r.discovered rel }, none)
  after_purge r rel (w, some e) = (file_error (record r { world = w }), none)

  module _ (view : IndexError E → ErrorView) (doc_id_for : Chunk → ℕ → String)
      (batch_size : ℤ) where
    unfoldable pub after_failure :
        ScannedFile Vec E → Run V → IndexError E → ErrorView → Run V × Option (RunError E)
    unfolding after_purge purge_removed_file
    after_failure f r e v =
        let purged =
          after_purge r f.rel
            (purge_removed_file store f.purge_get_fails f.purge_delete_fails r.world f.rel) in
        if is_fatal_indexing_error v
        then (r, some (file_failed f.rel e))
        else if is_per_file_skippable v
        then if v.is_not_exist then purged else (file_error r, none)
        else (r, some (file_failed f.rel e))

    unfoldable pub after_index :
        ScannedFile Vec E → Run V → World V × Option (IndexError E) → Run V × Option (RunError E)
    unfolding after_failure
    after_index f r (w, none) = (record r { world = w }, none)
    after_index f r (w, some e) = after_failure f (record r { world = w }) e (view e)

    -- The context and the stall are looked at before the file is.
    unfoldable pub run_file :
        ScannedFile Vec E → Option E → Option E → Run V → Run V × Option (RunError E)
    unfolding after_index index_file
    run_file f (some e) stalled r = (r, some (stopped e))
    run_file f none (some e) r = (r, some (stopped e))
    run_file f none none r =
        after_index f (record r { discovered = f.rel ∷ r.discovered })
          (index_file store doc_id_for batch_size f.answers r.world f.rel false)

    unfoldable pub unless_stopped :
        Run V × Option (RunError E)
        → (Run V → Run V × Option (RunError E))
        → Run V × Option (RunError E)
    unless_stopped (r, none) next = next r
    unless_stopped (r, some e) next = (r, some e)

    unfoldable pub run_files : List (ScannedFile Vec E) → Run V → Run V × Option (RunError E)
    unfolding run_file unless_stopped
    run_files [] r = (r, none)
    run_files (f ∷ fs) r = unless_stopped (run_file f f.context_done f.stalled r) (run_files fs)

    unfoldable pub after_removal :
        Run V → World V × Option (IndexError E) → Run V × Option (RunError E)
    after_removal r (w, none) = (record r { world = w }, none)
    after_removal r (w, some e) = (record r { world = w }, some (removal_failed e))

    unfoldable pub remove_entry : RunAnswers E → FileEntry → Run V → Run V × Option (RunError E)
    unfolding after_removal forget delete_entry_ids
    remove_entry a e r =
        let removed = after_removal r (
          forget store r.world e.relative_path (a.delete_fails e.relative_path)
            (delete_entry_ids store r.world.vectors e.doc_ids)) in
        if contains r.discovered e.relative_path then (r, none) else removed

    -- The rows are those that the manifest had before the first was removed.
    unfoldable pub remove_gone : RunAnswers E → List FileEntry → Run V → Run V × Option (RunError E)
    unfolding remove_entry unless_stopped
    remove_gone a [] r = (r, none)
    remove_gone a (e ∷ es) r = unless_stopped (remove_entry a e r) (remove_gone a es)

    unfoldable pub after_list : RunAnswers E → Option E → Run V → Run V × Option (RunError E)
    unfolding remove_gone
    after_list a (some e) r = (r, some (stopped e))
    after_list a none r = remove_gone a r.world.manifest r

    -- The flow from the journal to the last removal.
    unfoldable pub run :
        RunAnswers E → List (ScannedFile Vec E) → World V → Run V × Option (RunError E)
    unfolding reconcile_cleanup_journal run_files after_list unless_stopped
    run a files w =
        unless_stopped
          (run_files files
            (record { world = reconcile_cleanup_journal a w; discovered = []; files_failed = 0 }))
          (after_list a a.list_fails)
