-- ===== src/Tests/Run.antt =====
-- A run over a file that changed, with a file that is gone and an id pending in the journal.
use mcp_semantic_search_zvec.Prelude.{
  ℕ, pos, ◌≡◌, refl, true, false, [], ◌∷◌, none, some, str_eq, arith,
}
use mcp_semantic_search_zvec.Ids.{Ids, contains, without, assert_unique}
use mcp_semantic_search_zvec.Batches.{with_id}
use mcp_semantic_search_zvec.Manifest.{FileEntry, get, doc_ids_of_entry}
use mcp_semantic_search_zvec.Errors.{
  ErrorView, is_per_file_skippable, is_fatal_indexing_error, is_lock_error, is_context_interrupt,
  is_per_file_skippable_lem, is_skippable_per_file_error, is_corrupt_segment_error,
  is_skippable_per_file_error_lem,
}
use mcp_semantic_search_zvec.Index.{World, IndexError, index_file}
use mcp_semantic_search_zvec.Run.{
  ScannedFile, RunAnswers, run, pending, lines_ids, reconcile_cleanup_journal,
}
use mcp_semantic_search_zvec.Run.Kept.{run-IsKept}
use mcp_semantic_search_zvec.Run.Replay.{Replayed, reconcile_cleanup_journal_lem}
use mcp_semantic_search_zvec.Run.Journal.{run-journal}
use mcp_semantic_search_zvec.Tests.Index.{
  set_store, set_store-IsLawful, set_store-Removes, name, entry, answers,
}

abbrev view : IndexError ℕ → ErrorView
view e = record {
  is_canceled = false;
  is_deadline_exceeded = false;
  is_stalled_recovery = false;
  is_fatal_embed = false;
  is_owner_mismatch = false;
  is_not_exist = true;
  is_permission = false;
  message_contains = λ s. false;
}

abbrev scanned : ScannedFile ℕ ℕ
scanned = record {
  rel = "a.go";
  context_done = none;
  stalled = none;
  answers = answers;
  purge_get_fails = none;
  purge_delete_fails = none;
}

abbrev gone_entry : FileEntry
gone_entry = record {
  relative_path = "gone.go";
  mtime_ns = 1;
  size = 4;
  chunk_count = 1;
  doc_ids = "gone" ∷ [];
  content_hash = "h1";
}

abbrev before : World Ids
before = record {
  vectors = "first" ∷ "old" ∷ "left" ∷ "gone" ∷ [];
  manifest = entry ∷ gone_entry ∷ [];
  journal = some (("left" ∷ []) ∷ []);
}

abbrev run_answers : RunAnswers ℕ
run_answers = record {
  pending_fails = false;
  clear_fails = false;
  list_fails = none;
  delete_fails = λ rel. none;
}

final_vectors :
    (run set_store view name (pos 2) run_answers (scanned ∷ []) before).0.world.vectors
    ≡ "first" ∷ "first" ∷ "second" ∷ []
unfolding run index_file get without assert_unique with_id contains
final_vectors = refl

run-IsKept_example :
    contains
      (run set_store view name (pos 2) run_answers (scanned ∷ []) before).0.world.vectors
      "second"
    ≡ true
unfolding run index_file get without assert_unique with_id contains doc_ids_of_entry pending
    lines_ids
run-IsKept_example =
    run-IsKept ℕ set_store contains set_store-IsLawful "a.go" "second" name (pos 2) view run_answers
      (scanned ∷ []) before (λ other. absurd (ground (arith, other)), tt) refl
      (λ other. absurd (ground (arith, other)), (λ other. refl, tt)) (λ h. cc) refl refl refl

reconcile_cleanup_journal_lem_example :
    Replayed contains "left"
      ("left" ∷ [])
      false
      before
      (reconcile_cleanup_journal set_store run_answers before)
      (set_store.delete_by_ids before.vectors ("left" ∷ [])).1
unfolding pending lines_ids
reconcile_cleanup_journal_lem_example =
    reconcile_cleanup_journal_lem set_store contains set_store-IsLawful set_store-Removes
      run_answers before "left" [] "left" refl refl

run-journal_example :
    (run set_store view name (pos 2) run_answers (scanned ∷ []) before).0.world.journal ≡ none
unfolding pending lines_ids
run-journal_example =
    run-journal set_store view name (pos 2) run_answers (scanned ∷ []) before "left" [] refl refl
      refl refl

abbrev missing : ErrorView
missing = record {
  is_canceled = false;
  is_deadline_exceeded = false;
  is_stalled_recovery = false;
  is_fatal_embed = false;
  is_owner_mismatch = false;
  is_not_exist = true;
  is_permission = false;
  message_contains = λ s. str_eq s "corrupt";
}

is_per_file_skippable_lem_example :
    (is_fatal_indexing_error missing ≡ false)
    × (is_lock_error missing ≡ false)
    × (is_context_interrupt missing ≡ false)
    × (missing.is_owner_mismatch ≡ false)
unfolding is_per_file_skippable is_fatal_indexing_error is_lock_error
is_per_file_skippable_lem_example = is_per_file_skippable_lem missing refl

is_skippable_per_file_error_lem_example :
    is_skippable_per_file_error missing ≡ is_corrupt_segment_error missing
is_skippable_per_file_error_lem_example = is_skippable_per_file_error_lem missing
