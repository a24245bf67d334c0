-- ===== src/Tests/Progress.antt =====
-- A run that skips a file and is interrupted.
use mcp_semantic_search_zvec.Prelude.{ℕ, ◌≡◌, refl, true, false, String, str_eq}
use mcp_semantic_search_zvec.Progress.{
  Progress, idle_default, start_running, append_failed_file, finish_idle_with_warnings,
  finish_interrupted, is_interrupted_progress, interrupted_message,
}
use mcp_semantic_search_zvec.Progress.Reachable.{
  Reachable, loaded, stepped, starts, fails_file, warns, interrupts, was_interrupted,
  leaves_interrupted, IsSound, Reachable-IsSound, is_interrupted_progress_lem,
}

abbrev warnings : ℕ → String
warnings n = "with file errors"

other_text : (n : ℕ) → str_eq (warnings n) interrupted_message ≡ false
other_text n = refl

abbrev failure : String → String
failure text = "indexing failed"

abbrev skipped : Progress
skipped = append_failed_file (start_running "now" false) "a.go"

Reachable-IsSound_example : IsSound (finish_interrupted "later" skipped)
Reachable-IsSound_example =
    Reachable-IsSound warnings failure (finish_interrupted "later" skipped) (
      stepped skipped (finish_interrupted "later" skipped)
        (stepped (start_running "now" false) skipped
          (stepped idle_default (start_running "now" false) loaded
            (starts idle_default "now" false))
          (fails_file (start_running "now" false) "a.go"))
        (interrupts skipped "later"))

-- A run with a failed file that ends with warnings, after one that was interrupted.
abbrev ended : Progress
ended = finish_idle_with_warnings warnings "end" skipped 1

Reachable-skipped : Reachable warnings failure skipped
Reachable-skipped =
    stepped (start_running "now" false) skipped
      (stepped (finish_interrupted "before" idle_default) (start_running "now" false)
        (stepped idle_default (finish_interrupted "before" idle_default) loaded
          (interrupts idle_default "before"))
        (starts (finish_interrupted "before" idle_default) "now" false))
      (fails_file (start_running "now" false) "a.go")

abbrev ended_run : Reachable warnings failure ended
ended_run = stepped skipped ended Reachable-skipped (warns skipped "end" 1)

is_interrupted_progress_lem_example :
    is_interrupted_progress ended ≡ was_interrupted ended ended_run
is_interrupted_progress_lem_example =
    is_interrupted_progress_lem warnings failure other_text ended ended_run

interrupted_run :
    was_interrupted (finish_interrupted "later" skipped) (
      stepped skipped
        (finish_interrupted "later" skipped)
        Reachable-skipped
        (interrupts skipped "later"))
    ≡ true
unfolding was_interrupted leaves_interrupted
interrupted_run = refl
