-- ===== src/Progress.antt =====
-- The progress of an index run: internal/indexer/progress.go. The clock and fmt.Sprintf are
-- arguments.
pub mod Reachable
use mcp_semantic_search_zvec.Prelude.{
  ℕ, suc, Bool, true, false, ◌&&◌, ◌||◌, List, [], ◌∷◌, ◌++◌, String, str_eq, ltb, leb,
  if◌then◌else◌, length, Option, none, some,
}
use mcp_semantic_search_zvec.Ids.{contains}

abbrev pub interrupted_message : String
interrupted_message = "indexing interrupted; incremental reindex will continue"

abbrev pub max_failed_files_in_status : ℕ
max_failed_files_in_status = 20

pub data State : Type 0 where
  state_idle state_running state_error : State

unfoldable pub is_idle : State → Bool
is_idle state_idle = true
is_idle state_running = false
is_idle state_error = false

unfoldable pub is_error : State → Bool
is_error state_idle = false
is_error state_running = false
is_error state_error = true

pub record Progress : Type 0 where
  pub state : State
  pub running : Bool
  pub force : Bool
  pub files_total : ℕ
  pub files_done : ℕ
  pub files_failed : ℕ
  pub failed_files : List String
  pub chunks_indexed : ℕ
  pub scan_method : String
  pub scan_warnings : List String
  pub skipped_paths : List String
  pub current_file : String
  pub message : String
  pub error : String
  pub started_at : String
  pub updated_at : String
  pub finished_at : String

-- What Load returns where there is no file.
abbrev pub idle_default : Progress
idle_default = record {
  state = state_idle;
  running = false;
  force = false;
  files_total = 0;
  files_done = 0;
  files_failed = 0;
  failed_files = [];
  chunks_indexed = 0;
  scan_method = "";
  scan_warnings = [];
  skipped_paths = [];
  current_file = "";
  message = "";
  error = "";
  started_at = "";
  updated_at = "";
  finished_at = "";
}

unfoldable pub start_running : String → Bool → Progress
start_running now force = record idle_default {
  state = state_running;
  running = true;
  force = force;
  message = "indexing started";
  started_at = now;
  updated_at = now;
}

unfoldable pub append_failed_file : Progress → String → Progress
append_failed_file p rel =
    if contains p.failed_files rel
    then p
    else if leb max_failed_files_in_status (length p.failed_files)
    then p
    else record p { failed_files = p.failed_files ++ rel ∷ [] }

unfoldable pub finish_idle : String → Progress → ℕ → ℕ → Progress
finish_idle now p files chunks = record p {
  state = state_idle;
  running = false;
  files_total = files;
  files_done = files;
  files_failed = 0;
  failed_files = [];
  chunks_indexed = chunks;
  current_file = "";
  message = "indexing complete";
  error = "";
  updated_at = now;
  finished_at = now;
}

-- `warnings_message n` is the text that counts the failures.
unfoldable pub finish_idle_with_warnings : (ℕ → String) → String → Progress → ℕ → Progress
finish_idle_with_warnings warnings_message now p files_failed = record p {
  state = state_idle;
  running = false;
  files_failed = files_failed;
  current_file = "";
  error = "";
  message = if ltb 0 files_failed then warnings_message files_failed else "indexing complete";
  updated_at = now;
  finished_at = now;
}

unfoldable pub finish_interrupted : String → Progress → Progress
finish_interrupted now p = record p {
  state = state_idle;
  running = false;
  current_file = "";
  error = "";
  message = interrupted_message;
  updated_at = now;
  finished_at = now;
}

abbrev pub err_context_canceled_progress : String
err_context_canceled_progress = "context canceled"

-- An error is whether it is context.Canceled, and its text.
unfoldable pub finish_error : (String → String) → String → Progress → Bool → String → Progress
finish_error failed_message now p canceled text = record p {
  state = state_error;
  running = false;
  error = if canceled then err_context_canceled_progress else text;
  message = failed_message text;
  updated_at = now;
  finished_at = now;
}

unfoldable pub is_interrupted_progress : Progress → Bool
unfolding is_idle is_error
is_interrupted_progress p =
    if p.running
    then false
    else (is_idle p.state && str_eq p.message interrupted_message)
      || (is_error p.state && str_eq p.error err_context_canceled_progress)

unfoldable pub is_index_incomplete : Progress → Bool
is_index_incomplete p = ltb 0 p.files_total && ltb p.files_done p.files_total
