-- ===== src/Progress/Reachable.antt =====
-- The progress that a sequence of the operations can reach.
use mcp_semantic_search_zvec.Prelude.{
  ℕ, ◌≤◌, ◌+◌, ◌≡◌, refl, Bool, true, false, ◌||◌, [], ◌∷◌, ◌++◌, String, str_eq, ltb, leb, length,
  ap, ◌∙◌, length-append, arith, Bool-cases, inl, inr,
}
use mcp_semantic_search_zvec.Ids.{contains}
use mcp_semantic_search_zvec.Ids.Sets.{IsUnique, IsUnique-append}
use mcp_semantic_search_zvec.Progress.{
  Progress, State, state_idle, state_running, state_error, idle_default, start_running,
  append_failed_file, finish_idle, finish_idle_with_warnings, finish_interrupted, finish_error,
  is_interrupted_progress, interrupted_message, is_idle, is_error, max_failed_files_in_status,
  err_context_canceled_progress,
}

-- One operation on the progress.
pub data Step (warnings_message : ℕ → String) (failed_message : String → String)
    : Progress → Progress → Type 0 where
  starts :
      (p : Progress) (now : String) (force : Bool)
      → Step warnings_message failed_message p (start_running now force)
  fails_file :
      (p : Progress) (rel : String)
      → Step warnings_message failed_message p (append_failed_file p rel)
  finishes :
      (p : Progress) (now : String) (files chunks : ℕ)
      → Step warnings_message failed_message p (finish_idle now p files chunks)
  warns :
      (p : Progress) (now : String) (n : ℕ)
      → Step warnings_message failed_message p (finish_idle_with_warnings warnings_message now p n)
  interrupts :
      (p : Progress) (now : String)
      → Step warnings_message failed_message p (finish_interrupted now p)
  breaks :
      (p : Progress) (now : String) (canceled : Bool) (text : String)
      → Step warnings_message failed_message p (finish_error failed_message now p canceled text)

pub data Reachable (warnings_message : ℕ → String) (failed_message : String → String)
    : Progress → Type 0 where
  loaded : Reachable warnings_message failed_message idle_default
  stepped :
      (p q : Progress)
      → Reachable warnings_message failed_message p
      → Step warnings_message failed_message p q
      → Reachable warnings_message failed_message q

abbrev pub IsRunning : State → Bool → Type 0
IsRunning state_idle running = running ≡ false
IsRunning state_running running = running ≡ true
IsRunning state_error running = running ≡ false

-- The flag agrees with the state, and the failed files are few and distinct.
pub record IsSound (p : Progress) : Type 0 where
  pub agrees : IsRunning p.state p.running
  pub few : length p.failed_files ≤ max_failed_files_in_status
  pub distinct : IsUnique p.failed_files

append_failed_file-IsSound :
    (p : Progress) (rel : String) → IsSound p → IsSound (append_failed_file p rel)
unfolding append_failed_file
append_failed_file-IsSound p rel h = elim (Bool-cases (contains p.failed_files rel)) [
  | inl known ↦ rw known h
  | inr new ↦ elim (Bool-cases (leb max_failed_files_in_status (length p.failed_files))) [
    | inl full ↦ rw (new, full) h
    | inr room ↦
        rw (new, room)
          (record {
            agrees = h.agrees;
            few =
                room_for_one (length p.failed_files) (length (p.failed_files ++ rel ∷ []))
                  (length-append p.failed_files (rel ∷ [])) room;
            distinct = IsUnique-append p.failed_files rel h.distinct new;
          })
  ]
]
  where
    room_for_one :
        (n m : ℕ)
        → m ≡ n + 1
        → leb max_failed_files_in_status n ≡ false
        → m ≤ max_failed_files_in_status
    room_for_one n m e h = ground arith

Step-IsSound :
    (warnings_message : ℕ → String) (failed_message : String → String) (p q : Progress)
    → Step warnings_message failed_message p q
    → IsSound p
    → IsSound q
Step-IsSound wm fm p q (starts r now force) h =
    unfold start_running in record { agrees = refl; few = omega arith; distinct = tt }
Step-IsSound wm fm p q (fails_file r rel) h = append_failed_file-IsSound r rel h
Step-IsSound wm fm p q (finishes r now files chunks) h =
    unfold finish_idle in record { agrees = refl; few = omega arith; distinct = tt }
Step-IsSound wm fm p q (warns r now n) h =
    unfold finish_idle_with_warnings in record { agrees = refl; few = h.few; distinct = h.distinct }
Step-IsSound wm fm p q (interrupts r now) h =
    unfold finish_interrupted in record { agrees = refl; few = h.few; distinct = h.distinct }
Step-IsSound wm fm p q (breaks r now canceled text) h =
    unfold finish_error in record { agrees = refl; few = h.few; distinct = h.distinct }

-- In every progress that a sequence of the operations reaches from the idle default, the running
-- flag is set exactly in the running state, and the failed files are at most twenty and distinct.
pub Reachable-IsSound :
    (warnings_message : ℕ → String) (failed_message : String → String) (p : Progress)
    → Reachable warnings_message failed_message p
    → IsSound p
Reachable-IsSound wm fm p loaded = record { agrees = refl; few = omega arith; distinct = tt }
Reachable-IsSound wm fm p (stepped q q' r s) =
    Step-IsSound wm fm q q' s (Reachable-IsSound wm fm q r)

-- Whether a step leaves an interrupted run, given whether there was one before it.
unfoldable pub leaves_interrupted :
    {wm : ℕ → String} {fm : String → String} {p q : Progress} → Bool → Step wm fm p q → Bool
leaves_interrupted before (starts p now force) = false
leaves_interrupted before (fails_file p rel) = before
leaves_interrupted before (finishes p now files chunks) = false
leaves_interrupted before (warns p now n) = false
leaves_interrupted before (interrupts p now) = true
leaves_interrupted before (breaks p now canceled text) =
    canceled || str_eq text err_context_canceled_progress

-- Whether the last run of a sequence of operations was interrupted.
unfoldable pub was_interrupted :
    {wm : ℕ → String} {fm : String → String} (p : Progress) → Reachable wm fm p → Bool
unfolding leaves_interrupted
was_interrupted p loaded = false
was_interrupted p (stepped p' q r s) =
    let before = was_interrupted p' r in leaves_interrupted before s

append_failed_file-interrupted :
    (p : Progress) (rel : String)
    → is_interrupted_progress (append_failed_file p rel) ≡ is_interrupted_progress p
unfolding append_failed_file is_interrupted_progress
append_failed_file-interrupted p rel = elim (Bool-cases (contains p.failed_files rel)) [
  | inl known ↦ simp known refl
  | inr new ↦ elim (Bool-cases (leb max_failed_files_in_status (length p.failed_files))) [
    | inl full ↦ simp (new, full) refl
    | inr room ↦ simp (new, room) refl
  ]
]

warnings-not_interrupted :
    (wm : ℕ → String)
    → ((n : ℕ) → str_eq (wm n) interrupted_message ≡ false)
    → (p : Progress) (now : String) (n : ℕ)
    → is_interrupted_progress (finish_idle_with_warnings wm now p n) ≡ false
unfolding finish_idle_with_warnings is_interrupted_progress is_idle is_error
warnings-not_interrupted wm other p now n = elim (Bool-cases (ltb 0 n)) [
  | inl failed ↦ simp (failed, other n) refl
  | inr none_failed ↦ simp none_failed refl
]

Step-interrupted :
    (wm : ℕ → String) (fm : String → String)
    → ((n : ℕ) → str_eq (wm n) interrupted_message ≡ false)
    → (p q : Progress) (s : Step wm fm p q)
    → is_interrupted_progress q ≡ leaves_interrupted (is_interrupted_progress p) s
unfolding leaves_interrupted is_interrupted_progress
Step-interrupted wm fm other p q (starts r now force) = unfold start_running in refl
Step-interrupted wm fm other p q (fails_file r rel) = append_failed_file-interrupted r rel
Step-interrupted wm fm other p q (finishes r now files chunks) = unfold finish_idle in refl
Step-interrupted wm fm other p q (warns r now n) = warnings-not_interrupted wm other r now n
Step-interrupted wm fm other p q (interrupts r now) = unfold finish_interrupted in refl
Step-interrupted wm fm other p q (breaks r now true text) = unfold finish_error in refl
Step-interrupted wm fm other p q (breaks r now false text) = unfold finish_error in refl

-- If the text that counts the failures is never the message of an interrupted run, then in every
-- progress that a sequence of the operations reaches, IsInterruptedProgress tells whether the last
-- run was interrupted: it was if the last operation, additions to the failed files left out, was
-- FinishInterrupted, or FinishError with the cancellation or with its text; it was not if that was
-- StartRunning, FinishIdle or FinishIdleWithWarnings, or if there was none.
pub is_interrupted_progress_lem :
    (warnings_message : ℕ → String) (failed_message : String → String)
    → ((n : ℕ) → str_eq (warnings_message n) interrupted_message ≡ false)
    → (p : Progress) (r : Reachable warnings_message failed_message p)
    → is_interrupted_progress p ≡ was_interrupted p r
unfolding was_interrupted
is_interrupted_progress_lem wm fm other p loaded = unfold is_interrupted_progress in refl
is_interrupted_progress_lem wm fm other p (stepped p' q r s) =
    Step-interrupted wm fm other p' q s
    ∙ ap (λ (b : Bool). leaves_interrupted b s) (is_interrupted_progress_lem wm fm other p' r)
