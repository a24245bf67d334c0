-- ===== src/Errors.antt =====
-- How the errors of a run are told apart: internal/indexer/errors.go and internal/zvecerr/zvecerr.go.
use mcp_semantic_search_zvec.Prelude.{
  ◌≡◌, Bool, true, false, not, ◌||◌, String, if◌then◌else◌, arith,
}

-- What errors.Is says of an error, and which texts its message in lower case contains.
pub record ErrorView : Type 0 where
  pub is_canceled : Bool
  pub is_deadline_exceeded : Bool
  pub is_stalled_recovery : Bool
  pub is_fatal_embed : Bool
  pub is_owner_mismatch : Bool
  pub is_not_exist : Bool
  pub is_permission : Bool
  pub message_contains : String → Bool

unfoldable pub is_lock_error : ErrorView → Bool
is_lock_error e =
    e.message_contains "lock file"
    || e.message_contains "can't open lock"
    || e.message_contains "can't lock read-only"
    || e.message_contains "read-only collection"

unfoldable pub is_corrupt_segment_error : ErrorView → Bool
is_corrupt_segment_error e = e.message_contains "file is too small" || e.message_contains "corrupt"

unfoldable pub is_skippable_per_file_error : ErrorView → Bool
unfolding is_corrupt_segment_error is_lock_error
is_skippable_per_file_error e =
    if is_corrupt_segment_error e
    then true
    else if is_lock_error e
    then false
    else if not (e.message_contains "zvec error [internal_error]")
    then false
    else e.message_contains "file is too small" || e.message_contains "corrupt"

unfoldable pub is_context_interrupt : ErrorView → Bool
is_context_interrupt e = e.is_canceled

unfoldable pub is_fatal_indexing_error : ErrorView → Bool
is_fatal_indexing_error e =
    if e.is_canceled || e.is_deadline_exceeded
    then true
    else if e.is_stalled_recovery
    then true
    else if e.is_fatal_embed
    then true
    else if e.is_owner_mismatch
    then true
    else false

unfoldable pub is_per_file_skippable : ErrorView → Bool
unfolding is_fatal_indexing_error is_lock_error is_skippable_per_file_error
is_per_file_skippable e =
    if is_fatal_indexing_error e
    then false
    else if is_lock_error e
    then false
    else if e.is_not_exist || e.is_permission
    then true
    else if e.is_owner_mismatch
    then false
    else if is_skippable_per_file_error e
    then true
    else e.message_contains "file too large for indexing"
      || e.message_contains "line too long for indexing"
      || e.message_contains "escapes workspace root"

-- The tests of IsSkippablePerFileError after its first one never accept: it accepts the errors of a
-- corrupt segment and no others, a lock error among them if its message speaks of both.
pub is_skippable_per_file_error_lem :
    (e : ErrorView) → is_skippable_per_file_error e ≡ is_corrupt_segment_error e
unfolding is_skippable_per_file_error is_corrupt_segment_error
is_skippable_per_file_error_lem e = ground arith

-- No error ends the run and skips the file at once; a lock error and a foreign index never skip.
pub is_per_file_skippable_lem :
    (e : ErrorView)
    → is_per_file_skippable e ≡ true
    → (is_fatal_indexing_error e ≡ false)
      × (is_lock_error e ≡ false)
      × (is_context_interrupt e ≡ false)
      × (e.is_owner_mismatch ≡ false)
unfolding is_per_file_skippable is_fatal_indexing_error is_context_interrupt
is_per_file_skippable_lem e h =
    (ground (arith, h), ground (arith, h), ground (arith, h), ground (arith, h))
