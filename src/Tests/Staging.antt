-- ===== src/Tests/Staging.antt =====
-- A forced run over an index, on Windows, where a rename succeeds at the third attempt.
use mcp_semantic_search_zvec.Prelude.{ℕ, zero, suc, ◌<◌, ◌≡◌, ◌↔◌, refl, true, Option, none, some}
use mcp_semantic_search_zvec.Staging.{
  Places, removal_failed, no_old_file, FileAnswers, promote_rename_attempts, retry_rename,
  rename_with_retry, remove_if, cleared_old, move_active, move_staging, remove_all_old,
  remove_old_file, promote, promote_staging_collection, promote_staging_manifest, Build,
  BuildAnswers, after_collection, promote_staging,
}
use mcp_semantic_search_zvec.Staging.Swap.{Swap, rename_with_retry_lem, promote-IsSwap}
use mcp_semantic_search_zvec.Staging.Mixed.{
  IsPromoted, promote_staging-IsPromoted, promote_staging-mixes,
}

abbrev third_time : ℕ → Option ℕ
third_time zero = some 32
third_time (suc zero) = some 32
third_time (suc (suc n)) = none

abbrev answers : FileAnswers ℕ
answers = record {
  windows = true;
  missing = 2;
  clear_old = none;
  rename_active = third_time;
  rename_staging = third_time;
  restore = none;
  remove_old = none;
}

abbrev places : Places ℕ
places = record { staging = some 2; active = some 1; old = none }

abbrev build_answers : BuildAnswers ℕ
build_answers = record {
  collection = answers;
  manifest = answers;
  discard_collection = none;
  discard_manifest = none;
}

abbrev build : Build ℕ ℕ
build = record { collection = places; manifest = places }

abbrev first_places : Places ℕ
first_places = record { staging = some 2; active = none; old = none }

-- Without an active manifest, its promotion reports that there is no old one to remove.
first_build :
    promote_staging_manifest answers first_places
    ≡ (record { staging = none; active = some 2; old = none }, some (no_old_file 2))
unfolding promote_staging_manifest promote cleared_old move_active move_staging remove_old_file
    rename_with_retry retry_rename remove_if
first_build = refl

rename_with_retry_lem_example :
    (rename_with_retry true third_time ≡ none)
    ↔ ((n : ℕ) × (n < promote_rename_attempts) × (third_time n ≡ none))
rename_with_retry_lem_example = rename_with_retry_lem third_time

promote-IsSwap_example :
    Swap places (promote_staging_collection answers places)
    × Swap places (promote_staging_manifest answers places)
promote-IsSwap_example = promote-IsSwap answers places

promote_staging-IsPromoted_example :
    IsPromoted places (promote_staging build_answers build).0.collection
    × IsPromoted places (promote_staging build_answers build).0.manifest
unfolding promote_staging after_collection promote_staging_collection promote_staging_manifest
    promote cleared_old move_active move_staging remove_all_old remove_old_file rename_with_retry
    retry_rename remove_if
promote_staging-IsPromoted_example = promote_staging-IsPromoted build_answers build refl

abbrev busy : BuildAnswers ℕ
busy = record build_answers { collection = record answers { remove_old = some 32 } }

promote_staging-mixes_example :
    let r = promote_staging busy build in
    (r.1 ≡ some (removal_failed 32))
    × (r.0.collection.active ≡ some 2)
    × (r.0.manifest.active ≡ places.active)
    × (r.0.manifest.staging ≡ remove_if busy.discard_manifest places.staging)
unfolding rename_with_retry retry_rename
promote_staging-mixes_example = promote_staging-mixes busy 2 1 none places 32 refl refl refl
