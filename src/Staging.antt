-- ===== src/Staging.antt =====
-- The swap of a staged build: internal/store/zvec/staging.go. A build stands at one of three places,
-- the staging, the active and the old one; `A` is what a build is. What the file system answers
-- is an argument; a rename that fails changes nothing, and Stat fails only where nothing is.
pub mod Swap
pub mod Mixed
use mcp_semantic_search_zvec.Prelude.{
  ℕ, zero, suc, ◌+◌, ◌-◌, Bool, true, false, List, [], ◌∷◌, Option, none, some, if◌then◌else◌,
}

pub record Places (A : Type 0) : Type 0 where
  pub staging : Option A
  pub active : Option A
  pub old : Option A

pub data PromoteError (E : Type 0) : Type 0 where
  staging_missing rename_failed promotion_failed removal_failed no_old_file : E → PromoteError E

-- What each call answers; a rename has an answer for each attempt. `missing` is the error for a
-- file that is not there.
pub record FileAnswers (E : Type 0) : Type 0 where
  pub windows : Bool
  pub missing : E
  pub clear_old : Option E
  pub rename_active : ℕ → Option E
  pub rename_staging : ℕ → Option E
  pub restore : Option E
  pub remove_old : Option E

abbrev pub promote_rename_attempts : ℕ
promote_rename_attempts = 20

-- The attempts that are left, the number of the next one and the error of the last.
unfoldable pub retry_rename : {E : Type 0} → (ℕ → Option E) → ℕ → ℕ → Option E → Option E
retry_rename answer left attempt none = none
retry_rename answer zero attempt (some e) = some e
retry_rename answer (suc left) attempt (some e) =
    retry_rename answer left (attempt + 1) (answer attempt)

unfoldable pub rename_with_retry : {E : Type 0} → Bool → (ℕ → Option E) → Option E
unfolding retry_rename
rename_with_retry windows answer =
    if windows then retry_rename answer (promote_rename_attempts - 1) 1 (answer 0) else answer 0

-- A removal that fails leaves what is there.
unfoldable pub remove_if : {A E : Type 0} → Option E → Option A → Option A
remove_if none o = none
remove_if (some e) o = o

module _ {A E : Type 0} where
  unfoldable pub cleared_old : FileAnswers E → Places A → Places A
  unfolding remove_if
  cleared_old a p = record p { old = remove_if a.clear_old p.old }

  -- The active build is moved to the old place, if there is one.
  unfoldable pub move_active : Option E → Places A → Option A → Places A × Option (PromoteError E)
  move_active err p none = (p, none)
  move_active (some e) p (some b) = (p, some (rename_failed e))
  move_active none p (some b) = (record p { active = none; old = some b }, none)

  -- Moved back where the promotion failed.
  unfoldable pub restore_old : Option E → Places A → Option A → Places A
  restore_old err p none = p
  restore_old (some e) p (some b) = p
  restore_old none p (some b) = record p { active = some b; old = none }

  -- RemoveAll does not mind a directory that is not there.
  unfoldable pub remove_all_old :
      Option E → Places A → Option A → Places A × Option (PromoteError E)
  remove_all_old err p none = (p, none)
  remove_all_old (some e) p (some b) = (p, some (removal_failed e))
  remove_all_old none p (some b) = (record p { old = none }, none)

  -- Remove does.
  unfoldable pub remove_old_file :
      E → Option E → Places A → Option A → Places A × Option (PromoteError E)
  remove_old_file missing err p none = (p, some (no_old_file missing))
  remove_old_file missing (some e) p (some b) = (p, some (removal_failed e))
  remove_old_file missing none p (some b) = (record p { old = none }, none)

  unfoldable pub move_staging :
      FileAnswers E
      → (Places A → Places A × Option (PromoteError E))
      → Option E
      → Places A × Option (PromoteError E)
      → Places A × Option (PromoteError E)
  unfolding restore_old
  move_staging a last err (p, some e) = (p, some e)
  move_staging a last none (p, none) = last (record p { active = p.staging; staging = none })
  move_staging a last (some e) (p, none) =
      (restore_old a.restore p p.old, some (promotion_failed e))

  unfoldable pub promote :
      FileAnswers E
      → (Places A → Places A × Option (PromoteError E))
      → Places A
      → Option A
      → Places A × Option (PromoteError E)
  unfolding move_staging move_active cleared_old rename_with_retry
  promote a last p none = (p, some (staging_missing a.missing))
  promote a last p (some build) =
      let q = cleared_old a p in
      move_staging a last (rename_with_retry a.windows a.rename_staging)
        (move_active (rename_with_retry a.windows a.rename_active) q q.active)

  unfoldable pub promote_staging_collection :
      FileAnswers E → Places A → Places A × Option (PromoteError E)
  unfolding promote remove_all_old
  promote_staging_collection a p = promote a (λ q. remove_all_old a.remove_old q q.old) p p.staging

  unfoldable pub promote_staging_manifest :
      FileAnswers E → Places A → Places A × Option (PromoteError E)
  unfolding promote remove_old_file
  promote_staging_manifest a p =
      promote a (λ q. remove_old_file a.missing a.remove_old q q.old) p p.staging

-- The collection and the manifest of an index.
pub record Build (A M : Type 0) : Type 0 where
  pub collection : Places A
  pub manifest : Places M

pub record BuildAnswers (E : Type 0) : Type 0 where
  pub collection : FileAnswers E
  pub manifest : FileAnswers E
  pub discard_collection : Option E
  pub discard_manifest : Option E

abbrev pub discard_staging : {A E : Type 0} → Option E → Places A → Places A
discard_staging err p = record p { staging = remove_if err p.staging }

unfoldable pub after_collection :
    {A M E : Type 0}
    → BuildAnswers E
    → Places M
    → Places A × Option (PromoteError E)
    → Build A M × Option (PromoteError E)
unfolding promote_staging_manifest remove_if
after_collection a m (c, some e) = (
  record {
    collection = discard_staging a.discard_collection c;
    manifest = discard_staging a.discard_manifest m;
  },
  some e,
)
after_collection a m (c, none) =
    let (m', err) = promote_staging_manifest a.manifest m in
    (record { collection = c; manifest = m' }, err)

-- The end of a forced run, once the stores are closed.
unfoldable pub promote_staging :
    {A M E : Type 0} → BuildAnswers E → Build A M → Build A M × Option (PromoteError E)
unfolding after_collection promote_staging_collection
promote_staging a b =
    after_collection a b.manifest (promote_staging_collection a.collection b.collection)
