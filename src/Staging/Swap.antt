-- ===== src/Staging/Swap.antt =====
-- What a promotion leaves at the three places.
use mcp_semantic_search_zvec.Prelude.{
  ℕ, zero, suc, ◌+◌, ◌<◌, ◌≡◌, ◌↔◌, refl, sym, ap, ◌∙◌, ◌⊎◌, inl, inr, true, Option, none, some,
  arith,
}
use mcp_semantic_search_zvec.Staging.{
  Places, PromoteError, staging_missing, promotion_failed, FileAnswers, promote_rename_attempts,
  retry_rename, rename_with_retry, remove_if, cleared_old, move_active, restore_old, remove_all_old,
  remove_old_file, move_staging, promote, promote_staging_collection, promote_staging_manifest,
}

stopped :
    {E : Type 0} (answer : ℕ → Option E) (left attempt : ℕ)
    → retry_rename answer left attempt none ≡ none
unfolding retry_rename
stopped answer zero attempt = refl
stopped answer (suc left) attempt = refl

retry_rename-none :
    {E : Type 0} (answer : ℕ → Option E) (left attempt n : ℕ) (last : Option E)
    → n < left
    → answer (attempt + n) ≡ none
    → retry_rename answer left attempt last ≡ none
unfolding retry_rename
retry_rename-none answer left attempt n none p h = refl
retry_rename-none answer zero attempt n (some e) p h = absurd (omega (arith, p))
retry_rename-none answer (suc left) attempt zero (some e) p h =
    let now : answer attempt ≡ none = ap answer (omega arith) ∙ h in
    rw now (stopped answer left (attempt + 1))
retry_rename-none answer (suc left) attempt (suc n) (some e) p h =
    retry_rename-none answer left (attempt + 1) n (answer attempt) (omega (arith, p))
      (ap answer (omega arith) ∙ h)

retry_rename-some :
    {E : Type 0} (answer : ℕ → Option E) (left attempt : ℕ) (last : Option E)
    → retry_rename answer left attempt last ≡ none
    → (last ≡ none) ⊎ ((n : ℕ) × (n < left) × (answer (attempt + n) ≡ none))
unfolding retry_rename
retry_rename-some answer left attempt none h = inl refl
retry_rename-some answer zero attempt (some e) h = absurd (ground (arith, h))
retry_rename-some answer (suc left) attempt (some e) h =
    elim (retry_rename-some answer left (attempt + 1) (answer attempt) h) [
      | inl now ↦ inr (0, omega arith, ap answer (omega arith) ∙ now)
      | inr later ↦ inr (suc later.0, omega (arith, later.1), ap answer (omega arith) ∙ later.2)
    ]

-- On Windows a rename that is retried succeeds exactly if one of its twenty attempts would.
pub rename_with_retry_lem :
    {E : Type 0} (answer : ℕ → Option E)
    → (rename_with_retry true answer ≡ none)
      ↔ ((n : ℕ) × (n < promote_rename_attempts) × (answer n ≡ none))
unfolding rename_with_retry
rename_with_retry_lem answer = (there, back)
  where
    there : rename_with_retry true answer ≡ none → (n : ℕ) × (n < 20) × (answer n ≡ none)
    there h = elim (retry_rename-some answer 19 1 (answer 0) h) [
      | inl now ↦ (0, omega arith, now)
      | inr later ↦ (suc later.0, omega (arith, later.1), ap answer (omega arith) ∙ later.2)
    ]

    back : (n : ℕ) × (n < 20) × (answer n ≡ none) → rename_with_retry true answer ≡ none
    back (zero, p, h) = rw h (stopped answer 19 1)
    back (suc n, p, h) =
        retry_rename-none answer 19 1 n (answer 0) (omega (arith, p)) (ap answer (omega arith) ∙ h)

-- Where the builds stand after a promotion: the staged build took the place of the active one, or
-- nothing was moved in the end, or the active build is left at the old place, or there was no active
-- build and one that was left at the old place is taken back.
pub data Swap {A E : Type 0} (p : Places A) : Places A × Option (PromoteError E) → Type 0 where
  promoted :
      (q : Places A) (e : Option (PromoteError E))
      → q.active ≡ p.staging
      → q.staging ≡ none
      → (e ≡ none → q.old ≡ none)
      → Swap p (q, e)
  unmoved :
      (q : Places A) (e : PromoteError E)
      → q.active ≡ p.active
      → q.staging ≡ p.staging
      → Swap p (q, some e)
  revived :
      (q : Places A) (e : PromoteError E)
      → p.active ≡ none
      → q.staging ≡ p.staging
      → Swap p (q, some e)
  parked :
      (q : Places A) (e : PromoteError E)
      → q.active ≡ none
      → q.old ≡ p.active
      → q.staging ≡ p.staging
      → Swap p (q, some e)

module _ {A E : Type 0} (p : Places A) where
  -- After the first rename.
  abbrev Moved : Places A × Option (PromoteError E) → Type 0
  Moved (q, none) =
      (q.staging ≡ p.staging)
      × ((q.active ≡ none) × (q.old ≡ p.active) ⊎ (q.active ≡ none) × (p.active ≡ none))
  Moved (q, some e) = (q.active ≡ p.active) × (q.staging ≡ p.staging)

  move_active-Moved :
      (err : Option E) (q : Places A) (o : Option A)
      → q.staging ≡ p.staging
      → q.active ≡ p.active
      → q.active ≡ o
      → Moved (move_active err q o)
  unfolding move_active
  move_active-Moved err q none s a e = (s, inr (e, sym a ∙ e))
  move_active-Moved (some x) q (some b) s a e = (a, s)
  move_active-Moved none q (some b) s a e = (s, inl (refl, sym e ∙ a))

  restore_old-Swap :
      (err : Option E) (q : Places A) (o : Option A) (e : PromoteError E)
      → Moved (q, none)
      → q.old ≡ o
      → Swap p (restore_old err q o, some e)
  unfolding restore_old
  restore_old-Swap err q none e (s, inl (a, m)) k = unmoved q e (a ∙ sym k ∙ m) s
  restore_old-Swap err q none e (s, inr (a, m)) k = unmoved q e (a ∙ sym m) s
  restore_old-Swap (some x) q (some b) e (s, inl (a, m)) k = parked q e a m s
  restore_old-Swap (some x) q (some b) e (s, inr (a, m)) k = unmoved q e (a ∙ sym m) s
  restore_old-Swap none q (some b) e (s, inl (a, m)) k =
      unmoved (record q { active = some b; old = none }) e (sym k ∙ m) s
  restore_old-Swap none q (some b) e (s, inr (a, m)) k =
      revived (record q { active = some b; old = none }) e m s

  -- What the last step must leave as it is.
  abbrev Ends : (Places A → Places A × Option (PromoteError E)) → Type 0
  Ends last =
      (q : Places A)
      → ((last q).0.active ≡ q.active)
        × ((last q).0.staging ≡ q.staging)
        × ((last q).1 ≡ none → (last q).0.old ≡ none)

  remove_all_old-Ends :
      (err : Option E) (q : Places A) (o : Option A)
      → q.old ≡ o
      → let r = remove_all_old err q o in
        (r.0.active ≡ q.active) × (r.0.staging ≡ q.staging) × (r.1 ≡ none → r.0.old ≡ none)
  unfolding remove_all_old
  remove_all_old-Ends err q none k = (refl, refl, λ h. k)
  remove_all_old-Ends (some e) q (some b) k = (refl, refl, λ h. absurd (ground (arith, h)))
  remove_all_old-Ends none q (some b) k = (refl, refl, λ h. refl)

  remove_old_file-Ends :
      (missing : E) (err : Option E) (q : Places A) (o : Option A)
      → let r = remove_old_file missing err q o in
        (r.0.active ≡ q.active) × (r.0.staging ≡ q.staging) × (r.1 ≡ none → r.0.old ≡ none)
  unfolding remove_old_file
  remove_old_file-Ends missing err q none = (refl, refl, λ h. absurd (ground (arith, h)))
  remove_old_file-Ends missing (some e) q (some b) = (refl, refl, λ h. absurd (ground (arith, h)))
  remove_old_file-Ends missing none q (some b) = (refl, refl, λ h. refl)

  move_staging-Swap :
      (a : FileAnswers E) (last : Places A → Places A × Option (PromoteError E)) (err : Option E)
      (r : Places A × Option (PromoteError E))
      → Ends last
      → Moved r
      → Swap p (move_staging a last err r)
  unfolding move_staging
  move_staging-Swap a last err (q, some e) ends m = unmoved q e m.0 m.1
  move_staging-Swap a last none (q, none) ends m =
      let n : Places A = record q { active = q.staging; staging = none } in
      let k = ends n in promoted (last n).0 (last n).1 (k.0 ∙ m.0) k.1 k.2
  move_staging-Swap a last (some e) (q, none) ends m =
      restore_old-Swap a.restore q q.old (promotion_failed e) m refl

  promote-Swap :
      (a : FileAnswers E) (last : Places A → Places A × Option (PromoteError E)) (o : Option A)
      → Ends last
      → Swap p (promote a last p o)
  unfolding promote cleared_old
  promote-Swap a last none ends = unmoved p (staging_missing a.missing) refl refl
  promote-Swap a last (some b) ends =
      let q : Places A = record p { old = remove_if a.clear_old p.old } in
      move_staging-Swap a last (rename_with_retry a.windows a.rename_staging)
        (move_active (rename_with_retry a.windows a.rename_active) q q.active) ends
        (move_active-Moved (rename_with_retry a.windows a.rename_active) q q.active refl refl refl)

-- However the renames and removals end, a promotion of the collection or of the manifest loses no
-- build: where it succeeds the staged build is the active one and nothing is left over, and where
-- it fails, the staged build has become the active one, or both stand where they stood, or the
-- active one is at the old place, or there was none.
pub promote-IsSwap :
    {A E : Type 0} (a : FileAnswers E) (p : Places A)
    → Swap p (promote_staging_collection a p) × Swap p (promote_staging_manifest a p)
unfolding promote_staging_collection promote_staging_manifest
promote-IsSwap a p = (
  promote-Swap p a (λ q. remove_all_old a.remove_old q q.old) p.staging
      (λ q. remove_all_old-Ends p a.remove_old q q.old refl),
  promote-Swap p a (λ q. remove_old_file a.missing a.remove_old q q.old) p.staging
      (λ q. remove_old_file-Ends p a.missing a.remove_old q q.old),
)
