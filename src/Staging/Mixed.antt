-- ===== src/Staging/Mixed.antt =====
-- The collection and the manifest of a build, promoted one after the other.
use mcp_semantic_search_zvec.Prelude.{◌≡◌, refl, Option, none, some, arith}
use mcp_semantic_search_zvec.Staging.{
  Places, PromoteError, removal_failed, rename_with_retry, remove_if, cleared_old, move_active,
  remove_all_old, move_staging, promote, promote_staging_collection, promote_staging_manifest,
  Build, BuildAnswers, after_collection, promote_staging,
}
use mcp_semantic_search_zvec.Staging.Swap.{Swap, promoted, unmoved, revived, parked, promote-IsSwap}

-- The staged build is the active one, and nothing else is left.
abbrev pub IsPromoted : {A : Type 0} → Places A → Places A → Type 0
IsPromoted p q = (q.active ≡ p.staging) × (q.staging ≡ none) × (q.old ≡ none)

Swap-IsPromoted :
    {A E : Type 0} (p : Places A) (r : Places A × Option (PromoteError E))
    → Swap p r
    → r.1 ≡ none
    → IsPromoted p r.0
Swap-IsPromoted p r (promoted q e a s o) h = (a, s, o h)
Swap-IsPromoted p r (unmoved q e a s) h = absurd (ground (arith, h))
Swap-IsPromoted p r (revived q e a s) h = absurd (ground (arith, h))
Swap-IsPromoted p r (parked q e a o s) h = absurd (ground (arith, h))

-- Where the promotion at the end of a forced run succeeds, the staged collection and the staged
-- manifest are the active ones, and neither a staged nor an old one is left.
pub promote_staging-IsPromoted :
    {A M E : Type 0} (a : BuildAnswers E) (b : Build A M)
    → (promote_staging a b).1 ≡ none
    → IsPromoted b.collection (promote_staging a b).0.collection
      × IsPromoted b.manifest (promote_staging a b).0.manifest
unfolding promote_staging
promote_staging-IsPromoted {A} {M} {E} a b h =
    by_collection (promote_staging_collection a.collection b.collection)
      (promote-IsSwap a.collection b.collection).0 h
  where
    by_collection :
        (c : Places A × Option (PromoteError E))
        → Swap b.collection c
        → (after_collection a b.manifest c).1 ≡ none
        → IsPromoted b.collection (after_collection a b.manifest c).0.collection
          × IsPromoted b.manifest (after_collection a b.manifest c).0.manifest
    by_collection (c, some e) s k = absurd (unfold after_collection in ground (arith, k))
    by_collection (c, none) s k = (
      Swap-IsPromoted b.collection (c, none) s refl,
      Swap-IsPromoted b.manifest (promote_staging_manifest a.manifest b.manifest)
          (promote-IsSwap a.manifest b.manifest).1 k,
    )

-- Where both renames of the collection succeed and only the old collection cannot be removed, the
-- promotion fails with the new collection active and the manifest as it was, and the staged
-- manifest, if it can be, is discarded: the active manifest is then not that of the active
-- collection.
pub promote_staging-mixes :
    {A M E : Type 0} (a : BuildAnswers E) (new active : A) (old : Option A) (m : Places M) (e : E)
    → rename_with_retry a.collection.windows a.collection.rename_active ≡ none
    → rename_with_retry a.collection.windows a.collection.rename_staging ≡ none
    → a.collection.remove_old ≡ some e
    → let r = promote_staging a (record {
      collection = record { staging = some new; active = some active; old = old };
      manifest = m;
    }) in
      (r.1 ≡ some (removal_failed e))
      × (r.0.collection.active ≡ some new)
      × (r.0.manifest.active ≡ m.active)
      × (r.0.manifest.staging ≡ remove_if a.discard_manifest m.staging)
unfolding promote_staging after_collection promote_staging_collection promote cleared_old
    move_active move_staging remove_all_old
promote_staging-mixes a new active old m e h1 h2 h3 = simp (h1, h2, h3) (refl, refl, refl, refl)
