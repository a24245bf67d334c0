-- ===== src/Registry/Detached.antt =====
-- A reload keeps the handles in use apart from those that are closed.
use mcp_semantic_search_zvec.Prelude.{
  ℕ, ◌≡◌, refl, ap, subst, Bool, List, [], ◌∷◌, Option, none, some, String, sym, ◌∙◌,
}
use mcp_semantic_search_zvec.Window.Slices.{All}
use mcp_semantic_search_zvec.Batches.Collected.{All-append}
use mcp_semantic_search_zvec.Ids.{Ids}
use mcp_semantic_search_zvec.WorkspaceSpecs.{WorkspaceSpec}
use mcp_semantic_search_zvec.Registry.{Handle, find_handle, remove_handle, begin_discard}
use mcp_semantic_search_zvec.Registry.Reload.{
  add_found, detach, detach_one, swap, reload_projects, release_reservations,
}
use mcp_semantic_search_zvec.Registry.Reloading.{IsIdle, reload_projects_cases}
use mcp_semantic_search_zvec.Registry.Handles.{ids}
use mcp_semantic_search_zvec.Registry.Slots.{Slots, begin_discard-Slots}
use mcp_semantic_search_zvec.Registry.System.{System, Eviction, after_reload}
use mcp_semantic_search_zvec.Registry.InUse.{
  IsGone, IsOld, InUse, All-map, All-remove_handle, find_handle_id,
}
use mcp_semantic_search_zvec.Registry.Used.{same-InUse, IsGone-remove, removed-IsGone}
use mcp_semantic_search_zvec.Registry.Freed.{
  IsFree, find_handle-remove_handle, refs_of-detached, detach_one-Slots, remove_ids-Slots,
}

module _ (s : System) (v : InUse s) where
  detach_one-InUse :
      (id : String)
      → IsFree s.registry.open_handles id
      → InUse (record s {
        registry = detach_one s.registry id;
        to_reload = add_found s.to_reload (find_handle s.registry.open_handles id);
      })
  detach_one-InUse id free =
      let hs = s.registry.open_handles in
      let w : Slots (detach_one s.registry id) = detach_one-Slots s.registry id v.slots in
      unfold detach_one in
      record {
        slots = unfold detach_one in w;
        exact = λ k. v.exact k ∙ sym (refs_of-detached hs id k v.slots.one_handle free);
        young = All-remove_handle (IsOld s.next_serial) hs id v.young;
        evicted_gone =
            All-map _ _ s.evicted (λ (x : Eviction). IsGone-remove s v id x.handle) v.evicted_gone;
        discarded_gone = All-map _ _ s.discarding (IsGone-remove s v id) v.discarded_gone;
        closed_gone = All-map _ _ s.to_close (IsGone-remove s v id) v.closed_gone;
        reloaded_gone = by_found (find_handle hs id) refl;
      }
    where
      gone : All (IsGone (remove_handle s.registry.open_handles id) s.next_serial) s.to_reload
      gone = All-map _ _ s.to_reload (IsGone-remove s v id) v.reloaded_gone

      by_found :
          (o : Option Handle)
          → find_handle s.registry.open_handles id ≡ o
          → All
              (IsGone (remove_handle s.registry.open_handles id) s.next_serial)
              (add_found s.to_reload o)
      by_found none e = unfold add_found in gone
      by_found (some h) e =
          let hs = s.registry.open_handles in
          let i : h.id ≡ id = find_handle_id hs id h e in
          let g : IsGone (remove_handle hs id) s.next_serial h =
            subst (λ x. IsGone (remove_handle hs x) s.next_serial h) i
              (removed-IsGone s v h (ap (find_handle hs) i ∙ e)) in
          unfold add_found in
          All-append (IsGone (remove_handle hs id) s.next_serial) s.to_reload (h ∷ []) gone (g, tt)

-- Removing handles leaves the others free.
All-IsFree-removed :
    (hs : List Handle) (a : String) (ids : Ids)
    → All (IsFree hs) ids
    → All (IsFree (remove_handle hs a)) ids
All-IsFree-removed hs a ids =
    All-map (IsFree hs) (IsFree (remove_handle hs a)) ids
      (λ id f h e. f h (find_handle-remove_handle hs a id h e))

detach-InUse :
    (ids : Ids) (s : System)
    → InUse s
    → All (IsFree s.registry.open_handles) ids
    → InUse (record s {
      registry = (detach ids s.registry s.to_reload).0;
      to_reload = (detach ids s.registry s.to_reload).1;
    })
unfolding detach
detach-InUse [] s v free = v
detach-InUse (id ∷ ids) s v free =
    detach-InUse ids
      (record s {
        registry = detach_one s.registry id;
        to_reload = add_found s.to_reload (find_handle s.registry.open_handles id);
      })
      (detach_one-InUse s v id free.0)
      (unfold detach_one in All-IsFree-removed s.registry.open_handles id ids free.1)

module _ (s : System) (v : InUse s) where
  applied-InUse :
      (most : ℕ) (specs : List WorkspaceSpec) (changed : Ids)
      → s.to_reload ≡ []
      → All (IsIdle s.registry) changed
      → InUse (after_reload s (swap most specs changed (detach changed s.registry [])))
  unfolding after_reload swap
  applied-InUse most specs changed none_left idle =
      let w : InUse (record s {
        registry = (detach changed s.registry []).0;
        to_reload = (detach changed s.registry []).1;
      }) =
        rw none_left at (
          detach-InUse changed s v (
            All-map (IsIdle s.registry) (IsFree s.registry.open_handles) changed (λ id i. i.1)
              idle)) in
      record {
        slots = record {
          one_handle = w.slots.one_handle;
          one_opener = w.slots.one_opener;
          apart = w.slots.apart;
        };
        exact = w.exact;
        young = w.young;
        evicted_gone = w.evicted_gone;
        discarded_gone = w.discarded_gone;
        closed_gone = w.closed_gone;
        reloaded_gone = w.reloaded_gone;
      }

  pub reload-InUse :
      (most : ℕ) (specs : List WorkspaceSpec) (indexing : Handle → Bool)
      → s.to_reload ≡ []
      → InUse (after_reload s (reload_projects s.registry most specs indexing))
  reload-InUse most specs indexing none_left =
      reload_projects_cases (λ p. InUse (after_reload s p)) s.registry most specs indexing
        (unfold after_reload in v) (λ ids. unfold after_reload in v)
        (λ live changed idle. applied-InUse most specs changed none_left idle)

  pub begin_reload_discard-InUse :
      (hs : List Handle) (h : Handle)
      → s.to_reload ≡ h ∷ hs
      → InUse (record s {
        registry = begin_discard s.registry;
        to_reload = hs;
        discarding = h ∷ s.discarding;
      })
  begin_reload_discard-InUse hs h split =
      let all : All (IsGone s.registry.open_handles s.next_serial) (h ∷ hs) =
        rw split at v.reloaded_gone in
      unfold begin_discard in
      record {
        slots = unfold begin_discard in begin_discard-Slots s.registry v.slots;
        exact = v.exact;
        young = v.young;
        evicted_gone = v.evicted_gone;
        discarded_gone = (all.0, v.discarded_gone);
        closed_gone = v.closed_gone;
        reloaded_gone = all.1;
      }

  pub release_reservations-InUse :
      InUse
        (record s { registry = release_reservations s.registry s.reservations; reservations = [] })
  release_reservations-InUse =
      unfold release_reservations in
      same-InUse (record s { reservations = [] }) none_reserved _ refl
        (remove_ids-Slots s.reservations s.registry v.slots)
    where
      none_reserved : InUse (record s { reservations = [] })
      none_reserved = record {
        slots = v.slots;
        exact = v.exact;
        young = v.young;
        evicted_gone = v.evicted_gone;
        discarded_gone = v.discarded_gone;
        closed_gone = v.closed_gone;
        reloaded_gone = v.reloaded_gone;
      }
