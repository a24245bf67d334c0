-- ===== src/Registry/Safe.antt =====
-- The threads of the registry, in every interleaving.
use mcp_semantic_search_zvec.Prelude.{ℕ, ◌+◌, ◌-◌, ◌≤◌, ◌≡◌, length, List, refl, ◌∙◌}
use mcp_semantic_search_zvec.Window.Slices.{All}
use mcp_semantic_search_zvec.WorkspaceSpecs.{WorkspaceSpec}
use mcp_semantic_search_zvec.Registry.{Handle, begin_close}
use mcp_semantic_search_zvec.Registry.Slots.{Slots, begin_close-Slots}
use mcp_semantic_search_zvec.Registry.System.{System, Held, held, count_held, Eviction}
use mcp_semantic_search_zvec.Registry.Keys.{refs_of, refs_of-absent}
use mcp_semantic_search_zvec.Registry.InUse.{IsGone, InUse, All-map}
use mcp_semantic_search_zvec.Registry.System.{
  Step, begins, begins_discard, opens, fails_to_open, releases, ends_discard, tries_shutdown,
  begins_close, collects, closes, ends_close, reloads, begins_reload_discard, releases_reservations,
  draining, close_done, Reach, starts, steps,
}
use mcp_semantic_search_zvec.Registry.Used.{
  new_system-InUse, same-InUse, begin-InUse, release-InUse,
}
use mcp_semantic_search_zvec.Registry.Opening.{opens-InUse, fails-InUse}
use mcp_semantic_search_zvec.Registry.Closing.{
  begin_discard-InUse, end_discard-InUse, phase-InUse, close-InUse, collect-InUse, shutdown-InUse,
}
use mcp_semantic_search_zvec.Registry.Detached.{
  reload-InUse, begin_reload_discard-InUse, release_reservations-InUse,
}
use mcp_semantic_search_zvec.Registry.Reload.{remove_ids}
use mcp_semantic_search_zvec.Registry.Limit.{Reach-Bounded}

Step-InUse : (s t : System) → Step s t → InUse s → InUse t
Step-InUse s t (begins s' id now) v = begin-InUse s' v id now
Step-InUse s t (begins_discard s' xs ys e split) v = begin_discard-InUse s' v xs ys e split
Step-InUse s t (opens s' id now o n f) v = opens-InUse s' v id now o
Step-InUse s t (fails_to_open s' id now o n f) v = fails-InUse s' v id now o
Step-InUse s t (releases s' b now p) v = release-InUse s' v b now p
Step-InUse s t (ends_discard s' xs ys h split) v = end_discard-InUse s' v xs ys h split
Step-InUse s t (tries_shutdown s' p) v =
    shutdown-InUse (record s' { trying = s'.trying - 1 })
      (phase-InUse s' v (s'.trying - 1) s'.close_phase)
Step-InUse s t (begins_close s' n) v =
    unfold begin_close in
    same-InUse (record s' { close_phase = draining }) (phase-InUse s' v s'.trying draining) _ refl
      (unfold begin_close in begin_close-Slots s'.registry v.slots)
Step-InUse s t (collects s' c) v = collect-InUse s' v
Step-InUse s t (closes s' xs ys h split) v = close-InUse s' v xs ys h split
Step-InUse s t (ends_close s' p z) v =
    shutdown-InUse (record s' { close_phase = close_done }) (phase-InUse s' v s'.trying close_done)
Step-InUse s t (reloads s' most specs indexing none_reserved none_left) v =
    reload-InUse s' v most specs indexing none_left
Step-InUse s t (begins_reload_discard s' hs h split) v = begin_reload_discard-InUse s' v hs h split
Step-InUse s t (releases_reservations s' none_left) v = release_reservations-InUse s' v

Reach-InUse :
    {most : ℕ} {workspaces : List WorkspaceSpec} (s : System) → Reach most workspaces s → InUse s
Reach-InUse {most} {workspaces} s starts = new_system-InUse most workspaces
Reach-InUse s (steps t u r st) = Step-InUse t u st (Reach-InUse t r)

-- The handle has no outstanding borrow.
abbrev pub IsUnused : System → Handle → Type 0
IsUnused s g = count_held s.borrows (held g) ≡ 0

gone-IsUnused :
    (s : System)
    → InUse s
    → (g : Handle) → IsGone s.registry.open_handles s.next_serial g
    → IsUnused s g
gone-IsUnused s v g k = v.exact (held g) ∙ refs_of-absent s.registry.open_handles (held g) k.0

-- In every interleaving of the threads, no workspace is open twice or open while it is being opened;
-- those that are open or that a borrow opens are never more than the largest limit that the
-- configurations so far had, the ids that a reload reserves left out; the references of each open
-- handle are its outstanding borrows, and a handle that was evicted or taken out by a reload or by
-- Close, or is being discarded, has none, so that no service is closed while a caller has it.
pub Reach-IsSafe :
    {most : ℕ} {workspaces : List WorkspaceSpec} (s : System)
    → Reach most workspaces s
    → Slots s.registry
      × (length s.registry.open_handles + length (remove_ids s.registry.opening s.reservations)
          ≤ s.largest_limit)
      × ((k : Held) → count_held s.borrows k ≡ refs_of s.registry.open_handles k)
      × All (λ (e : Eviction). IsUnused s e.handle) s.evicted
      × All (IsUnused s) s.discarding
      × All (IsUnused s) s.to_reload
      × All (IsUnused s) s.to_close
Reach-IsSafe s r =
    let v = Reach-InUse s r in
    (
      v.slots,
      (Reach-Bounded s r).room,
      v.exact,
      All-map _ _ s.evicted (λ (e : Eviction). gone-IsUnused s v e.handle) v.evicted_gone,
      All-map _ _ s.discarding (gone-IsUnused s v) v.discarded_gone,
      All-map _ _ s.to_reload (gone-IsUnused s v) v.reloaded_gone,
      All-map _ _ s.to_close (gone-IsUnused s v) v.closed_gone,
    )
