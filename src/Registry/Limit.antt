-- ===== src/Registry/Limit.antt =====
-- Every step keeps what is open or being opened within the largest limit.
use mcp_semantic_search_zvec.Prelude.{ℕ, ◌+◌, ◌-◌, refl, List, some, none, arith}
use mcp_semantic_search_zvec.WorkspaceSpecs.{WorkspaceSpec}
use mcp_semantic_search_zvec.Registry.{begin_discard, end_discard, begin_close, collect_idle}
use mcp_semantic_search_zvec.Registry.Reload.{remove_ids, release_reservations}
use mcp_semantic_search_zvec.Registry.Handles.{length-busy_handles}
use mcp_semantic_search_zvec.Registry.System.{
  System, new_system, new_handle, after_collect, close_done, Step, begins, begins_discard, opens,
  fails_to_open, releases, ends_discard, tries_shutdown, begins_close, collects, closes, ends_close,
  reloads, begins_reload_discard, releases_reservations, Reach, starts, steps,
}
use mcp_semantic_search_zvec.Registry.Done.{Drains}
use mcp_semantic_search_zvec.Registry.Drain.{Reach-Drains}
use mcp_semantic_search_zvec.Registry.Bounded.{
  Bounded, fewer-Bounded, shutdown-Bounded, release-Bounded, reload-Bounded, finish-Bounded,
  begin-Bounded,
}

new_system-Bounded :
    (most : ℕ) (workspaces : List WorkspaceSpec) → Bounded (new_system most workspaces)
unfolding new_system remove_ids
new_system-Bounded most workspaces = record { limit = omega arith; room = omega arith }

Step-Bounded : (s t : System) → Step s t → Drains s → Bounded s → Bounded t
Step-Bounded s t (begins s' id now) w v = begin-Bounded s' v w id now
Step-Bounded s t (begins_discard s' xs ys e split) w v =
    unfold begin_discard in fewer-Bounded s' v _ refl refl refl refl (omega arith)
Step-Bounded s t (opens s' id now o n f) w v =
    finish-Bounded s' v (s'.next_serial + 1) id (some (new_handle s' id now)) now o f
Step-Bounded s t (fails_to_open s' id now o n f) w v =
    finish-Bounded s' v s'.next_serial id none now o f
Step-Bounded s t (releases s' b now p) w v = release-Bounded s' v b now
Step-Bounded s t (ends_discard s' xs ys h split) w v =
    unfold end_discard in fewer-Bounded s' v _ refl refl refl refl (omega arith)
Step-Bounded s t (tries_shutdown s' p) w v =
    shutdown-Bounded (record s' { trying = s'.trying - 1 })
      (fewer-Bounded s' v (record s' { trying = s'.trying - 1 }) refl refl refl refl (omega arith))
Step-Bounded s t (begins_close s' n) w v =
    unfold begin_close in fewer-Bounded s' v _ refl refl refl refl (omega arith)
Step-Bounded s t (collects s' c) w v =
    unfold after_collect collect_idle in
    fewer-Bounded s' v _ refl refl refl refl (length-busy_handles s'.registry.open_handles)
Step-Bounded s t (closes s' xs ys h split) w v =
    fewer-Bounded s' v _ refl refl refl refl (omega arith)
Step-Bounded s t (ends_close s' p z) w v =
    shutdown-Bounded (record s' { close_phase = close_done })
      (fewer-Bounded s' v (record s' { close_phase = close_done }) refl refl refl refl
        (omega arith))
Step-Bounded s t (reloads s' most specs indexing none_reserved none_left) w v =
    reload-Bounded s' v most specs indexing none_reserved
Step-Bounded s t (begins_reload_discard s' hs h split) w v =
    unfold begin_discard in fewer-Bounded s' v _ refl refl refl refl (omega arith)
Step-Bounded s t (releases_reservations s' none_left) w v =
    unfold release_reservations in record { limit = v.limit; room = unfold remove_ids in v.room }

pub Reach-Bounded :
    {most : ℕ} {workspaces : List WorkspaceSpec} (s : System) → Reach most workspaces s → Bounded s
Reach-Bounded {most} {workspaces} s starts = new_system-Bounded most workspaces
Reach-Bounded s (steps t u r st) = Step-Bounded t u st (Reach-Drains t r) (Reach-Bounded t r)
