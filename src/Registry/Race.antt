-- ===== src/Registry/Race.antt =====
-- The shutdown of the runtime and the handles that Close took out.
use mcp_semantic_search_zvec.Prelude.{
  ℕ, ◌+◌, ◌-◌, ◌<◌, ◌++◌, ◌∙◌, ◌≡◌, refl, true, false, List, [], ◌∷◌, length, length-append, arith,
}
use mcp_semantic_search_zvec.Registry.{
  Handle, end_discard, try_shutdown_runtime_after_drain, is_drained, collect_idle, busy_handles,
  idle_handles, has_busy_handles,
}
use mcp_semantic_search_zvec.Registry.System.{
  System, draining, after_shutdown, after_collect, Reach, steps,
}
use mcp_semantic_search_zvec.Registry.System.{ends_discard, tries_shutdown, collects}
use mcp_semantic_search_zvec.Registry.Drain.{Reach-Drains}
use mcp_semantic_search_zvec.WorkspaceSpecs.{WorkspaceSpec}

idle_all :
    (hs : List Handle)
    → has_busy_handles hs ≡ false
    → (idle_handles hs ≡ hs) × (busy_handles hs ≡ [])
unfolding has_busy_handles idle_handles busy_handles
idle_all [] h = (refl, refl)
idle_all (x ∷ hs) h =
    let rest = idle_all hs (ground (arith, h)) in
    (ground (arith, h, rest.0), ground (arith, h, rest.1))

-- In any state that the threads reach in which Close waits and the runtime is not shut down, let
-- some handles be open, none be in use, no workspace be opened, and one handle be discarded. Then
-- these steps may follow: its thread lowers the count of discards; Close takes the open handles out;
-- and that thread shuts the runtime down, before Close has closed any of them.
pub shutdown_while_closing :
    {most : ℕ} {workspaces : List WorkspaceSpec} (s : System) (h : Handle)
    → Reach most workspaces s
    → s.close_phase ≡ draining
    → s.registry.closing ≡ true
    → s.registry.runtime_shutdown_done ≡ false
    → s.registry.opening ≡ []
    → s.discarding ≡ h ∷ []
    → has_busy_handles s.registry.open_handles ≡ false
    → 0 < length s.registry.open_handles
    → let t = record s {
      registry = end_discard s.registry;
      discarding = [];
      trying = s.trying + 1;
    } in
      let u = after_collect t (collect_idle t.registry) in
      let w =
        after_shutdown
          (record u { trying = u.trying - 1 })
          (try_shutdown_runtime_after_drain u.registry) in
      Reach most workspaces w
      × (w.shutdowns ≡ s.shutdowns + 1)
      × (w.to_close ≡ s.registry.open_handles ++ s.to_close)
      × (0 < length w.to_close)
unfolding after_collect collect_idle try_shutdown_runtime_after_drain is_drained after_shutdown
    end_discard
shutdown_while_closing s h reach waits closing running none_opening one idle some_open =
    let i = idle_all s.registry.open_handles idle in
    let longer = length-append s.registry.open_handles s.to_close in
    let n : s.registry.discards ≡ 1 = (Reach-Drains s reach).counted ∙ (rw one (omega arith)) in
    let n' : s.registry.discards - 1 ≡ 0 = omega (arith, n) in
    let t = record s {
      registry = end_discard s.registry;
      discarding = [];
      trying = s.trying + 1;
    } in
    let u = after_collect t (collect_idle t.registry) in
    (
      steps _ _ (steps _ _ (steps _ _ reach (ends_discard s [] [] h one)) (collects t waits))
          (tries_shutdown u (omega arith)),
      simp (closing, n', none_opening, running, i.1, has_busy_handles) refl,
      simp (closing, n', none_opening, running, i.1, i.0, has_busy_handles) refl,
      simp (closing, n', none_opening, running, i.1, i.0, has_busy_handles)
          (omega (arith, some_open, longer)),
    )
