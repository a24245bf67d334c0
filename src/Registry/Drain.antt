-- ===== src/Registry/Drain.antt =====
-- When the runtime is shut down, and what is left then.
use mcp_semantic_search_zvec.Prelude.{
  ℕ, ◌+◌, ◌-◌, ◌≡◌, refl, inl, inr, true, false, not, ◌&&◌, List, [], ◌∷◌, ◌++◌, none, some, length,
  length-append, arith, Bool-cases, ap, ◌∙◌,
}
use mcp_semantic_search_zvec.Window.Slices.{All}
use mcp_semantic_search_zvec.Ids.{contains}
use mcp_semantic_search_zvec.Registry.{
  Handle, begin_discard, end_discard, try_shutdown_runtime_after_drain, is_drained, begin_close,
  collect_idle,
}
use mcp_semantic_search_zvec.Registry.Handles.{length-busy_handles}
use mcp_semantic_search_zvec.Registry.System.{
  System, Eviction, after_shutdown, after_collect, new_handle, Step, begins, begins_discard, opens,
  fails_to_open, releases, ends_discard, tries_shutdown, begins_close, collects, closes, Reach,
  ends_close, reloads, begins_reload_discard, releases_reservations, ClosePhase, draining,
  close_done, starts, steps,
}
use mcp_semantic_search_zvec.WorkspaceSpecs.{WorkspaceSpec}
use mcp_semantic_search_zvec.Registry.Reserved.{
  reload-Drains, begin_reload_discard-Drains, release_reservations-Drains,
}
use mcp_semantic_search_zvec.Registry.Done.{Drains, new_system-Drains, All-remove}
use mcp_semantic_search_zvec.Registry.Threads.{
  begin-Drains, opening_not_done, finish-Drains, release-Drains,
}

module _ (s : System) (v : Drains s) where
  begin_discard-Drains :
      (xs ys : List Eviction) (e : Eviction)
      → s.evicted ≡ xs ++ e ∷ ys
      → Drains (record s {
        registry = begin_discard s.registry;
        evicted = xs ++ ys;
        discarding = e.handle ∷ s.discarding;
      })
  unfolding begin_discard
  begin_discard-Drains xs ys e split =
      let all : All (λ (e : Eviction). contains s.registry.opening e.opener ≡ true) (xs ++ e ∷ ys) =
        rw split at v.openers in
      record {
        counted = omega (arith, v.counted);
        openers =
            All-remove (λ (e : Eviction). contains s.registry.opening e.opener ≡ true) xs ys e all;
        done = λ d. absurd (opening_not_done s v e.opener (All-middle xs ys e all) d);
        shut = v.shut;
        reserved = v.reserved;
        not_reserved =
            All-remove (λ (e : Eviction). contains s.reservations e.opener ≡ false) xs ys e
              (rw split at v.not_reserved);
        reloading = v.reloading;
      }
    where
      All-middle :
          (xs ys : List Eviction) (e : Eviction)
          → All (λ (e : Eviction). contains s.registry.opening e.opener ≡ true) (xs ++ e ∷ ys)
          → contains s.registry.opening e.opener ≡ true
      All-middle [] ys e h = h.0
      All-middle (x ∷ xs) ys e h = All-middle xs ys e h.1

  end_discard-Drains :
      (xs ys : List Handle) (h : Handle)
      → s.discarding ≡ xs ++ h ∷ ys
      → Drains (record s {
        registry = end_discard s.registry;
        discarding = xs ++ ys;
        trying = s.trying + 1;
      })
  unfolding end_discard
  end_discard-Drains xs ys h split =
      let n : length s.discarding ≡ length xs + length (h ∷ ys) =
        ap length split ∙ length-append xs (h ∷ ys) in
      record {
        counted = omega (arith, v.counted, n, length-append xs ys);
        openers = v.openers;
        done = λ d. let z = (v.done d).none_discarding in absurd (omega (arith, z, n));
        shut = v.shut;
        reserved = v.reserved;
        not_reserved = v.not_reserved;
        reloading = v.reloading;
      }

  shutdown-Drains : Drains (after_shutdown s (try_shutdown_runtime_after_drain s.registry))
  unfolding try_shutdown_runtime_after_drain
  shutdown-Drains =
      elim (Bool-cases
        (s.registry.closing && not s.registry.runtime_shutdown_done && is_drained s.registry)) [
          | inl now ↦ simp now (
              unfold after_shutdown in
              record {
                counted = v.counted;
                openers = v.openers;
                done = λ d.
                    unfold is_drained in
                    record {
                      closing = ground (arith, now);
                      none_open = ground (arith, now);
                      none_opening = ground (arith, now);
                      none_discarding = ground (arith, now, v.counted);
                    };
                shut = ground (arith, now, v.shut);
                reserved = v.reserved;
                not_reserved = v.not_reserved;
                reloading = v.reloading;
              })
          | inr later ↦ simp later (unfold after_shutdown in v)
        ]

  collect-Drains : Drains (after_collect s (collect_idle s.registry))
  unfolding collect_idle after_collect
  collect-Drains = record {
    counted = v.counted;
    openers = v.openers;
    done = λ d.
        let w = v.done d in
        record {
          closing = w.closing;
          none_open = omega (arith, w.none_open, length-busy_handles s.registry.open_handles);
          none_opening = w.none_opening;
          none_discarding = w.none_discarding;
        };
    shut = v.shut;
    reserved = v.reserved;
    not_reserved = v.not_reserved;
    reloading = v.reloading;
  }

  begin_close-Drains :
      Drains (record s { registry = begin_close s.registry; close_phase = draining })
  unfolding begin_close
  begin_close-Drains = record {
    counted = v.counted;
    openers = v.openers;
    done = λ d.
        let w = v.done d in
        record {
          closing = refl;
          none_open = w.none_open;
          none_opening = w.none_opening;
          none_discarding = w.none_discarding;
        };
    shut = v.shut;
    reserved = v.reserved;
    not_reserved = v.not_reserved;
    reloading = v.reloading;
  }

  -- The same registry, with other threads that close or shut down.
  other-Drains :
      (trying : ℕ) (hs : List Handle) (phase : ClosePhase)
      → Drains (record s { trying = trying; to_close = hs; close_phase = phase })
  other-Drains trying hs phase = record {
    counted = v.counted;
    openers = v.openers;
    done = λ d.
        let w = v.done d in
        record {
          closing = w.closing;
          none_open = w.none_open;
          none_opening = w.none_opening;
          none_discarding = w.none_discarding;
        };
    shut = v.shut;
    reserved = v.reserved;
    not_reserved = v.not_reserved;
    reloading = v.reloading;
  }

Step-Drains : (s t : System) → Step s t → Drains s → Drains t
Step-Drains s t (begins s' id now) v = begin-Drains s' v id now
Step-Drains s t (begins_discard s' xs ys e split) v = begin_discard-Drains s' v xs ys e split
Step-Drains s t (opens s' id now o n f) v =
    finish-Drains s' v id (s'.next_serial + 1) (some (new_handle s' id now)) now o n f
Step-Drains s t (fails_to_open s' id now o n f) v =
    finish-Drains s' v id s'.next_serial none now o n f
Step-Drains s t (releases s' b now p) v = release-Drains s' v b now
Step-Drains s t (ends_discard s' xs ys h split) v = end_discard-Drains s' v xs ys h split
Step-Drains s t (tries_shutdown s' p) v =
    shutdown-Drains (record s' { trying = s'.trying - 1 })
      (other-Drains s' v (s'.trying - 1) s'.to_close s'.close_phase)
Step-Drains s t (begins_close s' n) v = begin_close-Drains s' v
Step-Drains s t (collects s' c) v = collect-Drains s' v
Step-Drains s t (closes s' xs ys h split) v = other-Drains s' v s'.trying (xs ++ ys) s'.close_phase
Step-Drains s t (ends_close s' p z) v =
    shutdown-Drains (record s' { close_phase = close_done })
      (other-Drains s' v s'.trying s'.to_close close_done)
Step-Drains s t (reloads s' most specs indexing none_reserved none_left) v =
    reload-Drains s' v most specs indexing
Step-Drains s t (begins_reload_discard s' hs h split) v =
    begin_reload_discard-Drains s' v hs h split
Step-Drains s t (releases_reservations s' none_left) v = release_reservations-Drains s' v none_left

-- In every interleaving of the threads, the counter of discards is the number of handles that are
-- being discarded; a thread that evicted a handle is still opening its workspace until it begins to
-- discard it; an id that a reload reserves is not that of such a workspace and counts as being
-- opened, and the handles that the reload took out and has not begun to discard have such ids; and
-- the runtime is shut down at most once: from then on the registry is closing, and no handle is open,
-- being opened or being discarded.
pub Reach-Drains :
    {most : ℕ} {workspaces : List WorkspaceSpec} (s : System) → Reach most workspaces s → Drains s
Reach-Drains {most} {workspaces} s starts = new_system-Drains most workspaces
Reach-Drains s (steps t u r st) = Step-Drains t u st (Reach-Drains t r)
