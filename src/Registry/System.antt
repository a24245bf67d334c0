-- ===== src/Registry/System.antt =====
-- The registry with the threads that use it. Between two steps the mutex is free, so a sequence of
-- steps is an interleaving. A thread that opens a workspace or reloads may be slower or faster in
-- closing the handles that it took out than the code makes it, and Close in waiting for the others.
use mcp_semantic_search_zvec.Prelude.{
  ℕ, ◌+◌, ◌-◌, ◌<◌, ◌≡◌, Bool, true, false, ◌&&◌, List, [], ◌∷◌, ◌++◌, Option, none, some, String,
  str_eq, leb, ◌==◌, if◌then◌else◌,
}
use mcp_semantic_search_zvec.Ids.{Ids, contains}
use mcp_semantic_search_zvec.WorkspaceSpecs.{WorkspaceSpec}
use mcp_semantic_search_zvec.Registry.{
  Handle, Registry, new_registry, Borrow, borrowed, reserved, id_required, registry_closing,
  unknown_workspace, all_in_use, waits, Opened, opened, too_late, open_failed, begin_borrow,
  finish_open, release, begin_discard, end_discard, try_shutdown_runtime_after_drain, begin_close,
  collect_idle, skips_runtime,
}
use mcp_semantic_search_zvec.Registry.Reload.{
  Reload, reload_closing, reload_busy, reloaded, reload_projects, release_reservations,
}

-- A borrow whose callback has not been called: the handle that it is for.
pub record Held : Type 0 where
  pub id : String
  pub serial : ℕ

-- A handle that the thread that opens a workspace took out to make room.
pub record Eviction : Type 0 where
  pub opener : String
  pub handle : Handle

-- Where Close is: it waits for the others, or it closes the handles that it took out, and leaves
-- the runtime alone if the flag says so.
pub data ClosePhase : Type 0 where
  not_closing draining : ClosePhase
  closing_handles : Bool → ClosePhase
  close_done : ClosePhase

-- `discarding` are the handles for which discardHandle closes the service, `trying` the threads
-- that have done so and not yet tried to shut the runtime down, `to_close` the handles that Close
-- took out, `reservations` the ids that a reload keeps in the map of openers and `to_reload` the
-- handles that it took out. `largest_limit` and `shutdowns` only record what happened.
pub record System : Type 0 where
  pub registry : Registry
  pub next_serial : ℕ
  pub borrows : List Held
  pub evicted : List Eviction
  pub discarding : List Handle
  pub trying : ℕ
  pub to_close : List Handle
  pub close_phase : ClosePhase
  pub reservations : Ids
  pub to_reload : List Handle
  pub largest_limit : ℕ
  pub shutdowns : ℕ

unfoldable pub new_system : ℕ → List WorkspaceSpec → System
unfolding new_registry
new_system max_open_workspaces workspaces = record {
  registry = new_registry max_open_workspaces workspaces;
  next_serial = 0;
  borrows = [];
  evicted = [];
  discarding = [];
  trying = 0;
  to_close = [];
  close_phase = not_closing;
  reservations = [];
  to_reload = [];
  largest_limit = max_open_workspaces;
  shutdowns = 0;
}

abbrev pub held : Handle → Held
held h = record { id = h.id; serial = h.serial }

abbrev pub is_for : Held → Held → Bool
is_for a b = str_eq a.id b.id && a.serial == b.serial

unfoldable pub count_held : List Held → Held → ℕ
count_held [] b = 0
count_held (a ∷ bs) b = let rest = count_held bs b in if is_for a b then rest + 1 else rest

-- One borrow of the handle ends.
unfoldable pub remove_held : List Held → Held → List Held
remove_held [] b = []
remove_held (a ∷ bs) b = let rest = remove_held bs b in if is_for a b then bs else a ∷ rest

unfoldable pub after_begin : System → String → Registry × Borrow → System
after_begin s id (r, borrowed h) = record s { registry = r; borrows = held h ∷ s.borrows }
after_begin s id (r, reserved (some h)) = record s {
  registry = r;
  evicted = record { opener = id; handle = h } ∷ s.evicted;
}
after_begin s id (r, reserved none) = record s { registry = r }
after_begin s id (r, id_required) = record s { registry = r }
after_begin s id (r, registry_closing) = record s { registry = r }
after_begin s id (r, unknown_workspace) = record s { registry = r }
after_begin s id (r, all_in_use) = record s { registry = r }
after_begin s id (r, waits) = record s { registry = r }

unfoldable pub after_finish : System → Registry × Opened → System
after_finish s (r, opened h) = record s { registry = r; borrows = held h ∷ s.borrows }
after_finish s (r, too_late (some h)) = record s { registry = r; discarding = h ∷ s.discarding }
after_finish s (r, too_late none) = record s { registry = r }
after_finish s (r, open_failed) = record s { registry = r }

unfoldable pub after_release : System → Held → Registry × Option Handle → System
unfolding remove_held
after_release s b (r, none) = record s { registry = r; borrows = remove_held s.borrows b }
after_release s b (r, some h) = record s {
  registry = r;
  borrows = remove_held s.borrows b;
  discarding = h ∷ s.discarding;
}

unfoldable pub after_shutdown : System → Registry × Bool → System
after_shutdown s (r, true) = record s { registry = r; shutdowns = s.shutdowns + 1 }
after_shutdown s (r, false) = record s { registry = r }

unfoldable pub after_collect : System → Registry × List Handle → System
unfolding skips_runtime
after_collect s (r, idle) = record s {
  registry = r;
  to_close = idle ++ s.to_close;
  close_phase = closing_handles (skips_runtime r);
}

abbrev pub larger : ℕ → ℕ → ℕ
larger a b = if leb a b then b else a

unfoldable pub after_reload : System → Registry × Reload → System
after_reload s (r, reload_closing) = record s { registry = r }
after_reload s (r, reload_busy ids) = record s { registry = r }
after_reload s (r, reloaded ids handles) = record s {
  registry = r;
  reservations = ids;
  to_reload = handles;
  largest_limit = larger s.largest_limit r.max_open_workspaces;
}

-- The handle that a successful initWorkspace makes.
abbrev pub new_handle : System → String → ℕ → Handle
new_handle s id now = record { id = id; serial = s.next_serial; last_used = now; refs = 0 }

-- The thread evicted a handle that it has not begun to discard.
unfoldable pub is_evicting : List Eviction → String → Bool
is_evicting [] id = false
is_evicting (e ∷ es) id = let rest = is_evicting es id in if str_eq e.opener id then true else rest

pub data Step : System → System → Type 0 where
  begins :
      (s : System) (id : String) (now : ℕ)
      → Step s (after_begin s id (begin_borrow s.registry id now))
  begins_discard :
      (s : System) (xs ys : List Eviction) (e : Eviction)
      → s.evicted ≡ xs ++ e ∷ ys
      → Step s (record s {
        registry = begin_discard s.registry;
        evicted = xs ++ ys;
        discarding = e.handle ∷ s.discarding;
      })
  opens :
      (s : System) (id : String) (now : ℕ)
      → contains s.registry.opening id ≡ true
      → is_evicting s.evicted id ≡ false
      → contains s.reservations id ≡ false
      → Step s (
          after_finish
            (record s { next_serial = s.next_serial + 1 })
            (finish_open s.registry id (some (new_handle s id now)) now))
  fails_to_open :
      (s : System) (id : String) (now : ℕ)
      → contains s.registry.opening id ≡ true
      → is_evicting s.evicted id ≡ false
      → contains s.reservations id ≡ false
      → Step s (after_finish s (finish_open s.registry id none now))
  releases :
      (s : System) (b : Held) (now : ℕ)
      → 0 < count_held s.borrows b
      → Step s (after_release s b (release s.registry b.id b.serial now))
  ends_discard :
      (s : System) (xs ys : List Handle) (h : Handle)
      → s.discarding ≡ xs ++ h ∷ ys
      → Step s (record s {
        registry = end_discard s.registry;
        discarding = xs ++ ys;
        trying = s.trying + 1;
      })
  tries_shutdown :
      (s : System)
      → 0 < s.trying
      → Step s (
          after_shutdown
            (record s { trying = s.trying - 1 })
            (try_shutdown_runtime_after_drain s.registry))
  begins_close :
      (s : System)
      → s.registry.closing ≡ false
      → Step s (record s { registry = begin_close s.registry; close_phase = draining })
  collects :
      (s : System) → s.close_phase ≡ draining → Step s (after_collect s (collect_idle s.registry))
  closes :
      (s : System) (xs ys : List Handle) (h : Handle)
      → s.to_close ≡ xs ++ h ∷ ys
      → Step s (record s { to_close = xs ++ ys })
  ends_close :
      (s : System)
      → s.close_phase ≡ closing_handles false
      → s.to_close ≡ []
      → Step s (
          after_shutdown
            (record s { close_phase = close_done })
            (try_shutdown_runtime_after_drain s.registry))
  reloads :
      (s : System) (most : ℕ) (specs : List WorkspaceSpec) (indexing : Handle → Bool)
      → s.reservations ≡ []
      → s.to_reload ≡ []
      → Step s (after_reload s (reload_projects s.registry most specs indexing))
  begins_reload_discard :
      (s : System) (hs : List Handle) (h : Handle)
      → s.to_reload ≡ h ∷ hs
      → Step s (record s {
        registry = begin_discard s.registry;
        to_reload = hs;
        discarding = h ∷ s.discarding;
      })
  releases_reservations :
      (s : System)
      → s.to_reload ≡ []
      → Step s (record s {
        registry = release_reservations s.registry s.reservations;
        reservations = [];
      })

pub data Reach (most : ℕ) (workspaces : List WorkspaceSpec) : System → Type 0 where
  starts : Reach most workspaces (new_system most workspaces)
  steps : (s t : System) → Reach most workspaces s → Step s t → Reach most workspaces t
