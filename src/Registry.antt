-- ===== src/Registry.antt =====
-- The registry of open workspaces: internal/daemon/registry.go. Each function is what one holder of
-- the registry's mutex does before it lets go. A handle is known by its workspace and a serial
-- number, which stands for the pointer; opening a service and closing it are not modelled.
pub mod Handles
pub mod Eviction
pub mod Reload
pub mod Reloading
pub mod Reserved
pub mod Freed
pub mod Detached
pub mod Room
pub mod Bounded
pub mod Limit
pub mod Begin
pub mod Slots
pub mod System
pub mod Done
pub mod Threads
pub mod Drain
pub mod Keys
pub mod InUse
pub mod Used
pub mod Opening
pub mod Closing
pub mod Safe
pub mod Race
use mcp_semantic_search_zvec.Prelude.{
  ℕ, ◌+◌, ◌-◌, Bool, true, false, not, ◌&&◌, ◌||◌, List, [], ◌∷◌, Option, none, some, String,
  str_eq, ltb, leb, ◌==◌, if◌then◌else◌, length,
}
use mcp_semantic_search_zvec.Ids.{Ids, contains}
use mcp_semantic_search_zvec.WorkspaceSpecs.{WorkspaceSpec, spec_by_id, is_known}

pub record Handle : Type 0 where
  pub id : String
  pub serial : ℕ
  pub last_used : ℕ
  pub refs : ℕ

-- The maps are lists whose keys are the ids. The limit and the collections are those of the
-- configuration, which a reload replaces.
pub record Registry : Type 0 where
  pub max_open_workspaces : ℕ
  pub workspaces : List WorkspaceSpec
  pub open_handles : List Handle
  pub opening : Ids
  pub closing : Bool
  pub discards : ℕ
  pub runtime_shutdown_done : Bool

unfoldable pub new_registry : ℕ → List WorkspaceSpec → Registry
new_registry max_open_workspaces workspaces = record {
  max_open_workspaces = max_open_workspaces;
  workspaces = workspaces;
  open_handles = [];
  opening = [];
  closing = false;
  discards = 0;
  runtime_shutdown_done = false;
}

unfoldable pub find_handle : List Handle → String → Option Handle
find_handle [] id = none
find_handle (h ∷ hs) id = let rest = find_handle hs id in if str_eq h.id id then some h else rest

unfoldable pub remove_handle : List Handle → String → List Handle
remove_handle [] id = []
remove_handle (h ∷ hs) id =
    let rest = remove_handle hs id in if str_eq h.id id then rest else h ∷ rest

-- A write through the pointer that the map holds for the id.
unfoldable pub put_handle : List Handle → Handle → List Handle
put_handle [] h' = []
put_handle (h ∷ hs) h' =
    let rest = put_handle hs h' in if str_eq h.id h'.id then h' ∷ rest else h ∷ rest

unfoldable pub remove_id : Ids → String → Ids
remove_id [] id = []
remove_id (x ∷ xs) id = let rest = remove_id xs id in if str_eq x id then rest else x ∷ rest

unfoldable pub has_busy_handles : List Handle → Bool
has_busy_handles [] = false
has_busy_handles (h ∷ hs) = ltb 0 h.refs || has_busy_handles hs

-- The better of the oldest idle handle so far and the next one.
unfoldable pub older_idle : Option Handle → Handle → Option Handle
older_idle none h = if ltb 0 h.refs then none else some h
older_idle (some best) h =
    if ltb 0 h.refs then some best else if ltb h.last_used best.last_used then some h else some best

unfoldable pub oldest_idle : Option Handle → List Handle → Option Handle
unfolding older_idle
oldest_idle best [] = best
oldest_idle best (h ∷ hs) = oldest_idle (older_idle best h) hs

unfoldable pub evict : Registry → Option Handle → Registry × Option Handle
unfolding remove_handle
evict r none = (r, none)
evict r (some h) = (record r { open_handles = remove_handle r.open_handles h.id }, some h)

unfoldable pub evict_oldest_idle : Registry → Registry × Option Handle
unfolding evict oldest_idle
evict_oldest_idle r = evict r (oldest_idle none r.open_handles)

-- How the first part of BorrowService ends: an error, a service, a wait for the thread that opens
-- the workspace, or the task to open it, with the handle that made room.
pub data Borrow : Type 0 where
  id_required registry_closing unknown_workspace all_in_use : Borrow
  borrowed : Handle → Borrow
  waits : Borrow
  reserved : Option Handle → Borrow

unfoldable pub borrow_handle : Registry → Handle → ℕ → Registry × Borrow
unfolding put_handle
borrow_handle r h now =
    let h' = record h { last_used = now; refs = h.refs + 1 } in
    (record r { open_handles = put_handle r.open_handles h' }, borrowed h')

-- The workspace becomes one that is opened.
unfoldable pub reserve : String → Registry × Option Handle → Registry × Borrow
reserve id (r, evicted) = (record r { opening = id ∷ r.opening }, reserved evicted)

-- Where there is no room, nothing but an evicted handle makes some.
unfoldable pub make_room : String → Registry × Option Handle → Registry × Borrow
unfolding reserve
make_room id (r, none) = (r, all_in_use)
make_room id (r, some h) = reserve id (r, some h)

unfoldable pub is_open : Option Handle → Bool
is_open none = false
is_open (some h) = true

unfoldable pub reserve_open_slot : Registry → String → Registry × Borrow
unfolding make_room evict_oldest_idle is_open find_handle
reserve_open_slot r id =
    let evicting = make_room id (evict_oldest_idle r) in
    let reserving = reserve id (r, none) in
    if is_open (find_handle r.open_handles id)
    then reserving
    else if contains r.opening id
    then reserving
    else if leb r.max_open_workspaces (length r.open_handles + length r.opening)
    then evicting
    else reserving

unfoldable pub borrow_open : Registry → String → ℕ → Option Handle → Registry × Borrow
unfolding borrow_handle reserve_open_slot
borrow_open r id now (some h) = borrow_handle r h now
borrow_open r id now none = if contains r.opening id then (r, waits) else reserve_open_slot r id

unfoldable pub begin_borrow : Registry → String → ℕ → Registry × Borrow
unfolding borrow_open find_handle is_known spec_by_id
begin_borrow r id now =
    if str_eq id ""
    then (r, id_required)
    else if r.closing
    then (r, registry_closing)
    else if is_known (spec_by_id r.workspaces id)
    then borrow_open r id now (find_handle r.open_handles id)
    else (r, unknown_workspace)

-- How the second part ends; a handle that is not needed any more is discarded.
pub data Opened : Type 0 where
  open_failed : Opened
  too_late : Option Handle → Opened
  opened : Handle → Opened

unfoldable pub borrow_opened : Registry × Borrow → Registry × Opened
borrow_opened (r, borrowed h) = (r, opened h)
borrow_opened (r, b) = (r, open_failed)

-- The flag is that of the registry, which may be closing by now.
unfoldable pub after_open : Bool → Registry → Option Handle → ℕ → Registry × Opened
unfolding borrow_handle borrow_opened
after_open true r none now = (r, too_late none)
after_open true r (some h) now = (record r { discards = r.discards + 1 }, too_late (some h))
after_open false r none now = (r, open_failed)
after_open false r (some h) now =
    borrow_opened (borrow_handle (record r { open_handles = h ∷ r.open_handles }) h now)

-- After initWorkspace: `none` is its error.
unfoldable pub finish_open : Registry → String → Option Handle → ℕ → Registry × Opened
unfolding remove_id after_open
finish_open r id h now = after_open r.closing (record r { opening = remove_id r.opening id }) h now

-- The callback of one borrow. A handle that the registry does not hold any more is left alone.
unfoldable pub release_last : Bool → Registry → Handle → Registry × Option Handle
unfolding put_handle remove_handle
release_last true r h = (
  record r { open_handles = remove_handle r.open_handles h.id; discards = r.discards + 1 },
  some h,
)
release_last false r h = (record r { open_handles = put_handle r.open_handles h }, none)

unfoldable pub release_found : Registry → ℕ → ℕ → Option Handle → Registry × Option Handle
unfolding release_last put_handle
release_found r serial now none = (r, none)
release_found r serial now (some h) =
    if h.serial == serial && ltb 0 h.refs
    then if h.refs == 1
      then release_last r.closing r (record h { refs = 0; last_used = now })
      else (
        record r { open_handles = put_handle r.open_handles (record h { refs = h.refs - 1 }) },
        none,
      )
    else (r, none)

unfoldable pub release : Registry → String → ℕ → ℕ → Registry × Option Handle
unfolding release_found find_handle
release r id serial now = release_found r serial now (find_handle r.open_handles id)

unfoldable pub begin_discard : Registry → Registry
begin_discard r = record r { discards = r.discards + 1 }

-- What discardHandle does after the handle is closed.
unfoldable pub end_discard : Registry → Registry
end_discard r = record r { discards = r.discards - 1 }

unfoldable pub is_drained : Registry → Bool
unfolding has_busy_handles
is_drained r =
    length r.open_handles == 0
    && length r.opening == 0
    && r.discards == 0
    && not (has_busy_handles r.open_handles)

-- Whether the runtime is shut down now.
unfoldable pub try_shutdown_runtime_after_drain : Registry → Registry × Bool
unfolding is_drained
try_shutdown_runtime_after_drain r =
    if r.closing && not r.runtime_shutdown_done && is_drained r
    then (record r { runtime_shutdown_done = true }, true)
    else (r, false)

unfoldable pub begin_close : Registry → Registry
begin_close r = record r { closing = true }

-- The handles that Close takes out, and those that are in use.
unfoldable pub idle_handles : List Handle → List Handle
idle_handles [] = []
idle_handles (h ∷ hs) = let rest = idle_handles hs in if ltb 0 h.refs then rest else h ∷ rest

unfoldable pub busy_handles : List Handle → List Handle
busy_handles [] = []
busy_handles (h ∷ hs) = let rest = busy_handles hs in if ltb 0 h.refs then h ∷ rest else rest

unfoldable pub collect_idle : Registry → Registry × List Handle
unfolding idle_handles busy_handles
collect_idle r =
    (record r { open_handles = busy_handles r.open_handles }, idle_handles r.open_handles)

-- Whether Close, after it took the handles out, leaves the runtime to others.
unfoldable pub skips_runtime : Registry → Bool
unfolding has_busy_handles
skips_runtime r = has_busy_handles r.open_handles || ltb 0 (length r.opening) || ltb 0 r.discards
