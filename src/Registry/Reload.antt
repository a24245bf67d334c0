-- ===== src/Registry/Reload.antt =====
-- ReloadProjects of internal/daemon/reload.go: its critical section that applies a new
-- configuration, and the one that gives the reservations back. Reading the configuration is not
-- modelled, nor are the errors before it.
use mcp_semantic_search_zvec.Prelude.{
  ℕ, Bool, false, ◌||◌, List, [], ◌∷◌, ◌++◌, Option, none, some, String, ltb, if◌then◌else◌,
}
use mcp_semantic_search_zvec.Ids.{Ids, contains}
use mcp_semantic_search_zvec.WorkspaceSpecs.{WorkspaceSpec, changed_ids}
use mcp_semantic_search_zvec.Registry.{Handle, Registry, find_handle, remove_handle, remove_id}

-- How a reload ends: an error, with the ids that are in use, or the ids that it reserved and the
-- handles that it took out.
pub data Reload : Type 0 where
  reload_closing : Reload
  reload_busy : Ids → Reload
  reloaded : Ids → List Handle → Reload

-- Whether the handle of the map is in use; `indexing` is IndexingActive of its service.
unfoldable pub is_in_use : (Handle → Bool) → Option Handle → Bool
is_in_use indexing none = false
is_in_use indexing (some h) = ltb 0 h.refs || indexing h

unfoldable pub busy_ids : Registry → (Handle → Bool) → Ids → Ids
unfolding is_in_use find_handle
busy_ids r indexing [] = []
busy_ids r indexing (id ∷ ids) =
    let rest = busy_ids r indexing ids in
    if contains r.opening id
    then id ∷ rest
    else if is_in_use indexing (find_handle r.open_handles id)
    then id ∷ rest
    else rest

-- A write to a map whose keys are the ids.
unfoldable pub put_id : Ids → String → Ids
put_id xs id = if contains xs id then xs else id ∷ xs

unfoldable pub add_found : List Handle → Option Handle → List Handle
add_found hs none = hs
add_found hs (some h) = hs ++ h ∷ []

-- One turn of the loop that detaches the changed collections.
unfoldable pub detach_one : Registry → String → Registry
unfolding remove_handle put_id
detach_one r id = record r {
  open_handles = remove_handle r.open_handles id;
  opening = put_id r.opening id;
}

unfoldable pub detach : Ids → Registry → List Handle → Registry × List Handle
unfolding detach_one add_found find_handle
detach [] r handles = (r, handles)
detach (id ∷ ids) r handles =
    detach ids (detach_one r id) (add_found handles (find_handle r.open_handles id))

-- The new configuration: its limit and its collections.
unfoldable pub swap : ℕ → List WorkspaceSpec → Ids → Registry × List Handle → Registry × Reload
swap most specs changed (r, handles) =
    (record r { max_open_workspaces = most; workspaces = specs }, reloaded changed handles)

unfoldable pub apply_reload : Registry → ℕ → List WorkspaceSpec → Ids → Ids → Registry × Reload
unfolding swap detach
apply_reload r most specs changed [] = swap most specs changed (detach changed r [])
apply_reload r most specs changed (id ∷ busy) = (r, reload_busy (id ∷ busy))

unfoldable pub reload_projects :
    Registry → ℕ → List WorkspaceSpec → (Handle → Bool) → Registry × Reload
unfolding apply_reload busy_ids changed_ids
reload_projects r most specs indexing =
    let changed = changed_ids r.workspaces specs in
    if r.closing
    then (r, reload_closing)
    else apply_reload r most specs changed (busy_ids r indexing changed)

unfoldable pub remove_ids : Ids → Ids → Ids
unfolding remove_id
remove_ids xs [] = xs
remove_ids xs (id ∷ ids) = remove_ids (remove_id xs id) ids

unfoldable pub release_reservations : Registry → Ids → Registry
unfolding remove_ids
release_reservations r reservations = record r { opening = remove_ids r.opening reservations }
