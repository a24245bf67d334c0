-- ===== src/Registry/Reloading.antt =====
-- How a reload ends, and what it leaves of the maps.
use mcp_semantic_search_zvec.Prelude.{
  ℕ, ◌≤◌, ◌≡◌, refl, inl, inr, Bool, true, false, if◌then◌else◌, List, [], ◌∷◌, Option, none, some,
  String, eq_iff, length, arith, Bool-cases,
}
use mcp_semantic_search_zvec.Window.Slices.{All}
use mcp_semantic_search_zvec.Batches.Collected.{All-append}
use mcp_semantic_search_zvec.Ids.{Ids, contains}
use mcp_semantic_search_zvec.WorkspaceSpecs.{WorkspaceSpec, changed_ids}
use mcp_semantic_search_zvec.Registry.{Handle, Registry, find_handle, remove_id}
use mcp_semantic_search_zvec.Registry.Handles.{contains-remove_id, length-remove_id-le}
use mcp_semantic_search_zvec.Registry.Reload.{
  Reload, reload_closing, reload_busy, is_in_use, busy_ids, put_id, add_found, detach, detach_one,
  swap, apply_reload, reload_projects, remove_ids,
}
use mcp_semantic_search_zvec.Registry.InUse.{find_handle_id}

-- No thread opens the workspace, and no borrow has its handle.
abbrev pub IsIdle : Registry → String → Type 0
IsIdle r id =
    (contains r.opening id ≡ false)
    × ((h : Handle) → find_handle r.open_handles id ≡ some h → h.refs ≡ 0)

is_in_use-idle :
    (indexing : Handle → Bool) (o : Option Handle)
    → is_in_use indexing o ≡ false
    → (h : Handle) → o ≡ some h
    → h.refs ≡ 0
unfolding is_in_use
is_in_use-idle indexing none n h e = cc
is_in_use-idle indexing (some x) n h e = let e' : x ≡ h = cc in rw (← e') (ground (arith, n))

busy_ids-none :
    (r : Registry) (indexing : Handle → Bool) (ids : Ids)
    → busy_ids r indexing ids ≡ []
    → All (IsIdle r) ids
unfolding busy_ids
busy_ids-none r indexing [] e = tt
busy_ids-none r indexing (id ∷ ids) e =
    by_opener (busy_ids-none r indexing ids) (contains r.opening id) refl
      (is_in_use indexing (find_handle r.open_handles id)) refl e
  where
    by_opener :
        (busy_ids r indexing ids ≡ [] → All (IsIdle r) ids)
        → (o : Bool) → contains r.opening id ≡ o
        → (u : Bool) → is_in_use indexing (find_handle r.open_handles id) ≡ u
        → (let rest = busy_ids r indexing ids in
            if o then id ∷ rest else (if u then id ∷ rest else rest))
          ≡ []
        → All (IsIdle r) (id ∷ ids)
    by_opener rest true o u i e = cc
    by_opener rest false o true i e = cc
    by_opener rest false o false i e =
        ((o, is_in_use-idle indexing (find_handle r.open_handles id) i), rest e)

module _ {ℓ} (P : Registry × Reload → Type ℓ) (r : Registry) (most : ℕ) (specs : List WorkspaceSpec)
    (indexing : Handle → Bool) (closing : P (r, reload_closing))
    (busy : (ids : Ids) → P (r, reload_busy ids))
    (applies : r.closing ≡ false
      → (changed : Ids) → All (IsIdle r) changed
      → P (swap most specs changed (detach changed r []))) where
  pub reload_projects_cases : P (reload_projects r most specs indexing)
  unfolding reload_projects
  reload_projects_cases = by_closing r.closing refl
    where
      by_busy :
          r.closing ≡ false
          → (ids : Ids) → busy_ids r indexing (changed_ids r.workspaces specs) ≡ ids
          → P (apply_reload r most specs (changed_ids r.workspaces specs) ids)
      by_busy live [] e =
          unfold apply_reload in
          applies live (changed_ids r.workspaces specs)
            (busy_ids-none r indexing (changed_ids r.workspaces specs) e)
      by_busy live (id ∷ ids) e = unfold apply_reload in busy (id ∷ ids)

      by_closing :
          (c : Bool)
          → r.closing ≡ c
          → P (
              if c
              then (r, reload_closing)
              else apply_reload r most specs
                  (changed_ids r.workspaces specs)
                  (busy_ids r indexing (changed_ids r.workspaces specs)))
      by_closing true c = closing
      by_closing false live =
          by_busy live (busy_ids r indexing (changed_ids r.workspaces specs)) refl

pub contains-put_id :
    (xs : Ids) (id x : String) → contains xs x ≡ true → contains (put_id xs id) x ≡ true
unfolding put_id contains
contains-put_id xs id x h = ground (arith, h)

pub contains-put_id_self : (xs : Ids) (id : String) → contains (put_id xs id) id ≡ true
unfolding put_id contains
contains-put_id_self xs id = ground (arith, eq_iff id id)

pub detach-opening :
    (ids : Ids) (r : Registry) (hs : List Handle) (x : String)
    → contains r.opening x ≡ true
    → contains (detach ids r hs).0.opening x ≡ true
unfolding detach detach_one
detach-opening [] r hs x h = h
detach-opening (id ∷ ids) r hs x h =
    detach-opening ids (detach_one r id) (add_found hs (find_handle r.open_handles id)) x
      (contains-put_id r.opening id x h)

pub detach-reserves :
    (ids : Ids) (r : Registry) (hs : List Handle) (x : String)
    → contains ids x ≡ true
    → contains (detach ids r hs).0.opening x ≡ true
unfolding detach detach_one contains
detach-reserves [] r hs x h = cc
detach-reserves (id ∷ ids) r hs x h = elim (Bool-cases (contains ids x)) [
  | inl later ↦
      detach-reserves ids (detach_one r id) (add_found hs (find_handle r.open_handles id)) x later
  | inr now ↦
      let e : id ≡ x = (eq_iff id x).0 (ground (arith, h, now)) in
      detach-opening ids (detach_one r id) (add_found hs (find_handle r.open_handles id)) x
        (rw (← e) (contains-put_id_self r.opening id))
]

pub detach-closing :
    (ids : Ids) (r : Registry) (hs : List Handle)
    → let r' = (detach ids r hs).0 in
      (r'.closing ≡ r.closing)
      × (r'.discards ≡ r.discards)
      × (r'.runtime_shutdown_done ≡ r.runtime_shutdown_done)
unfolding detach detach_one
detach-closing [] r hs = (refl, refl, refl)
detach-closing (id ∷ ids) r hs =
    detach-closing ids (detach_one r id) (add_found hs (find_handle r.open_handles id))

pub detach-handles :
    (all ids : Ids) (r : Registry) (hs : List Handle)
    → ((x : String) → contains ids x ≡ true → contains all x ≡ true)
    → All (λ (h : Handle). contains all h.id ≡ true) hs
    → All (λ (h : Handle). contains all h.id ≡ true) (detach ids r hs).1
unfolding detach contains
detach-handles all [] r hs sub h = h
detach-handles all (id ∷ ids) r hs sub h =
    detach-handles all ids (detach_one r id) (add_found hs (find_handle r.open_handles id))
      (λ x m. sub x (ground (arith, m))) (by_found (find_handle r.open_handles id) refl)
  where
    by_found :
        (o : Option Handle)
        → find_handle r.open_handles id ≡ o
        → All (λ (h : Handle). contains all h.id ≡ true) (add_found hs o)
    by_found none e = unfold add_found in h
    by_found (some x) e =
        unfold add_found in
        All-append (λ (h : Handle). contains all h.id ≡ true) hs (x ∷ []) h
          (sub x.id (ground (arith, eq_iff id x.id, find_handle_id r.open_handles id x e)), tt)

pub remove_ids-kept :
    (ids xs : Ids) (x : String)
    → contains ids x ≡ false
    → contains xs x ≡ true
    → contains (remove_ids xs ids) x ≡ true
unfolding remove_ids contains
remove_ids-kept [] xs x n h = h
remove_ids-kept (id ∷ ids) xs x n h =
    remove_ids-kept ids (remove_id xs id) x (ground (arith, n))
      (ground (arith, h, n, contains-remove_id xs id x))

pub length-remove_ids-le : (ids xs : Ids) → length (remove_ids xs ids) ≤ length xs
unfolding remove_ids
length-remove_ids-le [] xs = omega arith
length-remove_ids-le (id ∷ ids) xs =
    omega (arith, length-remove_ids-le ids (remove_id xs id), length-remove_id-le xs id)
