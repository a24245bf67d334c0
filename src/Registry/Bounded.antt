-- ===== src/Registry/Bounded.antt =====
-- How many workspaces are open or being opened.
use mcp_semantic_search_zvec.Prelude.{
  ℕ, ◌+◌, ◌-◌, ◌≤◌, ◌≡◌, inl, inr, Bool, true, false, not, ◌&&◌, List, [], ◌∷◌, Option, none, some,
  String, length, arith, Bool-cases,
}
use mcp_semantic_search_zvec.Ids.{contains}
use mcp_semantic_search_zvec.WorkspaceSpecs.{WorkspaceSpec}
use mcp_semantic_search_zvec.Registry.{
  Handle, remove_id, borrow_handle, reserve, begin_borrow, Borrow, borrowed, reserved, id_required,
  registry_closing, unknown_workspace, all_in_use, waits, borrow_opened, after_open, finish_open,
  release_last, release, try_shutdown_runtime_after_drain, is_drained,
}
use mcp_semantic_search_zvec.Registry.Reload.{swap, reload_projects, remove_ids}
use mcp_semantic_search_zvec.Registry.Reloading.{reload_projects_cases}
use mcp_semantic_search_zvec.Registry.Begin.{IsInert, begin_borrow_cases, release_cases}
use mcp_semantic_search_zvec.Registry.Eviction.{IsOldest, oldest_idle-IsOldest}
use mcp_semantic_search_zvec.Registry.Handles.{
  IsIn, contains_of_IsIn, length-put_handle, length-remove_handle, length-remove_handle-le,
}
use mcp_semantic_search_zvec.Registry.Reloading.{length-remove_ids-le}
use mcp_semantic_search_zvec.Registry.Room.{
  length-remove_ids-cons, remove_ids-remove_id, remove_ids-detach, length-detach,
}
use mcp_semantic_search_zvec.Registry.System.{
  System, Held, after_begin, after_finish, after_release, after_shutdown, after_reload,
}
use mcp_semantic_search_zvec.Registry.Done.{Drains}
use mcp_semantic_search_zvec.Registry.Threads.{new_not_reserved}

-- What is open or has an opener other than a reload fits the largest limit so far.
pub record Bounded (s : System) : Type 0 where
  pub limit : s.registry.max_open_workspaces ≤ s.largest_limit
  pub room :
      length s.registry.open_handles + length (remove_ids s.registry.opening s.reservations)
      ≤ s.largest_limit

module _ (s : System) (v : Bounded s) where
  -- No more handles, the same openers.
  pub fewer-Bounded :
      (s' : System)
      → s'.registry.max_open_workspaces ≡ s.registry.max_open_workspaces
      → s'.largest_limit ≡ s.largest_limit
      → s'.registry.opening ≡ s.registry.opening
      → s'.reservations ≡ s.reservations
      → length s'.registry.open_handles ≤ length s.registry.open_handles
      → Bounded s'
  fewer-Bounded s' m l o r h = record {
    limit = omega (arith, m, l, v.limit);
    room = rw (o, r, l) (omega (arith, h, v.room));
  }

  pub shutdown-Bounded : Bounded (after_shutdown s (try_shutdown_runtime_after_drain s.registry))
  unfolding try_shutdown_runtime_after_drain after_shutdown
  shutdown-Bounded =
      elim (Bool-cases
        (s.registry.closing && not s.registry.runtime_shutdown_done && is_drained s.registry)) [
          | inl now ↦ simp now (record { limit = v.limit; room = v.room })
          | inr later ↦ simp later v
        ]

  pub release-Bounded :
      (b : Held) (now : ℕ) → Bounded (after_release s b (release s.registry b.id b.serial now))
  release-Bounded b now =
      release_cases (λ q. Bounded (after_release s b q)) s.registry b.id b.serial now
        (λ old. unfold after_release in record { limit = v.limit; room = v.room })
        (λ h f q o. last s.registry.closing (record h { refs = 0; last_used = now }))
        (λ h f q o.
          unfold after_release in
          record {
            limit = v.limit;
            room =
                rw (length-put_handle s.registry.open_handles (record h { refs = h.refs - 1 }))
                  v.room;
          })
    where
      last :
          (closing : Bool) (h : Handle)
          → Bounded (after_release s b (release_last closing s.registry h))
      last true h =
          unfold release_last after_release in
          record {
            limit = v.limit;
            room = omega (arith, v.room, length-remove_handle-le s.registry.open_handles h.id);
          }
      last false h =
          unfold release_last after_release in
          record { limit = v.limit; room = rw (length-put_handle s.registry.open_handles h) v.room }

  pub reload-Bounded :
      (most : ℕ) (specs : List WorkspaceSpec) (indexing : Handle → Bool)
      → s.reservations ≡ []
      → Bounded (after_reload s (reload_projects s.registry most specs indexing))
  reload-Bounded most specs indexing none_reserved =
      reload_projects_cases (λ p. Bounded (after_reload s p)) s.registry most specs indexing
        (unfold after_reload in v) (λ ids. unfold after_reload in v)
        (λ live changed idle.
          let o = remove_ids-detach changed changed s.registry [] (λ x m. m) in
          let n = length-remove_ids-le changed s.registry.opening in
          let h = length-detach changed s.registry [] in
          let all : length s.registry.open_handles + length s.registry.opening ≤ s.largest_limit =
            unfold remove_ids in rw none_reserved at v.room in
          unfold after_reload swap in
          record { limit = ground arith; room = ground (arith, o, n, h, all) })

  -- A thread that holds a reservation of its own goes, and a handle may come.
  pub finish-Bounded :
      (serial : ℕ) (id : String) (o : Option Handle) (now : ℕ)
      → contains s.registry.opening id ≡ true
      → contains s.reservations id ≡ false
      → Bounded (after_finish (record s { next_serial = serial }) (finish_open s.registry id o now))
  unfolding finish_open
  finish-Bounded serial id o now opening free = by_closing s.registry.closing o
    where
      fewer :
          length (remove_ids (remove_id s.registry.opening id) s.reservations) + 1
          ≤ length (remove_ids s.registry.opening s.reservations)
      fewer = remove_ids-remove_id s.reservations s.registry.opening id opening free

      by_closing :
          (closing : Bool) (o : Option Handle)
          → Bounded (
              after_finish
                (record s { next_serial = serial })
                (after_open closing
                  (record s.registry { opening = remove_id s.registry.opening id })
                  o
                  now))
      by_closing true none =
          unfold after_open after_finish in
          record { limit = v.limit; room = omega (arith, v.room, fewer) }
      by_closing false none =
          unfold after_open after_finish in
          record { limit = v.limit; room = omega (arith, v.room, fewer) }
      by_closing true (some h) =
          unfold after_open after_finish in
          record { limit = v.limit; room = omega (arith, v.room, fewer) }
      by_closing false (some h) =
          let n =
            length-put_handle (h ∷ s.registry.open_handles)
              (record h { last_used = now; refs = h.refs + 1 }) in
          unfold after_open after_finish borrow_handle borrow_opened in
          record { limit = v.limit; room = omega (arith, v.room, fewer, n) }

  pub begin-Bounded :
      Drains s
      → (id : String) (now : ℕ) → Bounded (after_begin s id (begin_borrow s.registry id now))
  begin-Bounded w id now =
      begin_borrow_cases (λ p. Bounded (after_begin s id p)) s.registry id now inert
        (λ live h f.
          unfold borrow_handle after_begin in
          record {
            limit = v.limit;
            room =
                rw
                  (length-put_handle s.registry.open_handles
                    (record h { last_used = now; refs = h.refs + 1 }))
                  v.room;
          })
        (λ live new closed free.
          let one = length-remove_ids-cons s.reservations s.registry.opening id in
          let r = new_not_reserved s w id new in
          let n = length-remove_ids-le s.reservations s.registry.opening in
          unfold reserve after_begin in
          record { limit = v.limit; room = ground (arith, one, r, n, free, v.limit) })
        (λ live new closed h e.
          let o : IsOldest (λ y. IsIn y s.registry.open_handles) (some h) =
            rw e at (oldest_idle-IsOldest s.registry.open_handles) in
          let one = length-remove_ids-cons s.reservations s.registry.opening id in
          let r = new_not_reserved s w id new in
          let less =
            length-remove_handle s.registry.open_handles h.id
              (contains_of_IsIn h s.registry.open_handles o.0) in
          unfold reserve after_begin in
          record { limit = v.limit; room = ground (arith, one, r, less, v.room) })
    where
      inert : (b : Borrow) → IsInert b → Bounded (after_begin s id (s.registry, b))
      inert id_required i = unfold after_begin in v
      inert registry_closing i = unfold after_begin in v
      inert unknown_workspace i = unfold after_begin in v
      inert all_in_use i = unfold after_begin in v
      inert waits i = unfold after_begin in v
      inert (borrowed h) i = absurd i
      inert (reserved o) i = absurd i
