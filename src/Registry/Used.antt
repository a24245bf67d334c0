-- ===== src/Registry/Used.antt =====
-- Borrowing and releasing keep the handles in use apart from those that are closed.
use mcp_semantic_search_zvec.Prelude.{
  ℕ, ◌+◌, ◌-◌, ◌<◌, ◌≡◌, refl, Bool, true, false, List, ◌∷◌, none, some, String, arith, ap, ◌∙◌,
}
use mcp_semantic_search_zvec.Ids.{contains}
use mcp_semantic_search_zvec.WorkspaceSpecs.{WorkspaceSpec}
use mcp_semantic_search_zvec.Registry.{
  Handle, Registry, find_handle, remove_handle, put_handle, oldest_idle, borrow_handle, reserve,
  begin_borrow, Borrow, borrowed, reserved, id_required, registry_closing, unknown_workspace,
  all_in_use, waits, release_last, release,
}
use mcp_semantic_search_zvec.Registry.Begin.{IsInert, begin_borrow_cases, release_cases}
use mcp_semantic_search_zvec.Registry.Eviction.{IsOldest, oldest_idle-IsOldest}
use mcp_semantic_search_zvec.Registry.Handles.{IsIn}
use mcp_semantic_search_zvec.Registry.Slots.{Slots, begin_borrow-Slots, release-Slots}
use mcp_semantic_search_zvec.Registry.System.{
  System, Held, held, count_held, remove_held, Eviction, new_system, after_begin, after_release,
}
use mcp_semantic_search_zvec.Registry.Keys.{
  refs_if, find_handle-of_IsIn, refs_of-remove_handle, refs_of-put_handle, has_key-put_handle,
  has_key-remove_handle, has_key-remove_handle_self,
}
use mcp_semantic_search_zvec.Registry.InUse.{
  IsGone, IsOld, InUse, All-map, All-find_handle, All-put_handle, All-remove_handle, find_handle_id,
  refs_of-find_handle, count_held-remove_held,
}

pub new_system-InUse :
    (most : ℕ) (workspaces : List WorkspaceSpec) → InUse (new_system most workspaces)
unfolding new_system count_held contains
new_system-InUse most workspaces = record {
  slots = record { one_handle = tt; one_opener = tt; apart = λ id o. refl };
  exact = λ k. refl;
  young = tt;
  evicted_gone = tt;
  discarded_gone = tt;
  closed_gone = tt;
  reloaded_gone = tt;
}

module _ (s : System) (v : InUse s) where
  -- The same handles, and the same borrows.
  pub same-InUse :
      (r : Registry)
      → r.open_handles ≡ s.registry.open_handles
      → Slots r
      → InUse (record s { registry = r })
  same-InUse r e w = record {
    slots = w;
    exact = λ k. rw e (v.exact k);
    young = rw e v.young;
    evicted_gone = rw e v.evicted_gone;
    discarded_gone = rw e v.discarded_gone;
    closed_gone = rw e v.closed_gone;
    reloaded_gone = rw e v.reloaded_gone;
  }

  -- The handle of the map is written, and the borrows change as its references do.
  put-InUse :
      (r : Registry) (h h' : Handle) (bs : List Held)
      → find_handle s.registry.open_handles h.id ≡ some h
      → h'.id ≡ h.id
      → h'.serial ≡ h.serial
      → r.open_handles ≡ put_handle s.registry.open_handles h'
      → Slots r
      → ((k : Held) → count_held bs k + refs_if h k ≡ count_held s.borrows k + refs_if h' k)
      → InUse (record s { registry = r; borrows = bs })
  put-InUse r h h' bs f i n e w change =
      let gone : (g : Handle)
          → IsGone s.registry.open_handles s.next_serial g
          → IsGone (put_handle s.registry.open_handles h') s.next_serial g =
        λ g k. (
          has_key-put_handle h (held g) h' s.registry.open_handles i n v.slots.one_handle f ∙ k.0,
          k.1,
        ) in
      record {
        slots = w;
        exact = λ k. rw e (
            omega (
              arith,
              change k,
              v.exact k,
              refs_of-put_handle h k h' s.registry.open_handles i v.slots.one_handle f,
            ));
        young = rw e (
            All-put_handle (IsOld s.next_serial) s.registry.open_handles h' v.young (
              rw n
                (All-find_handle (IsOld s.next_serial) s.registry.open_handles h.id h v.young f)));
        evicted_gone =
            rw e (All-map _ _ s.evicted (λ (x : Eviction). gone x.handle) v.evicted_gone);
        discarded_gone = rw e (All-map _ _ s.discarding gone v.discarded_gone);
        closed_gone = rw e (All-map _ _ s.to_close gone v.closed_gone);
        reloaded_gone = rw e (All-map _ _ s.to_reload gone v.reloaded_gone);
      }

  -- What stays true of the handles out of the map when one more leaves it.
  pub IsGone-remove :
      (id : String) (g : Handle)
      → IsGone s.registry.open_handles s.next_serial g
      → IsGone (remove_handle s.registry.open_handles id) s.next_serial g
  IsGone-remove id g h = (has_key-remove_handle s.registry.open_handles id (held g) h.0, h.1)

  pub removed-IsGone :
      (h : Handle)
      → find_handle s.registry.open_handles h.id ≡ some h
      → IsGone (remove_handle s.registry.open_handles h.id) s.next_serial h
  removed-IsGone h f = (
    has_key-remove_handle_self s.registry.open_handles h.id h.serial,
    All-find_handle (IsOld s.next_serial) s.registry.open_handles h.id h v.young f,
  )

  found :
      (id : String) (h : Handle)
      → find_handle s.registry.open_handles id ≡ some h
      → find_handle s.registry.open_handles h.id ≡ some h
  found id h f =
      ap (find_handle s.registry.open_handles) (find_handle_id s.registry.open_handles id h f) ∙ f

  pub begin-InUse :
      (id : String) (now : ℕ) → InUse (after_begin s id (begin_borrow s.registry id now))
  begin-InUse id now =
      begin_borrow_cases (λ p. Slots p.0 → InUse (after_begin s id p)) s.registry id now inert
        (λ live h f w.
          unfold borrow_handle after_begin count_held in
          put-InUse
            (record s.registry {
              open_handles =
                  put_handle s.registry.open_handles
                    (record h { last_used = now; refs = h.refs + 1 });
            })
            h (record h { last_used = now; refs = h.refs + 1 }) (held h ∷ s.borrows) (found id h f)
            refl refl refl w (λ k. ground arith))
        (λ live new closed free w.
          unfold reserve after_begin in
          same-InUse (record s.registry { opening = id ∷ s.registry.opening }) refl w)
        (λ live new closed h e w. unfold reserve after_begin in evicts h e w)
        (begin_borrow-Slots s.registry id now v.slots)
    where
      inert : (b : Borrow) → IsInert b → Slots s.registry → InUse (after_begin s id (s.registry, b))
      inert id_required i w = unfold after_begin in v
      inert registry_closing i w = unfold after_begin in v
      inert unknown_workspace i w = unfold after_begin in v
      inert all_in_use i w = unfold after_begin in v
      inert waits i w = unfold after_begin in v
      inert (borrowed h) i w = absurd i
      inert (reserved o) i w = absurd i

      evicts :
          (h : Handle)
          → oldest_idle none s.registry.open_handles ≡ some h
          → Slots (record s.registry {
            open_handles = remove_handle s.registry.open_handles h.id;
            opening = id ∷ s.registry.opening;
          })
          → InUse (record s {
            registry = record s.registry {
              open_handles = remove_handle s.registry.open_handles h.id;
              opening = id ∷ s.registry.opening;
            };
            evicted = record { opener = id; handle = h } ∷ s.evicted;
          })
      evicts h e w =
          let o : IsOldest (λ y. IsIn y s.registry.open_handles) (some h) =
            rw e at (oldest_idle-IsOldest s.registry.open_handles) in
          let f = find_handle-of_IsIn h s.registry.open_handles v.slots.one_handle o.0 in
          record {
            slots = w;
            exact = λ k. ground (
              arith,
              v.exact k,
              refs_of-remove_handle h k s.registry.open_handles v.slots.one_handle f,
              o.1,
            );
            young = All-remove_handle (IsOld s.next_serial) s.registry.open_handles h.id v.young;
            evicted_gone = (
              removed-IsGone h f,
              All-map _ _ s.evicted (λ (x : Eviction). IsGone-remove h.id x.handle) v.evicted_gone,
            );
            discarded_gone = All-map _ _ s.discarding (IsGone-remove h.id) v.discarded_gone;
            closed_gone = All-map _ _ s.to_close (IsGone-remove h.id) v.closed_gone;
            reloaded_gone = All-map _ _ s.to_reload (IsGone-remove h.id) v.reloaded_gone;
          }

  pub release-InUse :
      (b : Held) (now : ℕ)
      → 0 < count_held s.borrows b
      → InUse (after_release s b (release s.registry b.id b.serial now))
  release-InUse b now p =
      release_cases (λ q. Slots q.0 → InUse (after_release s b q)) s.registry b.id b.serial now
        (λ old w. absurd (
          refs_of-find_handle s.registry.open_handles b v.slots.one_handle
            (omega (arith, p, v.exact b)) old))
        (λ h f q o. last h f q o s.registry.closing)
        (λ h f q o w.
          unfold after_release in
          put-InUse
            (record s.registry {
              open_handles = put_handle s.registry.open_handles (record h { refs = h.refs - 1 });
            })
            h (record h { refs = h.refs - 1 }) (remove_held s.borrows b) (found b.id h f) refl refl
            refl w
            (λ k. ground (
              arith,
              o,
              q,
              find_handle_id s.registry.open_handles b.id h f,
              count_held-remove_held s.borrows b k p,
            )))
        (release-Slots s.registry b.id b.serial now v.slots)
    where
      last :
          (h : Handle)
          → find_handle s.registry.open_handles b.id ≡ some h
          → h.serial ≡ b.serial
          → h.refs ≡ 1
          → (closing : Bool)
          → Slots (release_last closing s.registry (record h { refs = 0; last_used = now })).0
          → InUse (
              after_release s b
                (release_last closing s.registry (record h { refs = 0; last_used = now })))
      last h f q o false w =
          unfold release_last after_release in
          put-InUse
            (record s.registry {
              open_handles =
                  put_handle s.registry.open_handles (record h { refs = 0; last_used = now });
            })
            h (record h { refs = 0; last_used = now }) (remove_held s.borrows b) (found b.id h f)
            refl refl refl (unfold release_last in w)
            (λ k. ground (
              arith,
              o,
              q,
              find_handle_id s.registry.open_handles b.id h f,
              count_held-remove_held s.borrows b k p,
            ))
      last h f q o true w =
          unfold release_last after_release in
          record {
            slots = unfold release_last in w;
            exact = λ k. ground (
              arith,
              o,
              q,
              v.exact k,
              find_handle_id s.registry.open_handles b.id h f,
              count_held-remove_held s.borrows b k p,
              refs_of-remove_handle h k s.registry.open_handles v.slots.one_handle (found b.id h f),
            );
            young = All-remove_handle (IsOld s.next_serial) s.registry.open_handles h.id v.young;
            evicted_gone =
                All-map _ _ s.evicted (λ (x : Eviction). IsGone-remove h.id x.handle)
                  v.evicted_gone;
            discarded_gone = (
              removed-IsGone h (found b.id h f),
              All-map _ _ s.discarding (IsGone-remove h.id) v.discarded_gone,
            );
            closed_gone = All-map _ _ s.to_close (IsGone-remove h.id) v.closed_gone;
            reloaded_gone = All-map _ _ s.to_reload (IsGone-remove h.id) v.reloaded_gone;
          }
