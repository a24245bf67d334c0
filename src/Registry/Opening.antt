-- ===== src/Registry/Opening.antt =====
-- Opening a workspace keeps the handles in use apart from those that are closed.
use mcp_semantic_search_zvec.Prelude.{
  ℕ, ◌+◌, ◌≡◌, refl, inl, Bool, true, false, ◌∷◌, none, some, String, arith, ap, sym, ◌∙◌,
}
use mcp_semantic_search_zvec.Ids.{contains}
use mcp_semantic_search_zvec.Ids.Sets.{IsUnique}
use mcp_semantic_search_zvec.Registry.{
  Handle, Registry, put_handle, remove_id, borrow_handle, borrow_opened, after_open, finish_open,
}
use mcp_semantic_search_zvec.Registry.Handles.{ids}
use mcp_semantic_search_zvec.Registry.Slots.{Slots, finish_open-Slots}
use mcp_semantic_search_zvec.Registry.System.{
  System, held, count_held, Eviction, after_finish, new_handle,
}
use mcp_semantic_search_zvec.Registry.Keys.{
  has_key, find_handle-of_IsIn, refs_of-put_handle, has_key-put_handle, has_key-old,
}
use mcp_semantic_search_zvec.Registry.InUse.{IsGone, IsOld, InUse, All-map, All-put_handle}
use mcp_semantic_search_zvec.Registry.Used.{same-InUse}

module _ (s : System) (v : InUse s) where
  -- A serial number more, and a workspace that is not opened any more.
  older :
      (g : Handle)
      → IsGone s.registry.open_handles s.next_serial g
      → IsGone s.registry.open_handles (s.next_serial + 1) g
  older g h = (h.0, omega (arith, h.1))

  next-InUse : InUse (record s { next_serial = s.next_serial + 1 })
  next-InUse = record {
    slots = v.slots;
    exact = v.exact;
    young = All-map _ _ s.registry.open_handles (λ h o. omega (arith, o)) v.young;
    evicted_gone = All-map _ _ s.evicted (λ (x : Eviction). older x.handle) v.evicted_gone;
    discarded_gone = All-map _ _ s.discarding older v.discarded_gone;
    closed_gone = All-map _ _ s.to_close older v.closed_gone;
    reloaded_gone = All-map _ _ s.to_reload older v.reloaded_gone;
  }

  -- A new handle in the map, with one borrow.
  opened-InUse :
      (r : Registry) (id : String) (now : ℕ)
      → contains (ids s.registry.open_handles) id ≡ false
      → r.open_handles
        ≡ put_handle
            (new_handle s id now ∷ s.registry.open_handles)
            (record (new_handle s id now) { last_used = now; refs = 1 })
      → Slots r
      → InUse (record s {
        registry = r;
        next_serial = s.next_serial + 1;
        borrows = held (new_handle s id now) ∷ s.borrows;
      })
  unfolding count_held
  opened-InUse r id now closed e w =
      let h = new_handle s id now in
      let h' = record h { last_used = now; refs = 1 } in
      let hs = h ∷ s.registry.open_handles in
      let u : IsUnique (ids hs) = (closed, v.slots.one_handle) in
      let f = find_handle-of_IsIn h hs u (inl refl) in
      let gone : (g : Handle)
          → IsGone s.registry.open_handles s.next_serial g
          → IsGone (put_handle hs h') (s.next_serial + 1) g =
        λ g k.
          (has_key-put_handle h (held g) h' hs refl refl u f ∙ new_key h g k, omega (arith, k.1)) in
      record {
        slots = w;
        exact = λ k. rw e (ground (arith, v.exact k, refs_of-put_handle h k h' hs refl u f));
        young = rw e (
            All-put_handle (IsOld (s.next_serial + 1)) hs h'
              (omega arith, All-map _ _ s.registry.open_handles (λ x o. omega (arith, o)) v.young)
              (omega arith));
        evicted_gone =
            rw e (All-map _ _ s.evicted (λ (x : Eviction). gone x.handle) v.evicted_gone);
        discarded_gone = rw e (All-map _ _ s.discarding gone v.discarded_gone);
        closed_gone = rw e (All-map _ _ s.to_close gone v.closed_gone);
        reloaded_gone = rw e (All-map _ _ s.to_reload gone v.reloaded_gone);
      }
    where
      new_key :
          (h g : Handle)
          → IsGone s.registry.open_handles s.next_serial g
          → has_key (new_handle s id now ∷ s.registry.open_handles) (held g) ≡ false
      new_key h g k = ground (arith, k.0, k.1)

  pub opens-InUse :
      (id : String) (now : ℕ)
      → contains s.registry.opening id ≡ true
      → InUse (
          after_finish
            (record s { next_serial = s.next_serial + 1 })
            (finish_open s.registry id (some (new_handle s id now)) now))
  unfolding finish_open
  opens-InUse id now o = by_closing s.registry.closing (
      finish_open-Slots s.registry id (some (new_handle s id now)) now o (λ h e. same_id h e)
        v.slots)
    where
      same_id : (h : Handle) → some (new_handle s id now) ≡ some h → h.id ≡ id
      same_id h e = let e' : new_handle s id now ≡ h = cc in ap (λ (x : Handle). x.id) (sym e')

      by_closing :
          (closing : Bool)
          → Slots
              (after_open closing
                (record s.registry { opening = remove_id s.registry.opening id })
                (some (new_handle s id now))
                now).0
          → InUse (
              after_finish
                (record s { next_serial = s.next_serial + 1 })
                (after_open closing
                  (record s.registry { opening = remove_id s.registry.opening id })
                  (some (new_handle s id now))
                  now))
      by_closing false w =
          unfold after_open after_finish borrow_handle borrow_opened in
          opened-InUse _ id now (v.slots.apart id o) refl
            (unfold after_open borrow_handle borrow_opened in w)
      by_closing true w =
          unfold after_open after_finish in
          record {
            slots = unfold after_open in w;
            exact = next-InUse.exact;
            young = next-InUse.young;
            evicted_gone = next-InUse.evicted_gone;
            discarded_gone = (
              (has_key-old s.next_serial s.registry.open_handles id v.young, omega arith),
              next-InUse.discarded_gone,
            );
            closed_gone = next-InUse.closed_gone;
            reloaded_gone = next-InUse.reloaded_gone;
          }

  pub fails-InUse :
      (id : String) (now : ℕ)
      → contains s.registry.opening id ≡ true
      → InUse (after_finish s (finish_open s.registry id none now))
  unfolding finish_open
  fails-InUse id now o =
      by_closing s.registry.closing (finish_open-Slots s.registry id none now o (λ h e. cc) v.slots)
    where
      by_closing :
          (closing : Bool)
          → Slots
              (after_open closing
                (record s.registry { opening = remove_id s.registry.opening id })
                none
                now).0
          → InUse (
              after_finish s (
                after_open closing
                  (record s.registry { opening = remove_id s.registry.opening id })
                  none
                  now))
      by_closing true w =
          unfold after_open after_finish in same-InUse s v _ refl (unfold after_open in w)
      by_closing false w =
          unfold after_open after_finish in same-InUse s v _ refl (unfold after_open in w)
