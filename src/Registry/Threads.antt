-- ===== src/Registry/Threads.antt =====
-- Borrowing, opening and releasing, and the shutdown of the runtime.
use mcp_semantic_search_zvec.Prelude.{
  ℕ, ◌≡◌, Bool, true, false, inl, inr, ◌∷◌, Bool-cases, Option, none, some, String, eq_iff, arith,
  sym, ◌∙◌,
}
use mcp_semantic_search_zvec.Ids.{contains}
use mcp_semantic_search_zvec.Registry.{
  Handle, find_handle, remove_id, borrow_handle, reserve, begin_borrow, Borrow, borrowed, reserved,
  id_required, registry_closing, unknown_workspace, all_in_use, waits, borrow_opened, after_open,
  finish_open, release_last, release,
}
use mcp_semantic_search_zvec.Registry.Begin.{IsInert, begin_borrow_cases, release_cases}
use mcp_semantic_search_zvec.Registry.Handles.{contains-remove_id}
use mcp_semantic_search_zvec.Registry.System.{
  System, Held, after_begin, after_finish, after_release, is_evicting,
}
use mcp_semantic_search_zvec.Registry.Done.{
  Drains, openers-cons, openers-remove_id, contains_none, find_handle-none_of,
}

module _ (s : System) (v : Drains s) where
  -- A registry that is not closing has not shut down.
  pub not_done : s.registry.closing ≡ false → s.registry.runtime_shutdown_done ≡ true → ⊥
  not_done live d = let c = (v.done d).closing in absurd (ground (arith, c, live))

  -- A reload reserves only ids that have an opener.
  pub new_not_reserved :
      (id : String) → contains s.registry.opening id ≡ false → contains s.reservations id ≡ false
  new_not_reserved id new = elim (Bool-cases (contains s.reservations id)) [
    | inl taken ↦ let o = v.reserved id taken in absurd (ground (arith, o, new))
    | inr free ↦ free
  ]

  reserved-cons :
      (id x : String)
      → contains s.reservations x ≡ true
      → contains (id ∷ s.registry.opening) x ≡ true
  reserved-cons id x o = let k = v.reserved x o in unfold contains in ground (arith, k)

  reserved-remove_id :
      (id : String)
      → contains s.reservations id ≡ false
      → (x : String) → contains s.reservations x ≡ true
      → contains (remove_id s.registry.opening id) x ≡ true
  reserved-remove_id id free x o =
      ground
        (arith, o, free, v.reserved x o, contains-remove_id s.registry.opening id x, eq_iff id x)

  pub begin-Drains :
      (id : String) (now : ℕ) → Drains (after_begin s id (begin_borrow s.registry id now))
  begin-Drains id now =
      begin_borrow_cases (λ p. Drains (after_begin s id p)) s.registry id now inert
        (λ live h e.
          unfold borrow_handle after_begin in
          record {
            counted = v.counted;
            openers = v.openers;
            done = λ d. absurd (not_done live d);
            shut = v.shut;
            reserved = v.reserved;
            not_reserved = v.not_reserved;
            reloading = v.reloading;
          })
        (λ live new closed free.
          unfold reserve after_begin in
          record {
            counted = v.counted;
            openers = openers-cons s.registry.opening id s.evicted v.openers;
            done = λ d. absurd (not_done live d);
            shut = v.shut;
            reserved = reserved-cons id;
            not_reserved = v.not_reserved;
            reloading = v.reloading;
          })
        (λ live new closed h e.
          unfold reserve after_begin in
          record {
            counted = v.counted;
            openers = (
              unfold contains in ground (arith, eq_iff id id),
              openers-cons s.registry.opening id s.evicted v.openers,
            );
            done = λ d. absurd (not_done live d);
            shut = v.shut;
            reserved = reserved-cons id;
            not_reserved = (new_not_reserved id new, v.not_reserved);
            reloading = v.reloading;
          })
    where
      inert : (b : Borrow) → IsInert b → Drains (after_begin s id (s.registry, b))
      inert id_required i = unfold after_begin in v
      inert registry_closing i = unfold after_begin in v
      inert unknown_workspace i = unfold after_begin in v
      inert all_in_use i = unfold after_begin in v
      inert waits i = unfold after_begin in v
      inert (borrowed h) i = absurd i
      inert (reserved o) i = absurd i

  -- A thread that opens a workspace rules a shutdown out.
  pub opening_not_done :
      (id : String)
      → contains s.registry.opening id ≡ true
      → s.registry.runtime_shutdown_done ≡ true
      → ⊥
  opening_not_done id o d =
      let n = contains_none s.registry.opening id (v.done d).none_opening in
      absurd (ground (arith, n, o))

  pub finish-Drains :
      (id : String) (serial : ℕ) (o : Option Handle) (now : ℕ)
      → contains s.registry.opening id ≡ true
      → is_evicting s.evicted id ≡ false
      → contains s.reservations id ≡ false
      → Drains (after_finish (record s { next_serial = serial }) (finish_open s.registry id o now))
  unfolding finish_open after_open after_finish borrow_handle borrow_opened
  finish-Drains id serial o now opening idle free = by_closing s.registry.closing o
    where
      by_closing :
          (closing : Bool) (o : Option Handle)
          → Drains (
              after_finish
                (record s { next_serial = serial })
                (after_open closing
                  (record s.registry { opening = remove_id s.registry.opening id })
                  o
                  now))
      by_closing true none = record {
        counted = v.counted;
        openers = openers-remove_id s.registry.opening id s.evicted idle v.openers;
        done = λ d. absurd (opening_not_done id opening d);
        shut = v.shut;
        reserved = reserved-remove_id id free;
        not_reserved = v.not_reserved;
        reloading = v.reloading;
      }
      by_closing false none = record {
        counted = v.counted;
        openers = openers-remove_id s.registry.opening id s.evicted idle v.openers;
        done = λ d. absurd (opening_not_done id opening d);
        shut = v.shut;
        reserved = reserved-remove_id id free;
        not_reserved = v.not_reserved;
        reloading = v.reloading;
      }
      by_closing true (some h) = record {
        counted = omega (arith, v.counted);
        openers = openers-remove_id s.registry.opening id s.evicted idle v.openers;
        done = λ d. absurd (opening_not_done id opening d);
        shut = v.shut;
        reserved = reserved-remove_id id free;
        not_reserved = v.not_reserved;
        reloading = v.reloading;
      }
      by_closing false (some h) = record {
        counted = v.counted;
        openers = openers-remove_id s.registry.opening id s.evicted idle v.openers;
        done = λ d. absurd (opening_not_done id opening d);
        shut = v.shut;
        reserved = reserved-remove_id id free;
        not_reserved = v.not_reserved;
        reloading = v.reloading;
      }

  -- A handle of the map rules a shutdown out.
  open_not_done :
      (id : String) (h : Handle)
      → find_handle s.registry.open_handles id ≡ some h
      → s.registry.runtime_shutdown_done ≡ true
      → ⊥
  open_not_done id h e d =
      let n = find_handle-none_of s.registry.open_handles id (v.done d).none_open in
      absurd_some (sym n ∙ e)
    where
      absurd_some : {A : Type 0} {a : A} → none ≡ some a → ⊥
      absurd_some e = cc

  pub release-Drains :
      (b : Held) (now : ℕ) → Drains (after_release s b (release s.registry b.id b.serial now))
  release-Drains b now =
      release_cases (λ p. Drains (after_release s b p)) s.registry b.id b.serial now
        (λ old.
          unfold after_release in
          record {
            counted = v.counted;
            openers = v.openers;
            done = λ d.
                let w = v.done d in
                record {
                  closing = w.closing;
                  none_open = w.none_open;
                  none_opening = w.none_opening;
                  none_discarding = w.none_discarding;
                };
            shut = v.shut;
            reserved = v.reserved;
            not_reserved = v.not_reserved;
            reloading = v.reloading;
          })
        (λ h e q o. last h e s.registry.closing (record h { refs = 0; last_used = now }))
        (λ h e q o.
          unfold after_release in
          record {
            counted = v.counted;
            openers = v.openers;
            done = λ d. absurd (open_not_done b.id h e d);
            shut = v.shut;
            reserved = v.reserved;
            not_reserved = v.not_reserved;
            reloading = v.reloading;
          })
    where
      last :
          (h : Handle)
          → find_handle s.registry.open_handles b.id ≡ some h
          → (closing : Bool) (h' : Handle)
          → Drains (after_release s b (release_last closing s.registry h'))
      last h e true h' =
          unfold release_last after_release in
          record {
            counted = omega (arith, v.counted);
            openers = v.openers;
            done = λ d. absurd (open_not_done b.id h e d);
            shut = v.shut;
            reserved = v.reserved;
            not_reserved = v.not_reserved;
            reloading = v.reloading;
          }
      last h e false h' =
          unfold release_last after_release in
          record {
            counted = v.counted;
            openers = v.openers;
            done = λ d. absurd (open_not_done b.id h e d);
            shut = v.shut;
            reserved = v.reserved;
            not_reserved = v.not_reserved;
            reloading = v.reloading;
          }
