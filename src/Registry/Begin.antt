-- ===== src/Registry/Begin.antt =====
-- The ways in which the first part of BorrowService and the callback of a borrow end.
use mcp_semantic_search_zvec.Prelude.{
  ℕ, ◌+◌, ◌-◌, ◌<◌, ◌≡◌, refl, ltb, ◌&&◌, ◌==◌, arith, inl, inr, Bool, true, false, if◌then◌else◌,
  Option, none, some, String, str_eq, leb, length, Bool-cases, sym, ap, ◌∙◌,
}
use mcp_semantic_search_zvec.Ids.{contains}
use mcp_semantic_search_zvec.Registry.{
  Handle, Registry, find_handle, remove_handle, oldest_idle, evict, borrow_handle, reserve,
  make_room, reserve_open_slot, borrow_open, begin_borrow, put_handle, release, release_found,
  release_last, Borrow, borrowed, reserved, id_required, registry_closing, unknown_workspace,
  all_in_use, waits, is_open,
}
use mcp_semantic_search_zvec.WorkspaceSpecs.{spec_by_id, is_known}
use mcp_semantic_search_zvec.Registry.Handles.{ids, find_handle-none}

-- An outcome that comes with no change of the registry.
abbrev pub IsInert : Borrow → Type 0
IsInert id_required = Unit
IsInert registry_closing = Unit
IsInert unknown_workspace = Unit
IsInert all_in_use = Unit
IsInert waits = Unit
IsInert (borrowed h) = ⊥
IsInert (reserved o) = ⊥

module _ {ℓ} (P : Registry × Borrow → Type ℓ) (r : Registry) (id : String) (now : ℕ)
    (inert : (b : Borrow) → IsInert b → P (r, b))
    (borrows : r.closing ≡ false
      → (h : Handle) → find_handle r.open_handles id ≡ some h
      → P (borrow_handle r h now))
    (reserves : r.closing ≡ false
      → contains r.opening id ≡ false
      → contains (ids r.open_handles) id ≡ false
      → leb r.max_open_workspaces (length r.open_handles + length r.opening) ≡ false
      → P (reserve id (r, none)))
    (evicts : r.closing ≡ false
      → contains r.opening id ≡ false
      → contains (ids r.open_handles) id ≡ false
      → (h : Handle) → oldest_idle none r.open_handles ≡ some h
      → P (
          reserve id (record r { open_handles = remove_handle r.open_handles h.id }, some h))) where
  open_slot_cases :
      r.closing ≡ false
      → contains r.opening id ≡ false
      → contains (ids r.open_handles) id ≡ false
      → find_handle r.open_handles id ≡ none
      → P (reserve_open_slot r id)
  unfolding reserve_open_slot is_open
  open_slot_cases live new closed e =
      elim (Bool-cases (leb r.max_open_workspaces (length r.open_handles + length r.opening))) [
        | inl full ↦ simp (e, new, full) (by_oldest (oldest_idle none r.open_handles) refl)
        | inr free ↦ simp (e, new, free) (reserves live new closed free)
      ]
    where
      by_oldest :
          (o : Option Handle) → oldest_idle none r.open_handles ≡ o → P (make_room id (evict r o))
      by_oldest none e = inert all_in_use tt
      by_oldest (some h) e = evicts live new closed h e

  borrow_open_cases :
      r.closing ≡ false
      → (o : Option Handle) → find_handle r.open_handles id ≡ o
      → P (borrow_open r id now o)
  unfolding borrow_open
  borrow_open_cases live (some h) e = borrows live h e
  borrow_open_cases live none e = by_opener (contains r.opening id) refl
    where
      by_opener :
          (w : Bool)
          → contains r.opening id ≡ w
          → P (if w then (r, waits) else reserve_open_slot r id)
      by_opener true wait = inert waits tt
      by_opener false new = open_slot_cases live new (find_handle-none r.open_handles id e) e

  pub begin_borrow_cases : P (begin_borrow r id now)
  unfolding begin_borrow
  begin_borrow_cases = elim (Bool-cases (str_eq id "")) [
    | inl empty ↦ simp empty (inert id_required tt)
    | inr some_id ↦ elim (Bool-cases r.closing) [
      | inl closing ↦ simp (some_id, closing) (inert registry_closing tt)
      | inr live ↦ elim (Bool-cases (is_known (spec_by_id r.workspaces id))) [
        | inr unknown ↦ simp (some_id, live, unknown) (inert unknown_workspace tt)
        | inl known ↦
            simp (some_id, live, known)
              (borrow_open_cases live (find_handle r.open_handles id) refl)
      ]
    ]
  ]

module _ {ℓ} (P : Registry × Option Handle → Type ℓ) (r : Registry) (id : String) (serial now : ℕ)
    (stale : ((h : Handle)
        → find_handle r.open_handles id ≡ some h
        → h.serial ≡ serial
        → h.refs ≡ 0)
      → P (r, none))
    (last : (h : Handle)
      → find_handle r.open_handles id ≡ some h
      → h.serial ≡ serial
      → h.refs ≡ 1
      → P (release_last r.closing r (record h { refs = 0; last_used = now })))
    (shared : (h : Handle)
      → find_handle r.open_handles id ≡ some h
      → h.serial ≡ serial
      → 1 < h.refs
      → P (
        record r { open_handles = put_handle r.open_handles (record h { refs = h.refs - 1 }) },
        none,
      )) where
  release_found_cases :
      (o : Option Handle) → find_handle r.open_handles id ≡ o → P (release_found r serial now o)
  unfolding release_found
  release_found_cases none e = stale (λ h e'. cc)
  release_found_cases (some h) e = elim (Bool-cases (h.serial == serial && ltb 0 h.refs)) [
    | inr old ↦ simp old (stale λ h' e'. unheld h h' old (some_eq h h' (sym e ∙ e')))
    | inl held ↦ elim (Bool-cases (h.refs == 1)) [
      | inl only ↦ simp (held, only) (last h e (ground (arith, held)) (ground (arith, only)))
      | inr more ↦
          simp (held, more) (shared h e (ground (arith, held)) (ground (arith, held, more)))
    ]
  ]
    where
      some_eq : (h h' : Handle) → some h ≡ some h' → h ≡ h'
      some_eq h h' e = cc

      unheld :
          (h h' : Handle)
          → (h.serial == serial && ltb 0 h.refs) ≡ false
          → h ≡ h'
          → h'.serial ≡ serial
          → h'.refs ≡ 0
      unheld h h' old e s = rw (← e) (ground (arith, old, s, ap (λ (x : Handle). x.serial) e))

  pub release_cases : P (release r id serial now)
  unfolding release
  release_cases = release_found_cases (find_handle r.open_handles id) refl
