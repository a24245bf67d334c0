-- ===== src/Registry/Slots.antt =====
-- How many workspaces are open or being opened, and that none is twice.
use mcp_semantic_search_zvec.Prelude.{
  ℕ, ◌+◌, ◌-◌, ◌≡◌, refl, inl, inr, Bool, true, false, not, ◌&&◌, List, ◌∷◌, Option, none, some,
  String, str_eq, eq_iff, arith, Bool-cases,
}
use mcp_semantic_search_zvec.Ids.{contains}
use mcp_semantic_search_zvec.Ids.Sets.{IsUnique}
use mcp_semantic_search_zvec.Registry.{
  Handle, Registry, remove_handle, put_handle, remove_id, borrow_handle, reserve, begin_borrow,
  after_open, finish_open, release_last, release, begin_discard, end_discard,
  try_shutdown_runtime_after_drain, is_drained, begin_close, collect_idle,
}
use mcp_semantic_search_zvec.Registry.Begin.{begin_borrow_cases, release_cases}
use mcp_semantic_search_zvec.Registry.Handles.{
  ids, ids-put_handle, contains-remove_handle, remove_handle-IsUnique, contains-remove_id,
  remove_id-IsUnique, contains-busy_handles, busy_handles-IsUnique,
}

-- What holds of the maps whenever the mutex is free.
pub record Slots (r : Registry) : Type 0 where
  pub one_handle : IsUnique (ids r.open_handles)
  pub one_opener : IsUnique r.opening
  pub apart :
      (id : String) → contains r.opening id ≡ true → contains (ids r.open_handles) id ≡ false

module _ (r : Registry) (v : Slots r) where
  put_handle-Slots : (h : Handle) → Slots (record r { open_handles = put_handle r.open_handles h })
  put_handle-Slots h = record {
    one_handle = rw (ids-put_handle r.open_handles h) v.one_handle;
    one_opener = v.one_opener;
    apart = λ id o. rw (ids-put_handle r.open_handles h) (v.apart id o);
  }

  remove_handle-Slots :
      (id : String) → Slots (record r { open_handles = remove_handle r.open_handles id })
  remove_handle-Slots id = record {
    one_handle = remove_handle-IsUnique r.open_handles id v.one_handle;
    one_opener = v.one_opener;
    apart = λ x o. ground (arith, contains-remove_handle r.open_handles id x, v.apart x o);
  }

  pub remove_id-Slots : (id : String) → Slots (record r { opening = remove_id r.opening id })
  remove_id-Slots id = record {
    one_handle = v.one_handle;
    one_opener = remove_id-IsUnique r.opening id v.one_opener;
    apart = λ x o. v.apart x (ground (arith, o, contains-remove_id r.opening id x));
  }

  -- A new opener.
  reserve-Slots :
      (id : String) (kept : List Handle)
      → Slots (record r { open_handles = kept })
      → contains r.opening id ≡ false
      → contains (ids kept) id ≡ false
      → Slots (record r { open_handles = kept; opening = id ∷ r.opening })
  unfolding contains
  reserve-Slots id kept w new closed = record {
    one_handle = w.one_handle;
    one_opener = (new, v.one_opener);
    apart = λ x o. elim (Bool-cases (str_eq id x)) [
      | inl same ↦ rw (← (eq_iff id x).0 same) closed
      | inr other ↦ w.apart x (ground (arith, o, other))
    ];
  }

-- Slots reads neither of these.
pub other-Slots :
    (r : Registry) (closing done : Bool) (discards : ℕ)
    → Slots r
    → Slots (record r { closing = closing; runtime_shutdown_done = done; discards = discards })
other-Slots r closing done discards v = record {
  one_handle = v.one_handle;
  one_opener = v.one_opener;
  apart = v.apart;
}

pub begin_borrow-Slots :
    (r : Registry) (id : String) (now : ℕ) → Slots r → Slots (begin_borrow r id now).0
begin_borrow-Slots r id now v =
    begin_borrow_cases (λ p. Slots p.0) r id now (λ b i. v)
      (λ live h e.
        unfold borrow_handle in
        put_handle-Slots r v (record h { last_used = now; refs = h.refs + 1 }))
      (λ live new closed free. unfold reserve in reserve-Slots r v id r.open_handles v new closed)
      (λ live new closed h e.
        unfold reserve in
        reserve-Slots r v id (remove_handle r.open_handles h.id) (remove_handle-Slots r v h.id) new
          (ground (arith, contains-remove_handle r.open_handles h.id id, closed)))

pub open_one-Slots :
    (r : Registry) (id : String) (h : Handle)
    → contains r.opening id ≡ true
    → h.id ≡ id
    → Slots r
    → Slots (record r { opening = remove_id r.opening id; open_handles = h ∷ r.open_handles })
unfolding contains
open_one-Slots r id h o same v = record {
  one_handle = (rw same (v.apart id o), v.one_handle);
  one_opener = remove_id-IsUnique r.opening id v.one_opener;
  apart = λ x k.
      ground
        (arith, k, contains-remove_id r.opening id x, v.apart x, same, eq_iff id x, eq_iff h.id x);
}

pub finish_open-Slots :
    (r : Registry) (id : String) (o : Option Handle) (now : ℕ)
    → contains r.opening id ≡ true
    → ((h : Handle) → o ≡ some h → h.id ≡ id)
    → Slots r
    → Slots (finish_open r id o now).0
unfolding finish_open
finish_open-Slots r id o now opening same v = by_closing r.closing o same
  where
    removed : Slots (record r { opening = remove_id r.opening id })
    removed = remove_id-Slots r v id

    by_closing :
        (closing : Bool) (o : Option Handle)
        → ((h : Handle) → o ≡ some h → h.id ≡ id)
        → Slots (after_open closing (record r { opening = remove_id r.opening id }) o now).0
    by_closing true none same = removed
    by_closing false none same = removed
    by_closing true (some h) same =
        other-Slots (record r { opening = remove_id r.opening id }) r.closing
          r.runtime_shutdown_done (r.discards + 1) removed
    by_closing false (some h) same =
        put_handle-Slots
          (record r { opening = remove_id r.opening id; open_handles = h ∷ r.open_handles })
          (open_one-Slots r id h opening (same h refl) v)
          (record h { last_used = now; refs = h.refs + 1 })

pub release-Slots :
    (r : Registry) (id : String) (serial now : ℕ) → Slots r → Slots (release r id serial now).0
release-Slots r id serial now v =
    release_cases (λ p. Slots p.0) r id serial now (λ old. v)
      (λ h e s o. last r.closing (record h { refs = 0; last_used = now }))
      (λ h e s o. put_handle-Slots r v (record h { refs = h.refs - 1 }))
  where
    last : (closing : Bool) (h : Handle) → Slots (release_last closing r h).0
    last true h =
        unfold release_last in
        other-Slots (record r { open_handles = remove_handle r.open_handles h.id }) r.closing
          r.runtime_shutdown_done (r.discards + 1) (remove_handle-Slots r v h.id)
    last false h = unfold release_last in put_handle-Slots r v h

pub collect_idle-Slots : (r : Registry) → Slots r → Slots (collect_idle r).0
unfolding collect_idle
collect_idle-Slots r v = record {
  one_handle = busy_handles-IsUnique r.open_handles v.one_handle;
  one_opener = v.one_opener;
  apart = λ id o. contains-busy_handles r.open_handles id (v.apart id o);
}

pub begin_discard-Slots : (r : Registry) → Slots r → Slots (begin_discard r)
unfolding begin_discard
begin_discard-Slots r v = other-Slots r r.closing r.runtime_shutdown_done (r.discards + 1) v

pub end_discard-Slots : (r : Registry) → Slots r → Slots (end_discard r)
unfolding end_discard
end_discard-Slots r v = other-Slots r r.closing r.runtime_shutdown_done (r.discards - 1) v

pub begin_close-Slots : (r : Registry) → Slots r → Slots (begin_close r)
unfolding begin_close
begin_close-Slots r v = other-Slots r true r.runtime_shutdown_done r.discards v

pub try_shutdown-Slots : (r : Registry) → Slots r → Slots (try_shutdown_runtime_after_drain r).0
unfolding try_shutdown_runtime_after_drain
try_shutdown-Slots r v =
    elim (Bool-cases (r.closing && not r.runtime_shutdown_done && is_drained r)) [
      | inl now ↦
          rw now (record { one_handle = v.one_handle; one_opener = v.one_opener; apart = v.apart })
      | inr later ↦ rw later v
    ]
