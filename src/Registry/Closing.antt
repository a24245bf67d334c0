-- ===== src/Registry/Closing.antt =====
-- Discarding and closing keep the handles in use apart from those that are closed.
use mcp_semantic_search_zvec.Prelude.{
  ℕ, ◌+◌, ◌≡◌, inl, inr, true, not, ◌&&◌, List, [], ◌∷◌, ◌++◌, Bool-cases, sym, ◌∙◌,
}
use mcp_semantic_search_zvec.Window.Slices.{All}
use mcp_semantic_search_zvec.Batches.Collected.{All-append}
use mcp_semantic_search_zvec.Registry.{
  Handle, begin_discard, end_discard, try_shutdown_runtime_after_drain, is_drained, collect_idle,
  busy_handles, idle_handles,
}
use mcp_semantic_search_zvec.Registry.Slots.{
  collect_idle-Slots, begin_discard-Slots, end_discard-Slots, other-Slots,
}
use mcp_semantic_search_zvec.Registry.System.{
  System, ClosePhase, held, Eviction, after_shutdown, after_collect,
}
use mcp_semantic_search_zvec.Registry.Keys.{refs_of-busy_handles, has_key-busy_handles}
use mcp_semantic_search_zvec.Registry.InUse.{
  IsGone, IsOld, InUse, All-map, All-busy_handles, idle-IsGone,
}
use mcp_semantic_search_zvec.Registry.Done.{All-remove}

All-middle {ℓ κ} :
    {A : Type ℓ} (P : A → Type κ) (xs ys : List A) (a : A) → All P (xs ++ a ∷ ys) → P a
All-middle P [] ys a h = h.0
All-middle P (x ∷ xs) ys a h = All-middle P xs ys a h.1

module _ (s : System) (v : InUse s) where
  pub begin_discard-InUse :
      (xs ys : List Eviction) (e : Eviction)
      → s.evicted ≡ xs ++ e ∷ ys
      → InUse (record s {
        registry = begin_discard s.registry;
        evicted = xs ++ ys;
        discarding = e.handle ∷ s.discarding;
      })
  begin_discard-InUse xs ys e split =
      let P : Eviction → Type 0 = λ x. IsGone s.registry.open_handles s.next_serial x.handle in
      let all : All P (xs ++ e ∷ ys) = rw split at v.evicted_gone in
      unfold begin_discard in
      record {
        slots = unfold begin_discard in begin_discard-Slots s.registry v.slots;
        exact = v.exact;
        young = v.young;
        evicted_gone = All-remove P xs ys e all;
        discarded_gone = (All-middle P xs ys e all, v.discarded_gone);
        closed_gone = v.closed_gone;
        reloaded_gone = v.reloaded_gone;
      }

  pub end_discard-InUse :
      (xs ys : List Handle) (h : Handle)
      → s.discarding ≡ xs ++ h ∷ ys
      → InUse (record s {
        registry = end_discard s.registry;
        discarding = xs ++ ys;
        trying = s.trying + 1;
      })
  end_discard-InUse xs ys h split =
      let all : All (IsGone s.registry.open_handles s.next_serial) (xs ++ h ∷ ys) =
        rw split at v.discarded_gone in
      unfold end_discard in
      record {
        slots = unfold end_discard in end_discard-Slots s.registry v.slots;
        exact = v.exact;
        young = v.young;
        evicted_gone = v.evicted_gone;
        discarded_gone = All-remove _ xs ys h all;
        closed_gone = v.closed_gone;
        reloaded_gone = v.reloaded_gone;
      }

  -- The same registry and handles, in another phase.
  pub phase-InUse :
      (trying : ℕ) (phase : ClosePhase) → InUse (record s { trying = trying; close_phase = phase })
  phase-InUse trying phase = record {
    slots = v.slots;
    exact = v.exact;
    young = v.young;
    evicted_gone = v.evicted_gone;
    discarded_gone = v.discarded_gone;
    closed_gone = v.closed_gone;
    reloaded_gone = v.reloaded_gone;
  }

  pub close-InUse :
      (xs ys : List Handle) (h : Handle)
      → s.to_close ≡ xs ++ h ∷ ys
      → InUse (record s { to_close = xs ++ ys })
  close-InUse xs ys h split =
      let all : All (IsGone s.registry.open_handles s.next_serial) (xs ++ h ∷ ys) =
        rw split at v.closed_gone in
      record {
        slots = v.slots;
        exact = v.exact;
        young = v.young;
        evicted_gone = v.evicted_gone;
        discarded_gone = v.discarded_gone;
        closed_gone = All-remove _ xs ys h all;
        reloaded_gone = v.reloaded_gone;
      }

  pub collect-InUse : InUse (after_collect s (collect_idle s.registry))
  collect-InUse =
      let hs = s.registry.open_handles in
      let gone : (g : Handle)
          → IsGone hs s.next_serial g
          → IsGone (busy_handles hs) s.next_serial g =
        λ g k. (has_key-busy_handles hs (held g) k.0, k.1) in
      unfold after_collect collect_idle in
      record {
        slots = unfold collect_idle in collect_idle-Slots s.registry v.slots;
        exact = λ k. v.exact k ∙ sym (refs_of-busy_handles hs k);
        young = All-busy_handles (IsOld s.next_serial) hs v.young;
        evicted_gone = All-map _ _ s.evicted (λ (x : Eviction). gone x.handle) v.evicted_gone;
        discarded_gone = All-map _ _ s.discarding gone v.discarded_gone;
        closed_gone =
            All-append (IsGone (busy_handles hs) s.next_serial) (idle_handles hs) s.to_close
              (idle-IsGone s.next_serial hs v.slots.one_handle v.young)
              (All-map _ _ s.to_close gone v.closed_gone);
        reloaded_gone = All-map _ _ s.to_reload gone v.reloaded_gone;
      }

  pub shutdown-InUse : InUse (after_shutdown s (try_shutdown_runtime_after_drain s.registry))
  unfolding try_shutdown_runtime_after_drain
  shutdown-InUse =
      elim (Bool-cases
        (s.registry.closing && not s.registry.runtime_shutdown_done && is_drained s.registry)) [
          | inl now ↦ simp now (
              unfold after_shutdown in
              record {
                slots = other-Slots s.registry s.registry.closing true s.registry.discards v.slots;
                exact = v.exact;
                young = v.young;
                evicted_gone = v.evicted_gone;
                discarded_gone = v.discarded_gone;
                closed_gone = v.closed_gone;
                reloaded_gone = v.reloaded_gone;
              })
          | inr later ↦ simp later (unfold after_shutdown in v)
        ]
