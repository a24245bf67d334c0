-- ===== src/Registry/Done.antt =====
-- The state in which the runtime may be shut down.
use mcp_semantic_search_zvec.Prelude.{
  ℕ, ◌≡◌, refl, Bool, true, false, List, [], ◌∷◌, ◌++◌, none, String, eq_iff, length, arith,
}
use mcp_semantic_search_zvec.Window.Slices.{All}
use mcp_semantic_search_zvec.Ids.{Ids, contains}
use mcp_semantic_search_zvec.WorkspaceSpecs.{WorkspaceSpec}
use mcp_semantic_search_zvec.Registry.{Handle, find_handle, remove_id}
use mcp_semantic_search_zvec.Registry.Handles.{contains-remove_id}
use mcp_semantic_search_zvec.Registry.System.{System, Eviction, new_system, is_evicting}

-- The state in which nothing uses the runtime but what Close took out.
pub record IsDone (s : System) : Type 0 where
  pub closing : s.registry.closing ≡ true
  pub none_open : length s.registry.open_handles ≡ 0
  pub none_opening : length s.registry.opening ≡ 0
  pub none_discarding : length s.discarding ≡ 0

-- The shutdowns that there have been.
abbrev pub once : Bool → ℕ
once true = 1
once false = 0

pub record Drains (s : System) : Type 0 where
  pub counted : s.registry.discards ≡ length s.discarding
  pub openers : All (λ (e : Eviction). contains s.registry.opening e.opener ≡ true) s.evicted
  pub done : s.registry.runtime_shutdown_done ≡ true → IsDone s
  pub shut : s.shutdowns ≡ once s.registry.runtime_shutdown_done
  pub reserved :
      (id : String) → contains s.reservations id ≡ true → contains s.registry.opening id ≡ true
  pub not_reserved : All (λ (e : Eviction). contains s.reservations e.opener ≡ false) s.evicted
  pub reloading : All (λ (h : Handle). contains s.reservations h.id ≡ true) s.to_reload

pub new_system-Drains :
    (most : ℕ) (workspaces : List WorkspaceSpec) → Drains (new_system most workspaces)
unfolding new_system contains
new_system-Drains most workspaces = record {
  counted = refl;
  openers = tt;
  done = λ d. cc;
  shut = refl;
  reserved = λ id o. cc;
  not_reserved = tt;
  reloading = tt;
}

pub All-remove {ℓ κ} :
    {A : Type ℓ} (P : A → Type κ) (xs ys : List A) (a : A) → All P (xs ++ a ∷ ys) → All P (xs ++ ys)
All-remove P [] ys a h = h.1
All-remove P (x ∷ xs) ys a h = (h.0, All-remove P xs ys a h.1)

pub openers-cons :
    (opening : Ids) (id : String) (es : List Eviction)
    → All (λ (e : Eviction). contains opening e.opener ≡ true) es
    → All (λ (e : Eviction). contains (id ∷ opening) e.opener ≡ true) es
unfolding contains
openers-cons opening id [] h = tt
openers-cons opening id (e ∷ es) h = (ground (arith, h.0), openers-cons opening id es h.1)

pub openers-remove_id :
    (opening : Ids) (id : String) (es : List Eviction)
    → is_evicting es id ≡ false
    → All (λ (e : Eviction). contains opening e.opener ≡ true) es
    → All (λ (e : Eviction). contains (remove_id opening id) e.opener ≡ true) es
unfolding is_evicting
openers-remove_id opening id [] n h = tt
openers-remove_id opening id (e ∷ es) n h = (
  ground (
    arith,
    n,
    h.0,
    contains-remove_id opening id e.opener,
    eq_iff e.opener id,
    eq_iff id e.opener,
  ),
  openers-remove_id opening id es (ground (arith, n)) h.1,
)

pub contains_none : (xs : Ids) (id : String) → length xs ≡ 0 → contains xs id ≡ false
unfolding contains
contains_none [] id z = refl
contains_none (x ∷ xs) id z = absurd (omega (arith, z))

pub find_handle-none_of :
    (hs : List Handle) (id : String) → length hs ≡ 0 → find_handle hs id ≡ none
unfolding find_handle
find_handle-none_of [] id z = refl
find_handle-none_of (h ∷ hs) id z = absurd (omega (arith, z))
