-- ===== src/Registry/InUse.antt =====
-- Which handles are in use, and that none of those is closed.
use mcp_semantic_search_zvec.Prelude.{
  ℕ, ◌+◌, ◌<◌, ◌≡◌, refl, inl, inr, true, false, List, [], ◌∷◌, some, String, str_eq, eq_iff, ltb,
  ◌==◌, if◌then◌else◌, arith, Bool-cases,
}
use mcp_semantic_search_zvec.Window.Slices.{All}
use mcp_semantic_search_zvec.Ids.{contains}
use mcp_semantic_search_zvec.Ids.Sets.{IsUnique}
use mcp_semantic_search_zvec.Registry.{
  Handle, find_handle, remove_handle, put_handle, busy_handles, idle_handles,
}
use mcp_semantic_search_zvec.Registry.Handles.{ids, contains-busy_handles, find_handle-IsIn}
use mcp_semantic_search_zvec.Registry.Slots.{Slots}
use mcp_semantic_search_zvec.Registry.System.{
  System, Held, held, is_for, count_held, remove_held, Eviction,
}
use mcp_semantic_search_zvec.Registry.Keys.{refs_of, has_key, refs_of-absent, has_key-absent}

-- Out of the map for good: no handle of the map has its key, nor will a new one.
abbrev pub IsGone : List Handle → ℕ → Handle → Type 0
IsGone hs next g = (has_key hs (held g) ≡ false) × (g.serial < next)

abbrev pub IsOld : ℕ → Handle → Type 0
IsOld next h = h.serial < next

pub record InUse (s : System) : Type 0 where
  pub slots : Slots s.registry
  pub exact : (k : Held) → count_held s.borrows k ≡ refs_of s.registry.open_handles k
  pub young : All (IsOld s.next_serial) s.registry.open_handles
  pub evicted_gone :
      All (λ (e : Eviction). IsGone s.registry.open_handles s.next_serial e.handle) s.evicted
  pub discarded_gone : All (IsGone s.registry.open_handles s.next_serial) s.discarding
  pub closed_gone : All (IsGone s.registry.open_handles s.next_serial) s.to_close
  pub reloaded_gone : All (IsGone s.registry.open_handles s.next_serial) s.to_reload

pub All-map {ℓ κ μ} :
    {A : Type ℓ} (P : A → Type κ) (Q : A → Type μ) (xs : List A)
    → ((x : A) → P x → Q x)
    → All P xs
    → All Q xs
All-map P Q [] f h = tt
All-map P Q (x ∷ xs) f h = (f x h.0, All-map P Q xs f h.1)

pub All-find_handle :
    (P : Handle → Type 0) (hs : List Handle) (id : String) (h : Handle)
    → All P hs
    → find_handle hs id ≡ some h
    → P h
unfolding find_handle
All-find_handle P [] id h a f = cc
All-find_handle P (x ∷ hs) id h a f = elim (Bool-cases (str_eq x.id id)) [
  | inl same ↦ let f' : some x ≡ some h = rw same at f in let e : x ≡ h = cc in rw (← e) a.0
  | inr other ↦ All-find_handle P hs id h a.1 (rw other at f)
]

pub All-put_handle :
    (P : Handle → Type 0) (hs : List Handle) (h : Handle) → All P hs → P h → All P (put_handle hs h)
unfolding put_handle
All-put_handle P [] h a p = tt
All-put_handle P (x ∷ hs) h a p = elim (Bool-cases (str_eq x.id h.id)) [
  | inl same ↦ rw same (p, All-put_handle P hs h a.1 p)
  | inr other ↦ rw other (a.0, All-put_handle P hs h a.1 p)
]

pub All-remove_handle :
    (P : Handle → Type 0) (hs : List Handle) (id : String) → All P hs → All P (remove_handle hs id)
unfolding remove_handle
All-remove_handle P [] id a = tt
All-remove_handle P (x ∷ hs) id a = elim (Bool-cases (str_eq x.id id)) [
  | inl same ↦ rw same (All-remove_handle P hs id a.1)
  | inr other ↦ rw other (a.0, All-remove_handle P hs id a.1)
]

pub find_handle_id :
    (hs : List Handle) (id : String) (h : Handle) → find_handle hs id ≡ some h → h.id ≡ id
find_handle_id hs id h f = (find_handle-IsIn hs id h f).1

-- A borrow that is counted is of the handle that is found, in use.
pub refs_of-find_handle :
    (hs : List Handle) (k : Held)
    → IsUnique (ids hs)
    → 0 < refs_of hs k
    → ((h : Handle) → find_handle hs k.id ≡ some h → h.serial ≡ k.serial → h.refs ≡ 0)
    → ⊥
unfolding find_handle
refs_of-find_handle [] k u p old = absurd (omega (arith, p))
refs_of-find_handle (x ∷ hs) k u p old = elim (Bool-cases (str_eq x.id k.id)) [
  | inl same ↦
      let n : refs_of hs k ≡ 0 =
        refs_of-absent hs k (has_key-absent hs k (rw (← (eq_iff x.id k.id).0 same) u.0)) in
      let z : x.serial ≡ k.serial → x.refs ≡ 0 = old x (rw same refl) in
      elim (Bool-cases (x.serial == k.serial)) [
        | inl eq ↦ let z' = z (ground (arith, eq)) in absurd (ground (arith, p, n, z', same, eq))
        | inr ne ↦ absurd (ground (arith, p, n, ne))
      ]
  | inr other ↦
      refs_of-find_handle hs k u.1 (ground (arith, p, other)) (λ h f s. old h (rw other f) s)
]

pub count_held-remove_held :
    (bs : List Held) (b k : Held)
    → 0 < count_held bs b
    → count_held (remove_held bs b) k + (if is_for b k then 1 else 0) ≡ count_held bs k
unfolding count_held remove_held
count_held-remove_held [] b k p = absurd (omega (arith, p))
count_held-remove_held (a ∷ bs) b k p =
    ground
      (arith, count_held-remove_held bs b k, eq_iff a.id b.id, eq_iff a.id k.id, eq_iff b.id k.id)

idle_in : (hs : List Handle) → All (λ (g : Handle). contains (ids hs) g.id ≡ true) (idle_handles hs)
unfolding idle_handles contains
idle_in [] = tt
idle_in (x ∷ hs) =
    let rest =
      All-map (λ (g : Handle). contains (ids hs) g.id ≡ true)
        (λ (g : Handle). contains (ids (x ∷ hs)) g.id ≡ true) (idle_handles hs)
        (λ g h. ground (arith, h)) (idle_in hs) in
    elim (Bool-cases (ltb 0 x.refs)) [
      | inl busy ↦ rw busy rest
      | inr idle ↦ rw idle (ground (arith, eq_iff x.id x.id), rest)
    ]

pub All-idle_handles : (P : Handle → Type 0) (hs : List Handle) → All P hs → All P (idle_handles hs)
unfolding idle_handles
All-idle_handles P [] a = tt
All-idle_handles P (x ∷ hs) a = elim (Bool-cases (ltb 0 x.refs)) [
  | inl busy ↦ rw busy (All-idle_handles P hs a.1)
  | inr idle ↦ rw idle (a.0, All-idle_handles P hs a.1)
]

pub All-busy_handles : (P : Handle → Type 0) (hs : List Handle) → All P hs → All P (busy_handles hs)
unfolding busy_handles
All-busy_handles P [] a = tt
All-busy_handles P (x ∷ hs) a = elim (Bool-cases (ltb 0 x.refs)) [
  | inl busy ↦ rw busy (a.0, All-busy_handles P hs a.1)
  | inr idle ↦ rw idle (All-busy_handles P hs a.1)
]

pub idle-IsGone :
    (next : ℕ) (hs : List Handle)
    → IsUnique (ids hs)
    → All (IsOld next) hs
    → All (IsGone (busy_handles hs) next) (idle_handles hs)
unfolding idle_handles busy_handles
idle-IsGone next [] u y = tt
idle-IsGone next (x ∷ hs) u y = elim (Bool-cases (ltb 0 x.refs)) [
  | inr idle ↦ rw idle (
    (has_key-absent (busy_handles hs) (held x) (contains-busy_handles hs x.id u.0), y.0),
    idle-IsGone next hs u.1 y.1,
  )
  | inl busy ↦ rw busy (
      All-zip (λ (g : Handle). contains (ids hs) g.id ≡ true) (IsGone (busy_handles hs) next)
        (IsGone (x ∷ busy_handles hs) next) (idle_handles hs)
        (λ g c h. (ground (arith, c, u.0, h.0, eq_iff x.id g.id), h.1)) (idle_in hs)
        (idle-IsGone next hs u.1 y.1))
]
  where
    All-zip :
        (P Q R : Handle → Type 0) (xs : List Handle)
        → ((x : Handle) → P x → Q x → R x)
        → All P xs
        → All Q xs
        → All R xs
    All-zip P Q R [] f p q = tt
    All-zip P Q R (x ∷ xs) f p q = (f x p.0 q.0, All-zip P Q R xs f p.1 q.1)
