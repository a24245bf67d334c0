-- ===== src/Registry/Keys.antt =====
-- The references of the handles of a list, by workspace and serial number.
use mcp_semantic_search_zvec.Prelude.{
  ℕ, ◌+◌, ◌<◌, ◌≡◌, refl, inl, inr, Bool, true, false, ◌||◌, List, [], ◌∷◌, some, String, str_eq,
  eq_iff, if◌then◌else◌, arith, Bool-cases,
}
use mcp_semantic_search_zvec.Window.Slices.{All}
use mcp_semantic_search_zvec.Ids.{contains}
use mcp_semantic_search_zvec.Ids.Sets.{IsUnique}
use mcp_semantic_search_zvec.Registry.{Handle, find_handle, remove_handle, put_handle, busy_handles}
use mcp_semantic_search_zvec.Registry.Handles.{ids, IsIn, contains_of_IsIn}
use mcp_semantic_search_zvec.Registry.System.{Held, held, is_for}

abbrev pub refs_if : Handle → Held → ℕ
refs_if h k = if is_for (held h) k then h.refs else 0

-- The references of the handle with that key, 0 if there is none.
abbrev pub refs_of : List Handle → Held → ℕ
refs_of [] k = 0
refs_of (h ∷ hs) k = refs_if h k + refs_of hs k

abbrev pub has_key : List Handle → Held → Bool
has_key [] k = false
has_key (h ∷ hs) k = is_for (held h) k || has_key hs k

pub refs_of-absent : (hs : List Handle) (k : Held) → has_key hs k ≡ false → refs_of hs k ≡ 0
refs_of-absent [] k a = refl
refs_of-absent (h ∷ hs) k a = ground (arith, refs_of-absent hs k)

put_handle-absent :
    (hs : List Handle) (h : Handle) → contains (ids hs) h.id ≡ false → put_handle hs h ≡ hs
unfolding put_handle contains
put_handle-absent [] h a = refl
put_handle-absent (x ∷ hs) h a = ground (arith, put_handle-absent hs h)

pub remove_handle-absent :
    (hs : List Handle) (id : String) → contains (ids hs) id ≡ false → remove_handle hs id ≡ hs
unfolding remove_handle contains
remove_handle-absent [] id a = refl
remove_handle-absent (x ∷ hs) id a = ground (arith, remove_handle-absent hs id)

-- Where the ids are distinct, the handle of an id is the one that is found.
pub find_handle-of_IsIn :
    (h : Handle) (hs : List Handle) → IsUnique (ids hs) → IsIn h hs → find_handle hs h.id ≡ some h
unfolding find_handle
find_handle-of_IsIn h [] u m = absurd m
find_handle-of_IsIn h (x ∷ hs) u (inl e) = rw e (ground (arith, eq_iff x.id x.id))
find_handle-of_IsIn h (x ∷ hs) u (inr m) =
    ground (arith, find_handle-of_IsIn h hs u.1 m, contains_of_IsIn h hs m, eq_iff x.id h.id, u.0)

module _ (h : Handle) (k : Held) where
  pub refs_of-remove_handle :
      (hs : List Handle)
      → IsUnique (ids hs)
      → find_handle hs h.id ≡ some h
      → refs_of (remove_handle hs h.id) k + refs_if h k ≡ refs_of hs k
  unfolding remove_handle find_handle
  refs_of-remove_handle [] u f = cc
  refs_of-remove_handle (x ∷ hs) u f = elim (Bool-cases (str_eq x.id h.id)) [
    | inl same ↦
        let f' : some x ≡ some h = rw same at f in
        let e : x ≡ h = cc in
        rw (same, remove_handle-absent hs h.id (rw (← (eq_iff x.id h.id).0 same) u.0), e)
          (omega arith)
    | inr other ↦ rw other (
        let f' : find_handle hs h.id ≡ some h = rw other at f in
        omega (arith, refs_of-remove_handle hs u.1 f'))
  ]

  pub refs_of-put_handle :
      (h' : Handle) (hs : List Handle)
      → h'.id ≡ h.id
      → IsUnique (ids hs)
      → find_handle hs h.id ≡ some h
      → refs_of (put_handle hs h') k + refs_if h k ≡ refs_of hs k + refs_if h' k
  unfolding put_handle find_handle
  refs_of-put_handle h' [] i u f = cc
  refs_of-put_handle h' (x ∷ hs) i u f = elim (Bool-cases (str_eq x.id h.id)) [
    | inl same ↦
        let f' : some x ≡ some h = rw same at f in
        let e : x ≡ h = cc in
        let a : contains (ids hs) h'.id ≡ false = rw (i, ← (eq_iff x.id h.id).0 same) u.0 in
        let p = put_handle-absent hs h' a in
        let same' : str_eq x.id h'.id ≡ true = rw i same in rw (same', p, ← e) (omega arith)
    | inr other ↦
        let other' : str_eq x.id h'.id ≡ false = rw i other in
        let f' : find_handle hs h.id ≡ some h = rw other at f in
        rw other' (omega (arith, refs_of-put_handle h' hs i u.1 f'))
  ]

  pub has_key-put_handle :
      (h' : Handle) (hs : List Handle)
      → h'.id ≡ h.id
      → h'.serial ≡ h.serial
      → IsUnique (ids hs)
      → find_handle hs h.id ≡ some h
      → has_key (put_handle hs h') k ≡ has_key hs k
  unfolding put_handle find_handle
  has_key-put_handle h' [] i n u f = refl
  has_key-put_handle h' (x ∷ hs) i n u f = elim (Bool-cases (str_eq x.id h.id)) [
    | inl same ↦
        let f' : some x ≡ some h = rw same at f in
        let e : x ≡ h = cc in
        let a : contains (ids hs) h'.id ≡ false = rw (i, ← (eq_iff x.id h.id).0 same) u.0 in
        let p = put_handle-absent hs h' a in
        let same' : str_eq x.id h'.id ≡ true = rw i same in rw (same', p, i, n, e) refl
    | inr other ↦
        let other' : str_eq x.id h'.id ≡ false = rw i other in
        let f' : find_handle hs h.id ≡ some h = rw other at f in
        rw (other', has_key-put_handle h' hs i n u.1 f') refl
  ]

pub has_key-remove_handle :
    (hs : List Handle) (id : String) (k : Held)
    → has_key hs k ≡ false
    → has_key (remove_handle hs id) k ≡ false
unfolding remove_handle
has_key-remove_handle [] id k h = refl
has_key-remove_handle (x ∷ hs) id k h = ground (arith, has_key-remove_handle hs id k)

pub has_key-remove_handle_self :
    (hs : List Handle) (id : String) (serial : ℕ)
    → has_key (remove_handle hs id) (record { id = id; serial = serial }) ≡ false
unfolding remove_handle
has_key-remove_handle_self [] id serial = refl
has_key-remove_handle_self (x ∷ hs) id serial =
    ground (arith, has_key-remove_handle_self hs id serial)

pub refs_of-busy_handles :
    (hs : List Handle) (k : Held) → refs_of (busy_handles hs) k ≡ refs_of hs k
unfolding busy_handles
refs_of-busy_handles [] k = refl
refs_of-busy_handles (x ∷ hs) k = ground (arith, refs_of-busy_handles hs k)

pub has_key-busy_handles :
    (hs : List Handle) (k : Held) → has_key hs k ≡ false → has_key (busy_handles hs) k ≡ false
unfolding busy_handles
has_key-busy_handles [] k h = refl
has_key-busy_handles (x ∷ hs) k h = ground (arith, has_key-busy_handles hs k)

pub has_key-old :
    (next : ℕ) (hs : List Handle) (id : String)
    → All (λ (h : Handle). h.serial < next) hs
    → has_key hs (record { id = id; serial = next }) ≡ false
has_key-old next [] id h = refl
has_key-old next (x ∷ hs) id h = ground (arith, h.0, has_key-old next hs id h.1)

pub has_key-absent :
    (hs : List Handle) (k : Held) → contains (ids hs) k.id ≡ false → has_key hs k ≡ false
unfolding contains
has_key-absent [] k h = refl
has_key-absent (x ∷ hs) k h = ground (arith, has_key-absent hs k)
