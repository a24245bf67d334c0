-- ===== src/Registry/Handles.antt =====
-- Lists of handles as maps from the ids of workspaces.
use mcp_semantic_search_zvec.Prelude.{
  ◌≤◌, ◌<◌, ◌≡◌, refl, ◌⊎◌, inl, inr, true, false, not, ◌&&◌, List, [], ◌∷◌, none, some, String,
  str_eq, eq_iff, ltb, length, arith, Bool-cases, ap, sym, ◌∙◌,
}
use mcp_semantic_search_zvec.Ids.{Ids, contains}
use mcp_semantic_search_zvec.Ids.Sets.{IsUnique}
use mcp_semantic_search_zvec.Registry.{
  Handle, find_handle, remove_handle, put_handle, remove_id, busy_handles,
}

abbrev pub ids : List Handle → Ids
ids [] = []
ids (h ∷ hs) = h.id ∷ ids hs

pub ids-put_handle : (hs : List Handle) (h : Handle) → ids (put_handle hs h) ≡ ids hs
unfolding put_handle
ids-put_handle [] h = refl
ids-put_handle (x ∷ hs) h = ground (arith, ids-put_handle hs h, eq_iff x.id h.id)

pub length-put_handle : (hs : List Handle) (h : Handle) → length (put_handle hs h) ≡ length hs
unfolding put_handle
length-put_handle [] h = refl
length-put_handle (x ∷ hs) h = ground (arith, length-put_handle hs h)

pub contains-remove_handle :
    (hs : List Handle) (id x : String)
    → contains (ids (remove_handle hs id)) x ≡ (contains (ids hs) x && not (str_eq id x))
unfolding remove_handle contains
contains-remove_handle [] id x = refl
contains-remove_handle (h ∷ hs) id x =
    ground (arith, contains-remove_handle hs id x, eq_iff h.id id, eq_iff h.id x, eq_iff id x)

pub remove_handle-IsUnique :
    (hs : List Handle) (id : String) → IsUnique (ids hs) → IsUnique (ids (remove_handle hs id))
unfolding remove_handle
remove_handle-IsUnique [] id u = tt
remove_handle-IsUnique (h ∷ hs) id u = elim (Bool-cases (str_eq h.id id)) [
  | inl same ↦ rw same (remove_handle-IsUnique hs id u.1)
  | inr other ↦
      rw other
        (ground (arith, contains-remove_handle hs id h.id, u.0), remove_handle-IsUnique hs id u.1)
]

pub length-remove_handle-le :
    (hs : List Handle) (id : String) → length (remove_handle hs id) ≤ length hs
unfolding remove_handle
length-remove_handle-le [] id = omega arith
length-remove_handle-le (h ∷ hs) id = ground (arith, length-remove_handle-le hs id)

pub length-remove_handle :
    (hs : List Handle) (id : String)
    → contains (ids hs) id ≡ true
    → length (remove_handle hs id) < length hs
unfolding remove_handle contains
length-remove_handle [] id h = cc
length-remove_handle (x ∷ hs) id h =
    ground (arith, length-remove_handle hs id, length-remove_handle-le hs id)

pub contains-remove_id :
    (xs : Ids) (id x : String) → contains (remove_id xs id) x ≡ (contains xs x && not (str_eq id x))
unfolding remove_id contains
contains-remove_id [] id x = refl
contains-remove_id (y ∷ xs) id x =
    ground (arith, contains-remove_id xs id x, eq_iff y id, eq_iff y x, eq_iff id x)

pub remove_id-IsUnique : (xs : Ids) (id : String) → IsUnique xs → IsUnique (remove_id xs id)
unfolding remove_id
remove_id-IsUnique [] id u = tt
remove_id-IsUnique (y ∷ xs) id u = elim (Bool-cases (str_eq y id)) [
  | inl same ↦ rw same (remove_id-IsUnique xs id u.1)
  | inr other ↦
      rw other (ground (arith, contains-remove_id xs id y, u.0), remove_id-IsUnique xs id u.1)
]

pub length-remove_id-le : (xs : Ids) (id : String) → length (remove_id xs id) ≤ length xs
unfolding remove_id
length-remove_id-le [] id = omega arith
length-remove_id-le (y ∷ xs) id = ground (arith, length-remove_id-le xs id)

pub length-remove_id :
    (xs : Ids) (id : String) → contains xs id ≡ true → length (remove_id xs id) < length xs
unfolding remove_id contains
length-remove_id [] id h = cc
length-remove_id (y ∷ xs) id h = ground (arith, length-remove_id xs id, length-remove_id-le xs id)

pub contains-busy_handles :
    (hs : List Handle) (x : String)
    → contains (ids hs) x ≡ false
    → contains (ids (busy_handles hs)) x ≡ false
unfolding busy_handles contains
contains-busy_handles [] x h = refl
contains-busy_handles (y ∷ hs) x h = ground (arith, contains-busy_handles hs x)

pub busy_handles-IsUnique :
    (hs : List Handle) → IsUnique (ids hs) → IsUnique (ids (busy_handles hs))
unfolding busy_handles
busy_handles-IsUnique [] u = tt
busy_handles-IsUnique (h ∷ hs) u = elim (Bool-cases (ltb 0 h.refs)) [
  | inl busy ↦ rw busy (contains-busy_handles hs h.id u.0, busy_handles-IsUnique hs u.1)
  | inr idle ↦ rw idle (busy_handles-IsUnique hs u.1)
]

pub length-busy_handles : (hs : List Handle) → length (busy_handles hs) ≤ length hs
unfolding busy_handles
length-busy_handles [] = omega arith
length-busy_handles (h ∷ hs) = ground (arith, length-busy_handles hs)

-- The handle is one of the list.
abbrev pub IsIn : Handle → List Handle → Type 0
IsIn h [] = ⊥
IsIn h (x ∷ xs) = (h ≡ x) ⊎ IsIn h xs

pub contains_of_IsIn : (h : Handle) (hs : List Handle) → IsIn h hs → contains (ids hs) h.id ≡ true
unfolding contains
contains_of_IsIn h [] m = absurd m
contains_of_IsIn h (x ∷ hs) (inl e) = ground (arith, eq_iff x.id h.id, ap (λ (y : Handle). y.id) e)
contains_of_IsIn h (x ∷ hs) (inr m) = ground (arith, contains_of_IsIn h hs m)

pub find_handle-IsIn :
    (hs : List Handle) (id : String) (h : Handle)
    → find_handle hs id ≡ some h
    → IsIn h hs × (h.id ≡ id)
unfolding find_handle
find_handle-IsIn [] id h e = cc
find_handle-IsIn (x ∷ hs) id h e = elim (Bool-cases (str_eq x.id id)) [
  | inl same ↦
      let e0 : some x ≡ some h = rw same at e in
      let e' : x ≡ h = cc in
      (inl (sym e'), ap (λ (y : Handle). y.id) (sym e') ∙ (eq_iff x.id id).0 same)
  | inr other ↦ let rest = find_handle-IsIn hs id h (rw other at e) in (inr rest.0, rest.1)
]

pub find_handle-none :
    (hs : List Handle) (id : String) → find_handle hs id ≡ none → contains (ids hs) id ≡ false
unfolding find_handle contains
find_handle-none [] id e = refl
find_handle-none (x ∷ hs) id e = ground (arith, find_handle-none hs id)
