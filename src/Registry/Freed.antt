-- ===== src/Registry/Freed.antt =====
-- What the loop of a reload that detaches the changed collections leaves of the maps.
use mcp_semantic_search_zvec.Prelude.{
  ◌≡◌, refl, ◌⊎◌, inl, inr, Bool-cases, str_eq, ap, true, false, List, [], ◌∷◌, Option, none, some,
  String, eq_iff, arith, sym, ◌∙◌,
}
use mcp_semantic_search_zvec.Ids.{Ids, contains}
use mcp_semantic_search_zvec.Ids.Sets.{IsUnique}
use mcp_semantic_search_zvec.Registry.{Handle, Registry, find_handle, remove_handle, remove_id}
use mcp_semantic_search_zvec.Registry.Reload.{put_id, detach_one, remove_ids}
use mcp_semantic_search_zvec.Registry.Handles.{
  ids, contains-remove_handle, remove_handle-IsUnique, find_handle-none,
}
use mcp_semantic_search_zvec.Registry.Slots.{Slots, remove_id-Slots}
use mcp_semantic_search_zvec.Registry.System.{Held}
use mcp_semantic_search_zvec.Registry.Keys.{refs_of, refs_of-remove_handle, remove_handle-absent}
use mcp_semantic_search_zvec.Registry.InUse.{find_handle_id}

-- The handle of the id, if any, has no borrow.
abbrev pub IsFree : List Handle → String → Type 0
IsFree hs id = (h : Handle) → find_handle hs id ≡ some h → h.refs ≡ 0

find_handle-removed : (hs : List Handle) (id : String) → find_handle (remove_handle hs id) id ≡ none
unfolding find_handle remove_handle
find_handle-removed [] id = refl
find_handle-removed (x ∷ hs) id = elim (Bool-cases (str_eq x.id id)) [
  | inl same ↦ simp same (find_handle-removed hs id)
  | inr other ↦ simp (other, other) (find_handle-removed hs id)
]

pub find_handle-remove_handle :
    (hs : List Handle) (a id : String) (h : Handle)
    → find_handle (remove_handle hs a) id ≡ some h
    → find_handle hs id ≡ some h
unfolding find_handle remove_handle
find_handle-remove_handle [] a id h e = e
find_handle-remove_handle (x ∷ hs) a id h e = elim (Bool-cases (str_eq x.id a)) [
  | inl same ↦
      let e' : find_handle (remove_handle hs a) id ≡ some h = simp same at e in
      elim (Bool-cases (str_eq x.id id)) [
        | inl now ↦
            let i : a ≡ id = sym ((eq_iff x.id a).0 same) ∙ (eq_iff x.id id).0 now in
            let n : find_handle (remove_handle hs a) id ≡ none = rw i (find_handle-removed hs id) in
            absurd (none_some h (sym n ∙ e'))
        | inr later ↦ simp later (find_handle-remove_handle hs a id h e')
      ]
  | inr other ↦ elim (Bool-cases (str_eq x.id id)) [
    | inl now ↦ simp now (simp (other, now) at e)
    | inr later ↦ simp later (find_handle-remove_handle hs a id h (simp (other, later) at e))
  ]
]
  where
    none_some : (h : Handle) → none ≡ some h → ⊥
    none_some h e = cc

pub refs_of-detached :
    (hs : List Handle) (id : String) (k : Held)
    → IsUnique (ids hs)
    → IsFree hs id
    → refs_of (remove_handle hs id) k ≡ refs_of hs k
refs_of-detached hs id k u free = by_found (find_handle hs id) refl
  where
    by_found :
        (o : Option Handle) → find_handle hs id ≡ o → refs_of (remove_handle hs id) k ≡ refs_of hs k
    by_found none e = rw (remove_handle-absent hs id (find_handle-none hs id e)) refl
    by_found (some h) e =
        let i : h.id ≡ id = find_handle_id hs id h e in
        let f : find_handle hs h.id ≡ some h = ap (find_handle hs) i ∙ e in
        rw (← i) (ground (arith, free h e, refs_of-remove_handle h k hs u f))

put_id-IsUnique : (xs : Ids) (id : String) → IsUnique xs → IsUnique (put_id xs id)
unfolding put_id
put_id-IsUnique xs id u = elim (Bool-cases (contains xs id)) [
  | inl there ↦ rw there u
  | inr new ↦ rw new (new, u)
]

contains-put_id_new :
    (xs : Ids) (id x : String)
    → contains (put_id xs id) x ≡ true
    → contains xs x ≡ false
    → str_eq id x ≡ true
unfolding put_id contains
contains-put_id_new xs id x o new = elim (Bool-cases (contains xs id)) [
  | inl there ↦ let o' : contains xs x ≡ true = rw there at o in absurd (ground (arith, o', new))
  | inr absent ↦ let o' : contains (id ∷ xs) x ≡ true = rw absent at o in ground (arith, o', new)
]

pub detach_one-Slots : (r : Registry) (id : String) → Slots r → Slots (detach_one r id)
unfolding detach_one
detach_one-Slots r id v = record {
  one_handle = remove_handle-IsUnique r.open_handles id v.one_handle;
  one_opener = put_id-IsUnique r.opening id v.one_opener;
  apart = λ x o. apart_of x (Bool-cases (contains r.opening x)) o;
}
  where
    apart_of :
        (x : String)
        → (contains r.opening x ≡ true) ⊎ (contains r.opening x ≡ false)
        → contains (put_id r.opening id) x ≡ true
        → contains (ids (remove_handle r.open_handles id)) x ≡ false
    apart_of x (inl there) o =
        ground (arith, contains-remove_handle r.open_handles id x, v.apart x there)
    apart_of x (inr new) o =
        let e = contains-put_id_new r.opening id x o new in
        ground (arith, contains-remove_handle r.open_handles id x, e)

pub remove_ids-Slots :
    (ids : Ids) (r : Registry) → Slots r → Slots (record r { opening = remove_ids r.opening ids })
unfolding remove_ids
remove_ids-Slots [] r v = v
remove_ids-Slots (id ∷ ids) r v =
    remove_ids-Slots ids (record r { opening = remove_id r.opening id }) (remove_id-Slots r v id)
