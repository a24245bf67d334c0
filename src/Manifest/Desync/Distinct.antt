-- ===== src/Manifest/Desync/Distinct.antt =====
-- Which ids the manifest lists.
use mcp_semantic_search_zvec.Prelude.{
  ◌≡◌, Bool, false, ◌||◌, [], ◌∷◌, ◌++◌, String, str_eq, eq_iff, arith, Bool-cases, inl, inr,
}
use mcp_semantic_search_zvec.Ids.{Ids, contains}
use mcp_semantic_search_zvec.Ids.Sets.{IsUnique, IsUnique-append, contains-append}
use mcp_semantic_search_zvec.Manifest.{Manifest}
use mcp_semantic_search_zvec.Manifest.Desync.{add_ids, all_doc_ids_from, all_doc_ids}

-- Some entry has the id.
abbrev pub is_listed : Manifest → String → Bool
is_listed [] id = false
is_listed (e ∷ es) id = contains e.doc_ids id || is_listed es id

add_ids-IsUnique : (out ids : Ids) → IsUnique out → IsUnique (add_ids out ids)
unfolding add_ids
add_ids-IsUnique out [] u = u
add_ids-IsUnique out (x ∷ ids) u = elim (Bool-cases (str_eq x "" || contains out x)) [
  | inl skip ↦ rw skip (add_ids-IsUnique out ids u)
  | inr new ↦
      rw new (add_ids-IsUnique (out ++ x ∷ []) ids (IsUnique-append out x u (ground (arith, new))))
]

contains-add_ids :
    (out ids : Ids) (id : String)
    → str_eq id "" ≡ false
    → contains (add_ids out ids) id ≡ (contains out id || contains ids id)
unfolding add_ids contains
contains-add_ids out [] id h = ground arith
contains-add_ids out (x ∷ ids) id h = elim (Bool-cases (str_eq x "" || contains out x)) [
  | inl skip ↦ rw skip (
      ground
        (arith, contains-add_ids out ids id h, skip, eq_iff x id, eq_iff x "", eq_iff id "", h))
  | inr new ↦
      rw new
        (ground (arith, contains-add_ids (out ++ x ∷ []) ids id h, contains-append out (x ∷ []) id))
]

from_lem :
    (out : Ids) (m : Manifest)
    → IsUnique out
    → IsUnique (all_doc_ids_from out m)
      × ((id : String)
          → str_eq id "" ≡ false
          → contains (all_doc_ids_from out m) id ≡ (contains out id || is_listed m id))
unfolding all_doc_ids_from
from_lem out [] u = (u, λ id h. ground arith)
from_lem out (e ∷ es) u =
    let rest = from_lem (add_ids out e.doc_ids) es (add_ids-IsUnique out e.doc_ids u) in
    (rest.0, λ id h. ground (arith, rest.1 id h, contains-add_ids out e.doc_ids id h))

-- AllDocIDs lists no id twice, and a non-empty id exactly if some entry has it.
pub all_doc_ids_lem :
    (m : Manifest)
    → IsUnique (all_doc_ids m)
      × ((id : String) → str_eq id "" ≡ false → contains (all_doc_ids m) id ≡ is_listed m id)
unfolding all_doc_ids
all_doc_ids_lem m =
    let all = from_lem [] m tt in (all.0, λ id h. unfold contains in ground (arith, all.1 id h))
