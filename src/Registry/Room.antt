-- ===== src/Registry/Room.antt =====
-- How many of the workspaces that have an opener are left when those that a reload reserves go.
use mcp_semantic_search_zvec.Prelude.{
  ◌+◌, ◌≤◌, ◌≡◌, refl, inl, inr, true, false, List, [], ◌∷◌, String, str_eq, eq_iff, if◌then◌else◌,
  length, arith, Bool-cases, ◌∙◌,
}
use mcp_semantic_search_zvec.Ids.{Ids, contains}
use mcp_semantic_search_zvec.Registry.{Handle, Registry, find_handle, remove_id}
use mcp_semantic_search_zvec.Registry.Handles.{length-remove_handle-le}
use mcp_semantic_search_zvec.Registry.Reload.{put_id, add_found, detach, detach_one, remove_ids}

contains_empty : (id : String) → contains [] id ≡ true → ⊥
unfolding contains
contains_empty id h = cc

pub length-remove_ids-cons :
    (ids xs : Ids) (x : String)
    → length (remove_ids (x ∷ xs) ids)
      ≡ length (remove_ids xs ids) + (if contains ids x then 0 else 1)
unfolding remove_ids contains remove_id
length-remove_ids-cons [] xs x = omega arith
length-remove_ids-cons (id ∷ ids) xs x = elim (Bool-cases (str_eq x id)) [
  | inl same ↦ simp ((eq_iff x id).0 same) (ground (arith, eq_iff id id))
  | inr other ↦
      let e = length-remove_ids-cons ids (remove_id xs id) x in
      simp other (ground (arith, e, other, eq_iff x id, eq_iff id x))
]

module _ (ids : Ids) where
  remove_ids-remove_id-le :
      (xs : Ids) (id : String)
      → length (remove_ids (remove_id xs id) ids) ≤ length (remove_ids xs ids)
  unfolding remove_id
  remove_ids-remove_id-le [] id = omega arith
  remove_ids-remove_id-le (x ∷ xs) id =
      let rest = remove_ids-remove_id-le xs id in
      let all = length-remove_ids-cons ids xs x in
      elim (Bool-cases (str_eq x id)) [
        | inl same ↦ simp same (omega (arith, rest, all))
        | inr other ↦
            let kept = length-remove_ids-cons ids (remove_id xs id) x in
            simp other (omega (arith, rest, all, kept))
      ]

  -- One opener that is not reserved goes.
  pub remove_ids-remove_id :
      (xs : Ids) (id : String)
      → contains xs id ≡ true
      → contains ids id ≡ false
      → length (remove_ids (remove_id xs id) ids) + 1 ≤ length (remove_ids xs ids)
  unfolding remove_id
  remove_ids-remove_id [] id h n = absurd (contains_empty id h)
  remove_ids-remove_id (x ∷ xs) id h n =
      let all = length-remove_ids-cons ids xs x in
      elim (Bool-cases (str_eq x id)) [
        | inl same ↦
            let n' : contains ids x ≡ false = rw ((eq_iff x id).0 same) n in
            let le = remove_ids-remove_id-le xs id in simp same (ground (arith, le, all, n'))
        | inr other ↦
            let rest = remove_ids-remove_id xs id (contains-tail xs x id h other) n in
            let kept = length-remove_ids-cons ids (remove_id xs id) x in
            simp other (omega (arith, rest, all, kept))
      ]
    where
      contains-tail :
          (xs : Ids) (x id : String)
          → contains (x ∷ xs) id ≡ true
          → str_eq x id ≡ false
          → contains xs id ≡ true
      contains-tail xs x id h o = unfold contains in ground (arith, h, o)

  pub remove_ids-put_id :
      (xs : Ids) (id : String)
      → contains ids id ≡ true
      → length (remove_ids (put_id xs id) ids) ≡ length (remove_ids xs ids)
  unfolding put_id
  remove_ids-put_id xs id m = elim (Bool-cases (contains xs id)) [
    | inl there ↦ simp there refl
    | inr new ↦ let all = length-remove_ids-cons ids xs id in simp new (ground (arith, all, m))
  ]

  pub remove_ids-detach :
      (changed : Ids) (r : Registry) (hs : List Handle)
      → ((x : String) → contains changed x ≡ true → contains ids x ≡ true)
      → length (remove_ids (detach changed r hs).0.opening ids) ≡ length (remove_ids r.opening ids)
  unfolding detach detach_one
  remove_ids-detach [] r hs sub = refl
  remove_ids-detach (id ∷ changed) r hs sub =
      remove_ids-detach changed (detach_one r id) (add_found hs (find_handle r.open_handles id))
        (λ x m. sub x (unfold contains in ground (arith, m)))
      ∙ remove_ids-put_id r.opening id (sub id (unfold contains in ground (arith, eq_iff id id)))

pub length-detach :
    (changed : Ids) (r : Registry) (hs : List Handle)
    → length (detach changed r hs).0.open_handles ≤ length r.open_handles
unfolding detach detach_one
length-detach [] r hs = omega arith
length-detach (id ∷ changed) r hs =
    let rest =
      length-detach changed (detach_one r id) (add_found hs (find_handle r.open_handles id)) in
    omega (arith, rest, length-remove_handle-le r.open_handles id)
