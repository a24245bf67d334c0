-- ===== src/Ids/Deletes.antt =====
-- How a native delete that reported errors is resolved.
use mcp_semantic_search_zvec.Prelude.{
  ◌+◌, ◌<◌, ◌≡◌, refl, true, false, not, ◌&&◌, [], ◌∷◌, Option, none, some, String, arith,
  Bool-cases, inl, inr, length, eq_iff, ◌==◌,
}
use mcp_semantic_search_zvec.Ids.{Ids, contains, without, count_in, delete_error, PartialWrite}
use mcp_semantic_search_zvec.Ids.Sets.{contains-without}

length-without : (set ids : Ids) → length (without set ids) + count_in set ids ≡ length ids
unfolding without count_in
length-without set [] = refl
length-without set (x ∷ ids) = ground (arith, length-without set ids)

count_in-zero :
    (set ids : Ids) (id : String)
    → count_in set ids ≡ 0
    → contains ids id ≡ true
    → contains set id ≡ false
unfolding count_in contains
count_in-zero set [] id z h = cc
count_in-zero set (x ∷ ids) id z h = ground (arith, count_in-zero set ids id, eq_iff x id)

-- What the caller may conclude from the result of a delete whose survivors are known.
abbrev pub Resolves : Ids → Ids → Option PartialWrite → Type 0
Resolves requested remaining none =
    (id : String) → contains requested id ≡ true → contains remaining id ≡ false
Resolves requested remaining (some e) =
    (0 < e.failed)
    × (length e.succeeded + e.failed ≡ length requested)
    × ((id : String)
        → contains e.succeeded id ≡ (contains requested id && not (contains remaining id)))

-- No error says that no requested id survived; an error counts at least one survivor, accounts for
-- every requested id, and lists as succeeded exactly the requested ids that did not survive. A
-- failed fetch claims no success and counts the whole request as failed.
pub delete_error-Resolves :
    (requested remaining : Ids)
    → Resolves requested remaining (delete_error requested remaining false)
      × (delete_error requested remaining true
          ≡ some (record { succeeded = []; failed = length requested }))
unfolding delete_error
delete_error-Resolves requested remaining = elim (Bool-cases (count_in remaining requested == 0)) [
  | inl none_left ↦
      rw none_left (λ id h. count_in-zero remaining requested id (ground arith) h, refl)
  | inr some_left ↦ rw some_left (
    (ground arith, length-without remaining requested, contains-without remaining requested),
    refl,
  )
]
