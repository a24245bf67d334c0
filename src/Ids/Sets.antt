-- ===== src/Ids/Sets.antt =====
-- What the loops over ids keep and drop.
use mcp_semantic_search_zvec.Prelude.{
  ◌≡◌, refl, Bool, true, false, not, ◌&&◌, ◌||◌, [], ◌∷◌, ◌++◌, none, String, str_eq, eq_iff, arith,
  Bool-cases, inl, inr, ◌∙◌, ◌↔◌,
}
use mcp_semantic_search_zvec.Ids.{
  Ids, contains, without, dedupe_from, dedupe_ids, unique_from, assert_unique,
}

pub contains-append :
    (xs ys : Ids) (id : String) → contains (xs ++ ys) id ≡ (contains xs id || contains ys id)
unfolding contains
contains-append [] ys id = refl
contains-append (x ∷ xs) ys id = ground (arith, contains-append xs ys id)

pub contains-without :
    (set ids : Ids) (id : String)
    → contains (without set ids) id ≡ (contains ids id && not (contains set id))
unfolding contains without
contains-without set [] id = refl
contains-without set (x ∷ ids) id = ground (arith, contains-without set ids id, eq_iff x id)

pub contains-dedupe_from :
    (seen ids : Ids) (id : String)
    → contains (dedupe_from seen ids) id ≡ (contains ids id && not (contains seen id))
unfolding contains dedupe_from
contains-dedupe_from seen [] id = refl
contains-dedupe_from seen (x ∷ ids) id =
    ground
      (arith, contains-dedupe_from seen ids id, contains-dedupe_from (x ∷ seen) ids id, eq_iff x id)

and_true : (b : Bool) → (b && true) ≡ b
and_true true = refl
and_true false = refl

contains-dedupe_all : (ids : Ids) (id : String) → contains (dedupe_from [] ids) id ≡ contains ids id
contains-dedupe_all ids id =
    contains-dedupe_from [] ids id ∙ unfold contains in and_true (contains ids id)

-- No id twice.
abbrev pub IsUnique : Ids → Type 0
IsUnique [] = Unit
IsUnique (id ∷ ids) = (contains ids id ≡ false) × IsUnique ids

pub IsUnique-append :
    (xs : Ids) (x : String) → IsUnique xs → contains xs x ≡ false → IsUnique (xs ++ x ∷ [])
unfolding contains
IsUnique-append [] x u h = (refl, tt)
IsUnique-append (y ∷ xs) x u h = (
  ground (arith, u.0, h, contains-append xs (x ∷ []) y, eq_iff y x, eq_iff x y),
  IsUnique-append xs x u.1 (ground (arith, h)),
)

dedupe_from-IsUnique : (seen ids : Ids) → IsUnique (dedupe_from seen ids)
unfolding dedupe_from
dedupe_from-IsUnique seen [] = tt
dedupe_from-IsUnique seen (x ∷ ids) = elim (Bool-cases (contains seen x)) [
  | inl old ↦ rw (old, dedupe_from) (dedupe_from-IsUnique seen ids)
  | inr new ↦ rw (new, dedupe_from) (absent, dedupe_from-IsUnique (x ∷ seen) ids)
]
  where
    absent : contains (dedupe_from (x ∷ seen) ids) x ≡ false
    absent = unfold contains in ground (arith, contains-dedupe_from (x ∷ seen) ids x, eq_iff x x)

-- The deduplicated request has each id of the request, no other, and none twice.
pub dedupe_ids_lem :
    (ids : Ids)
    → IsUnique (dedupe_ids ids) × ((id : String) → contains (dedupe_ids ids) id ≡ contains ids id)
unfolding dedupe_ids
dedupe_ids_lem [] = (tt, λ id. refl)
dedupe_ids_lem (x ∷ []) = ((unfold contains in refl, tt), λ id. refl)
dedupe_ids_lem (x ∷ y ∷ ids) =
    (dedupe_from-IsUnique [] (x ∷ y ∷ ids), contains-dedupe_all (x ∷ y ∷ ids))

-- The ids are non-empty, distinct, and none of them was seen before.
abbrev pub AreFresh : Ids → Ids → Type 0
AreFresh seen [] = Unit
AreFresh seen (id ∷ ids) =
    (str_eq id "" ≡ false) × (contains seen id ≡ false) × AreFresh (id ∷ seen) ids

unique_from-AreFresh : (seen ids : Ids) → (unique_from seen ids ≡ none) ↔ AreFresh seen ids
unfolding unique_from
unique_from-AreFresh seen [] = (λ e. tt, λ h. refl)
unique_from-AreFresh seen (id ∷ ids) =
    let ih = unique_from-AreFresh (id ∷ seen) ids in
    (λ e. (ground arith, ground arith, ih.0 (ground arith)), λ h. rw (h.0, h.1) (ih.1 h.2))

fresh_twice :
    (seen ids : Ids)
    → AreFresh seen ids
    → (id : String) → contains seen id ≡ true
    → contains ids id ≡ false
unfolding contains
fresh_twice seen [] h id k = refl
fresh_twice seen (x ∷ ids) h id k = ground (arith, eq_iff x id, fresh_twice (x ∷ seen) ids h.2 id)

AreFresh→IsUnique : (seen ids : Ids) → AreFresh seen ids → IsUnique ids
AreFresh→IsUnique seen [] h = tt
AreFresh→IsUnique seen (x ∷ ids) h = (
  fresh_twice (x ∷ seen) ids h.2 x (unfold contains in ground (arith, eq_iff x x)),
  AreFresh→IsUnique (x ∷ seen) ids h.2,
)

abbrev pub NoneEmpty : Ids → Type 0
NoneEmpty [] = Unit
NoneEmpty (id ∷ ids) = (str_eq id "" ≡ false) × NoneEmpty ids

AreFresh→NoneEmpty : (seen ids : Ids) → AreFresh seen ids → NoneEmpty ids
AreFresh→NoneEmpty seen [] h = tt
AreFresh→NoneEmpty seen (x ∷ ids) h = (h.0, AreFresh→NoneEmpty (x ∷ seen) ids h.2)

IsUnique→AreFresh :
    (seen ids : Ids)
    → IsUnique ids
    → NoneEmpty ids
    → ((id : String) → contains ids id ≡ true → contains seen id ≡ false)
    → AreFresh seen ids
IsUnique→AreFresh seen [] u n apart = tt
IsUnique→AreFresh seen (x ∷ ids) u n apart = (
  n.0,
  apart x (unfold contains in ground (arith, eq_iff x x)),
  IsUnique→AreFresh (x ∷ seen) ids u.1 n.1 λ id h.
      unfold contains in
      ground (arith, u.0, h, apart id (unfold contains in ground (arith, h)), eq_iff x id),
)

-- AssertUnique accepts exactly the lists of non-empty ids in which no id stands twice.
pub assert_unique_lem : (ids : Ids) → (assert_unique ids ≡ none) ↔ (IsUnique ids × NoneEmpty ids)
unfolding assert_unique
assert_unique_lem ids = (
  λ e.
      let h = (unique_from-AreFresh [] ids).0 e in
      (AreFresh→IsUnique [] ids h, AreFresh→NoneEmpty [] ids h),
  λ h.
      (unique_from-AreFresh [] ids).1
        (IsUnique→AreFresh [] ids h.0 h.1 (λ id k. unfold contains in refl)),
)
