-- ===== src/Lock/Decimal.antt =====
-- Decimal numbers as strconv prints and reads them, in 64 bits.
use mcp_semantic_search_zvec.Prelude.{
  ℕ, zero, suc, ◌+◌, ◌-◌, ◌*◌, ◌/◌, ◌%◌, ◌≤◌, ◌<◌, ℤ, pos, negsuc, ◌≡◌, refl, ap, ◌∙◌, Bool, true,
  false, ◌&&◌, [], ◌∷◌, ◌++◌, Option, none, some, if◌then◌else◌, leb, ltb, ◌==◌, arith, Bool-cases,
  inl, inr,
}
use mcp_semantic_search_zvec.Bytes.{Bytes}
use mcp_semantic_search_zvec.Window.Slices.{All}
use mcp_semantic_search_zvec.Batches.Collected.{All-append}

-- The digits of a number below 10 ^ fuel.
unfoldable pub digits : ℕ → ℕ → Bytes
digits zero n = []
digits (suc fuel) n =
    let rest = digits fuel (n / 10) in
    if ltb n 10 then (48 + n) ∷ [] else rest ++ (48 + n % 10) ∷ []

-- strconv.FormatInt(x, 10), and Itoa
unfoldable pub format_int : ℤ → Bytes
unfolding digits
format_int (pos n) = digits (suc n) n
format_int (negsuc n) = 45 ∷ digits (suc (suc n)) (suc n)

abbrev pub is_digit : ℕ → Bool
is_digit c = leb 48 c && leb c 57

unfoldable pub parse_digits : ℕ → Bytes → Option ℕ
parse_digits n [] = some n
parse_digits n (c ∷ cs) =
    let rest = parse_digits (n * 10 + (c - 48)) cs in if is_digit c then rest else none

-- At least one digit.
unfoldable pub parse_uint : Bytes → Option ℕ
unfolding parse_digits
parse_uint [] = none
parse_uint (c ∷ cs) = parse_digits 0 (c ∷ cs)

abbrev pub max_int64 : ℕ
max_int64 = 9223372036854775807

-- The value of a number without and with a minus sign, if it fits.
unfoldable pub in_range : Option ℕ → Option ℤ
in_range none = none
in_range (some n) = if leb n max_int64 then some (pos n) else none

unfoldable pub negated : Option ℕ → Option ℤ
negated none = none
negated (some zero) = some (pos 0)
negated (some (suc n)) = if leb n max_int64 then some (negsuc n) else none

unfoldable pub parse_sign : ℕ → Bytes → Option ℤ
unfolding parse_uint negated in_range
parse_sign c cs =
    if c == 45
    then negated (parse_uint cs)
    else if c == 43
    then in_range (parse_uint cs)
    else in_range (parse_uint (c ∷ cs))

-- strconv.ParseInt(s, 10, 64), and Atoi
unfoldable pub parse_int : Bytes → Option ℤ
unfolding parse_sign
parse_int [] = none
parse_int (c ∷ cs) = parse_sign c cs

-- The number fits.
abbrev pub Fits : ℤ → Type 0
Fits (pos n) = n ≤ max_int64
Fits (negsuc n) = n ≤ max_int64

All-imp :
    (P : ℕ → Type 0) (xs : Bytes)
    → ((c : ℕ) → is_digit c ≡ true → P c)
    → All (λ c. is_digit c ≡ true) xs
    → All P xs
All-imp P [] f a = tt
All-imp P (x ∷ xs) f a = (f x a.0, All-imp P xs f a.1)

parse_digits-append :
    (xs : Bytes) (n m c : ℕ)
    → parse_digits n xs ≡ some m
    → is_digit c ≡ true
    → parse_digits n (xs ++ c ∷ []) ≡ some (m * 10 + (c - 48))
unfolding parse_digits
parse_digits-append [] n m c e d = ground (arith, e, d)
parse_digits-append (x ∷ xs) n m c e d = elim (Bool-cases (is_digit x)) [
  | inl digit ↦
      let e' : parse_digits (n * 10 + (x - 48)) xs ≡ some m = rw digit at e in
      rw digit (parse_digits-append xs (n * 10 + (x - 48)) m c e' d)
  | inr other ↦ let e' : none ≡ some m = rw other at e in absurd (ground (arith, e'))
]

ltb→le : (n : ℕ) → ltb n 10 ≡ false → 10 ≤ n
ltb→le n h = ground (arith, h)

parse_digits-digits : (fuel n : ℕ) → n < fuel → parse_digits 0 (digits fuel n) ≡ some n
unfolding digits parse_digits
parse_digits-digits zero n h = absurd (omega (arith, h))
parse_digits-digits (suc fuel) n h = elim (Bool-cases (ltb n 10)) [
  | inl small ↦ rw small (ground (arith, small))
  | inr large ↦ rw large (
      let e = parse_digits-digits fuel (n / 10) (omega (arith, h, ltb→le n large)) in
      parse_digits-append (digits fuel (n / 10)) 0 (n / 10) (48 + n % 10) e (ground arith)
      ∙ ap some (omega arith))
]

-- Printed characters are digits or a minus sign.
digits-are : (fuel n : ℕ) → All (λ c. is_digit c ≡ true) (digits fuel n)
unfolding digits
digits-are zero n = tt
digits-are (suc fuel) n = elim (Bool-cases (ltb n 10)) [
  | inl small ↦ rw small (ground (arith, small), tt)
  | inr large ↦ rw large (
      All-append (λ c. is_digit c ≡ true) (digits fuel (n / 10)) ((48 + n % 10) ∷ [])
        (digits-are fuel (n / 10)) (ground arith, tt))
]

digits-cons : (fuel n : ℕ) → (c : ℕ) × (cs : Bytes) × (digits (suc fuel) n ≡ c ∷ cs)
unfolding digits
digits-cons fuel n = elim (Bool-cases (ltb n 10)) [
  | inl small ↦ rw small (48 + n, [], refl)
  | inr large ↦ rw large (appended (digits fuel (n / 10)) (48 + n % 10))
]
  where
    appended : (xs : Bytes) (x : ℕ) → (c : ℕ) × (cs : Bytes) × (xs ++ x ∷ [] ≡ c ∷ cs)
    appended [] x = (x, [], refl)
    appended (y ∷ ys) x = (y, ys ++ x ∷ [], refl)

parse_uint-digits : (n : ℕ) → parse_uint (digits (suc n) n) ≡ some n
unfolding parse_uint
parse_uint-digits n =
    let (c, cs, e) = digits-cons n n in
    let v = parse_digits-digits (suc n) n (omega arith) in
    let v' : parse_digits 0 (c ∷ cs) ≡ some n = rw e at v in rw e v'

-- What was printed is read again.
pub parse_int-format_int : (x : ℤ) → Fits x → parse_int (format_int x) ≡ some x
unfolding parse_int format_int parse_sign in_range negated
parse_int-format_int (pos n) f =
    let (c, cs, e) = digits-cons n n in
    let v = parse_uint-digits n in
    let v' : parse_uint (c ∷ cs) ≡ some n = rw e at v in
    let d = digits-are (suc n) n in
    let d' : All (λ c. is_digit c ≡ true) (c ∷ cs) = rw e at d in rw e (ground (arith, f, v', d'.0))
parse_int-format_int (negsuc n) f = simp (parse_uint-digits (suc n)) (ground (arith, f))

-- A printed number is a word without white space.
pub format_int-IsWord :
    (P : ℕ → Type 0) (x : ℤ)
    → ((c : ℕ) → is_digit c ≡ true → P c)
    → P 45
    → All P (format_int x) × ((c : ℕ) × (cs : Bytes) × (format_int x ≡ c ∷ cs))
unfolding format_int
format_int-IsWord P (pos n) d m =
    (All-imp P (digits (suc n) n) d (digits-are (suc n) n), digits-cons n n)
format_int-IsWord P (negsuc n) d m = (
  (m, All-imp P (digits (suc (suc n)) (suc n)) d (digits-are (suc (suc n)) (suc n))),
  (45, digits (suc (suc n)) (suc n), refl),
)
