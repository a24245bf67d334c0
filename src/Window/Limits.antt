-- ===== src/Window/Limits.antt =====
-- The two limits on the length of a line differ by the byte of the line end.
use mcp_semantic_search_zvec.Prelude.{
  ℕ, ◌+◌, ◌≤◌, ◌≡◌, refl, false, [], ◌∷◌, ◌++◌, length, arith, ◌==◌, lt→ltb, le→ltb, length-append,
}
use mcp_semantic_search_zvec.Bytes.{Bytes, line_lengths_fit}
use mcp_semantic_search_zvec.Window.Reader.{too_long, read_bytes, read_line}

-- A text with no line end in it.
abbrev pub IsPlain : Bytes → Type 0
IsPlain [] = Unit
IsPlain (b ∷ l) = ((b == b'\n') ≡ false) × ((b == b'\r') ≡ false) × IsPlain l

line_lengths_fit-plain :
    (m n : ℕ) (l rest : Bytes)
    → IsPlain l
    → n + length l ≤ m
    → line_lengths_fit m n (l ++ b'\n' ∷ rest) ≡ line_lengths_fit m 0 rest
unfolding line_lengths_fit
line_lengths_fit-plain m n [] rest p h = refl
line_lengths_fit-plain m n (b ∷ l) rest p h =
    rw (p.0, p.1, le→ltb m (n + 1) (omega arith))
      (line_lengths_fit-plain m (n + 1) l rest p.2 (omega arith))

read_bytes-plain :
    (m : ℕ) (acc l rest : Bytes)
    → IsPlain l
    → length acc + length l ≡ m
    → read_bytes m acc (length acc) (l ++ b'\n' ∷ rest) ≡ too_long
unfolding read_bytes
read_bytes-plain m acc [] rest p h = rw (lt→ltb m (length acc + 1) (omega arith), read_bytes)
read_bytes-plain m acc (b ∷ l) rest p h =
    let len = length-append acc (b ∷ []) in
    rw (le→ltb m (length acc + 1) (omega arith), read_bytes, p.0, p.1)
      (let e : length acc + 1 ≡ length (acc ++ b ∷ []) = omega (arith, len) in
        rw e (read_bytes-plain m (acc ++ b ∷ []) l rest p.2 (omega (arith, len))))

-- At one and the same limit, a line of exactly that many bytes that has a line end passes the
-- in-memory check, which goes on with the rest, but the streaming reader refuses it.
pub limits_differ :
    (l rest : Bytes)
    → IsPlain l
    → (line_lengths_fit (length l) 0 (l ++ b'\n' ∷ rest) ≡ line_lengths_fit (length l) 0 rest)
      × (read_line (record { rest = l ++ b'\n' ∷ rest; max_line = length l; pending_empty = false })
          ≡ too_long)
unfolding read_line
limits_differ l rest p = (
  line_lengths_fit-plain (length l) 0 l rest p (omega arith),
  read_bytes-plain (length l) [] l rest p (omega arith),
)
