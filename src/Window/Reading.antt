-- ===== src/Window/Reading.antt =====
-- The line reader gives the lines that splitting the normalised content gives.
use mcp_semantic_search_zvec.Prelude.{
  ℕ, suc, ◌+◌, ◌≤◌, ◌≡◌, refl, ap, sym, ◌∙◌, Bool, true, false, ◌||◌, List, [], ◌∷◌, ◌++◌, length,
  arith, ◌==◌, ==_iff, le→ltb, Bool-cases, inl, inr, append-nil, append_assoc, length-append,
}
use mcp_semantic_search_zvec.Bytes.{
  Bytes, is_empty, replace_crlf, normalize_line_endings, split_lines, cons_head, line_lengths_fit,
}
use mcp_semantic_search_zvec.Window.Reader.{
  LineReader, line, strip_cr, end_line, after_cr, read_bytes, read_line,
}
use mcp_semantic_search_zvec.Window.Streamed.{Reads, ends, gives}

abbrev pub lines_of : Bytes → List Bytes
lines_of s = split_lines (normalize_line_endings s)

lines_of-lf : (s : Bytes) → lines_of (b'\n' ∷ s) ≡ [] ∷ lines_of s
unfolding split_lines normalize_line_endings
lines_of-lf [] = refl
lines_of-lf (c ∷ s) = refl

lines_of-crlf : (s : Bytes) → lines_of (b'\r' ∷ b'\n' ∷ s) ≡ [] ∷ lines_of s
unfolding split_lines normalize_line_endings
lines_of-crlf s = refl

lines_of-cr_end : lines_of (b'\r' ∷ []) ≡ [] ∷ lines_of []
unfolding split_lines normalize_line_endings
lines_of-cr_end = refl

replace_crlf-lone :
    (c : ℕ) (s : Bytes)
    → (c == b'\n') ≡ false
    → replace_crlf (b'\r' ∷ c ∷ s) ≡ b'\r' ∷ replace_crlf (c ∷ s)
unfolding replace_crlf
replace_crlf-lone c s h = rw (h, replace_crlf)

replace_crlf-other :
    (b : ℕ) (s : Bytes) → (b == b'\r') ≡ false → replace_crlf (b ∷ s) ≡ b ∷ replace_crlf s
unfolding replace_crlf
replace_crlf-other b [] h = refl
replace_crlf-other b (c ∷ s) h = rw (h, replace_crlf)

lines_of-cr :
    (c : ℕ) (s : Bytes) → (c == b'\n') ≡ false → lines_of (b'\r' ∷ c ∷ s) ≡ [] ∷ lines_of (c ∷ s)
lines_of-cr c s h =
    unfold normalize_line_endings in
    rw (replace_crlf-lone c s h) (unfold split_lines normalize_line_endings in refl)

lines_of-other :
    (b : ℕ) (s : Bytes)
    → (b == b'\n') ≡ false
    → (b == b'\r') ≡ false
    → lines_of (b ∷ s) ≡ cons_head b (lines_of s)
lines_of-other b s h k =
    unfold normalize_line_endings in
    rw (replace_crlf-other b s k) (unfold split_lines normalize_line_endings in rw (k, h))

pub prefix_head : Bytes → List Bytes → List Bytes
prefix_head l [] = l ∷ []
prefix_head l (m ∷ ls) = (l ++ m) ∷ ls

prefix_head-cons_head :
    (l : Bytes) (b : ℕ) (ls : List Bytes)
    → prefix_head l (cons_head b ls) ≡ prefix_head (l ++ b ∷ []) ls
unfolding prefix_head
prefix_head-cons_head l b [] = refl
prefix_head-cons_head l b (m ∷ ls) = rw (append_assoc l (b ∷ []) m)

cons_head-prefix : (b : ℕ) (ls : List Bytes) → prefix_head [] (cons_head b ls) ≡ cons_head b ls
unfolding prefix_head
cons_head-prefix b [] = refl
cons_head-prefix b (l ∷ ls) = refl

split_lines-prefix : (s : Bytes) → prefix_head [] (split_lines s) ≡ split_lines s
unfolding prefix_head split_lines
split_lines-prefix [] = refl
split_lines-prefix (b ∷ s) = elim (Bool-cases (b == b'\n')) [
  | inl lf ↦ rw lf
  | inr other ↦ rw other (cons_head-prefix b (split_lines s))
]

unfoldable pub has_cr : Bytes → Bool
has_cr [] = false
has_cr (b ∷ l) = b == b'\r' || has_cr l

has_cr-append :
    (l : Bytes) (b : ℕ) → has_cr l ≡ false → (b == b'\r') ≡ false → has_cr (l ++ b ∷ []) ≡ false
unfolding has_cr
has_cr-append [] b h k = rw k
has_cr-append (c ∷ l) b h k = ground (arith, has_cr-append l b)

strip_cr-none : (l : Bytes) → has_cr l ≡ false → strip_cr l ≡ l
unfolding has_cr strip_cr
strip_cr-none [] h = refl
strip_cr-none (b ∷ []) h = ground arith
strip_cr-none (b ∷ c ∷ l) h = ap (λ t. b ∷ t) (strip_cr-none (c ∷ l) (ground arith))

fits_next :
    (m n b : ℕ) (s : Bytes)
    → (b == b'\n') ≡ false
    → (b == b'\r') ≡ false
    → line_lengths_fit m n (b ∷ s) ≡ true
    → (n + 1 ≤ m) × (line_lengths_fit m (n + 1) s ≡ true)
unfolding line_lengths_fit
fits_next m n b s h k fit = ground arith

not_empty-append : (l : Bytes) (b : ℕ) (s : Bytes) → is_empty (l ++ b ∷ s) ≡ false
not_empty-append [] b s = refl
not_empty-append (c ∷ l) b s = refl

module _ (m : ℕ) where
  abbrev pub reader_at : Bytes → Bool → LineReader
  reader_at s pending = record { rest = s; max_line = suc m; pending_empty = pending }

  -- From the middle of a line: the rest of the line, and then the lines behind it.
  pub record Continues (l s : Bytes) : Type 0 where
    first : Bytes
    next : LineReader
    others : List Bytes
    reads : read_bytes (suc m) l (length l) s ≡ line first next
    then_reads : Reads read_line next others
    are_lines : prefix_head l (lines_of s) ≡ first ∷ others

  pub at_end : Reads read_line (reader_at [] false) []
  unfolding read_line
  at_end = ends refl

  pub from_start :
      (s : Bytes)
      → (is_empty s ≡ false → Continues [] s)
      → Reads read_line (reader_at s (is_empty s)) (lines_of s)
  unfolding read_line split_lines normalize_line_endings
  from_start [] k = gives refl at_end
  from_start (b ∷ s) k = ready (k refl)
    where
      ready : Continues [] (b ∷ s) → Reads read_line (reader_at (b ∷ s) false) (lines_of (b ∷ s))
      ready c =
          rw (sym (split_lines-prefix (normalize_line_endings (b ∷ s))) ∙ c.are_lines)
            (gives c.reads c.then_reads)

  ends_line :
      (l s rest : Bytes) (ls : List Bytes)
      → has_cr l ≡ false
      → read_bytes (suc m) l (length l) s ≡ end_line (suc m) l rest
      → Reads read_line (reader_at rest (is_empty rest)) ls
      → lines_of s ≡ [] ∷ ls
      → Continues l s
  unfolding end_line prefix_head
  ends_line l s rest ls h e rs k = record {
    first = l;
    next = reader_at rest (is_empty rest);
    others = ls;
    reads = e ∙ rw (strip_cr-none l h);
    then_reads = rs;
    are_lines = rw (k, append-nil l);
  }

  -- What is proved for every line begun and every rest of the content.
  abbrev pub Ready : Bytes → Bytes → Type 0
  Ready l s =
      has_cr l ≡ false
      → length l ≤ m
      → line_lengths_fit m (length l) s ≡ true
      → is_empty (l ++ s) ≡ false
      → Continues l s

  module _ (l : Bytes) (clean : has_cr l ≡ false) (short : length l ≤ m) where
    after_break :
        (s rest : Bytes)
        → read_bytes (suc m) l (length l) s ≡ end_line (suc m) l rest
        → lines_of s ≡ [] ∷ lines_of rest
        → line_lengths_fit m 0 rest ≡ true
        → Ready [] rest
        → Continues l s
    unfolding has_cr
    after_break s rest e k fit next =
        ends_line l s rest (lines_of rest) clean e
          (from_start rest (λ some_byte. next refl (omega arith) fit some_byte)) k

    lf_case :
        (s : Bytes)
        → line_lengths_fit m (length l) (b'\n' ∷ s) ≡ true
        → Ready [] s
        → Continues l (b'\n' ∷ s)
    unfolding read_bytes line_lengths_fit
    lf_case s fit next =
        after_break (b'\n' ∷ s) s (rw (le→ltb (suc m) (length l + 1) (omega arith), read_bytes))
          (lines_of-lf s) fit next

    read-cr : (s : Bytes) → read_bytes (suc m) l (length l) (b'\r' ∷ s) ≡ after_cr (suc m) l s
    unfolding read_bytes
    read-cr s = rw (le→ltb (suc m) (length l + 1) (omega arith), read_bytes)

    cr_end : Continues l (b'\r' ∷ [])
    unfolding line_lengths_fit after_cr
    cr_end = after_break (b'\r' ∷ []) [] (read-cr []) lines_of-cr_end refl (λ a b c some_byte. cc)

    crlf_case :
        (s : Bytes)
        → line_lengths_fit m (length l) (b'\r' ∷ b'\n' ∷ s) ≡ true
        → Ready [] s
        → Continues l (b'\r' ∷ b'\n' ∷ s)
    unfolding line_lengths_fit after_cr
    crlf_case s fit next =
        after_break (b'\r' ∷ b'\n' ∷ s) s (read-cr (b'\n' ∷ s)) (lines_of-crlf s) fit next

    cr_case :
        (c : ℕ) (s : Bytes)
        → (c == b'\n') ≡ false
        → line_lengths_fit m (length l) (b'\r' ∷ c ∷ s) ≡ true
        → Ready [] (c ∷ s)
        → Continues l (b'\r' ∷ c ∷ s)
    unfolding line_lengths_fit after_cr
    cr_case c s h fit next =
        after_break (b'\r' ∷ c ∷ s) (c ∷ s) (read-cr (c ∷ s) ∙ rw h) (lines_of-cr c s h) fit next

    other_case :
        (b : ℕ) (s : Bytes)
        → (b == b'\n') ≡ false
        → (b == b'\r') ≡ false
        → line_lengths_fit m (length l) (b ∷ s) ≡ true
        → Ready (l ++ b ∷ []) s
        → Continues l (b ∷ s)
    unfolding line_lengths_fit read_bytes
    other_case b s h k fit next = record {
      first = c.first;
      next = c.next;
      others = c.others;
      reads =
          rw (le→ltb (suc m) (length l + 1) (omega arith), read_bytes, h, k) (rw (← len) c.reads);
      then_reads = c.then_reads;
      are_lines = rw (lines_of-other b s h k, prefix_head-cons_head l b (lines_of s)) c.are_lines;
    }
      where
        len : length (l ++ b ∷ []) ≡ length l + 1
        len = length-append l (b ∷ [])

        rest_fits : (length l + 1 ≤ m) × (line_lengths_fit m (length l + 1) s ≡ true)
        rest_fits = fits_next m (length l) b s h k fit

        c : Continues (l ++ b ∷ []) s
        c =
            next (has_cr-append l b clean k) (omega (arith, len, rest_fits)) (rw len rest_fits.1)
              (rw (append_assoc l (b ∷ []) s) (not_empty-append l b s))

  pub continues : (l s : Bytes) → Ready l s
  unfolding read_bytes prefix_head has_cr line_lengths_fit
  continues [] [] clean short fit some_byte = cc
  continues (b ∷ l) [] clean short fit some_byte = record {
    first = b ∷ l;
    next = reader_at [] false;
    others = [];
    reads = refl;
    then_reads = at_end;
    are_lines = unfold split_lines normalize_line_endings in ap (λ t. (b ∷ t) ∷ []) (append-nil l);
  }
  continues l (b ∷ []) clean short fit some_byte = elim (Bool-cases (b == b'\n')) [
    | inl lf ↦
        let e : b ≡ b'\n' = (==_iff b b'\n').0 lf in
        rw e (lf_case l clean short [] refl (continues [] []))
    | inr not_lf ↦ elim (Bool-cases (b == b'\r')) [
      | inl cr ↦ let e : b ≡ b'\r' = (==_iff b b'\r').0 cr in rw e (cr_end l clean short)
      | inr not_cr ↦ other_case l clean short b [] not_lf not_cr fit (continues (l ++ b ∷ []) [])
    ]
  ]
  continues l (b ∷ c ∷ s) clean short fit some_byte = elim (Bool-cases (b == b'\n')) [
    | inl lf ↦
        let e : b ≡ b'\n' = (==_iff b b'\n').0 lf in
        rw e (lf_case l clean short (c ∷ s) (rw e at fit) (continues [] (c ∷ s)))
    | inr not_lf ↦ elim (Bool-cases (b == b'\r')) [
      | inl cr ↦
          let e : b ≡ b'\r' = (==_iff b b'\r').0 cr in
          let fit' : line_lengths_fit m (length l) (b'\r' ∷ c ∷ s) ≡ true = rw e at fit in
          elim (Bool-cases (c == b'\n')) [
            | inl lf ↦
                let e' : c ≡ b'\n' = (==_iff c b'\n').0 lf in
                rw (e, e') (crlf_case l clean short s (rw e' at fit') (continues [] s))
            | inr not_lf2 ↦ rw e (cr_case l clean short c s not_lf2 fit' (continues [] (c ∷ s)))
          ]
      | inr not_cr ↦
          other_case l clean short b (c ∷ s) not_lf not_cr fit (continues (l ++ b ∷ []) (c ∷ s))
    ]
  ]

  -- Content that keeps every line within `m` bytes is read in full by a reader with room for the
  -- line end.
  pub Reads-content :
      (s : Bytes)
      → is_empty s ≡ false
      → line_lengths_fit m 0 s ≡ true
      → Reads read_line (reader_at s false) (lines_of s)
  unfolding has_cr
  Reads-content [] some_byte fit = cc
  Reads-content (b ∷ s) some_byte fit =
      from_start (b ∷ s) (λ e. continues [] (b ∷ s) refl (omega arith) fit e)
