-- ===== src/Window/Streamed.antt =====
-- The streaming chunker emits the chunks of `windows`, over every reader that ends.
use mcp_semantic_search_zvec.Prelude.{
  ℕ, zero, suc, ◌+◌, ◌-◌, ◌≤◌, ◌<◌, ◌≡◌, refl, ap, List, [], ◌∷◌, ◌++◌, Option, none, some, ltb,
  length, take, drop, arith, append_assoc, append-nil, map, length-append, length-drop, take_all,
  Bool-cases, lt→leb, le→leb, ltb→lt, inl, inr,
}
use mcp_semantic_search_zvec.Bytes.{Bytes, is_blank, join_lines}
use mcp_semantic_search_zvec.Window.{Chunk, chunk_from_line_window}
use mcp_semantic_search_zvec.Window.Reader.{Read, line, eof}
use mcp_semantic_search_zvec.Window.Stream.{
  Cursor, stream, skip_bytes, add_if, buffer_chunk, line_window_meta, resume, full_round,
  slide_round, fill_round,
}
use mcp_semantic_search_zvec.Window.Spans.{Span, windows, span_chunk, emit_chunks, proceed}

pub skip_bytes-append :
    (k : ℕ) (xs ys : List Bytes) (b : ℕ)
    → k ≤ length xs
    → skip_bytes k (xs ++ ys) b ≡ skip_bytes k xs b
unfolding skip_bytes
skip_bytes-append zero xs ys b h = refl
skip_bytes-append (suc k) [] ys b h = absurd (omega arith)
skip_bytes-append (suc k) (x ∷ xs) ys b h =
    skip_bytes-append k xs ys (b + length x + 1) (omega arith)

pub drop-append {ℓ} :
    {A : Type ℓ} (k : ℕ) (xs ys : List A) → k ≤ length xs → drop k (xs ++ ys) ≡ drop k xs ++ ys
drop-append zero xs ys h = refl
drop-append (suc k) [] ys h = absurd (omega arith)
drop-append (suc k) (x ∷ xs) ys h = drop-append k xs ys (omega arith)

pub take-append {ℓ} : {A : Type ℓ} (k : ℕ) (xs ys : List A) → length xs ≡ k → take k (xs ++ ys) ≡ xs
take-append zero [] ys h = refl
take-append zero (x ∷ xs) ys h = absurd (omega arith)
take-append (suc k) [] ys h = absurd (omega arith)
take-append (suc k) (x ∷ xs) ys h = ap (λ t. x ∷ t) (take-append k xs ys (omega arith))

-- A reader that gives these lines and then ends.
pub data Reads {R : Type 0} (read : R → Read R) : R → List Bytes → Type 0 where
  ends : {r : R} → read r ≡ eof → Reads read r []
  gives :
      {r r' : R} {l : Bytes} {ls : List Bytes}
      → read r ≡ line l r'
      → Reads read r' ls
      → Reads read r (l ∷ ls)

module _ (rel : Bytes) (w o : ℕ) where
  unfoldable pub chunk_of : Span → Option Chunk
  chunk_of = span_chunk rel 1 (line_window_meta w o)

module _ {S E : Type 0} (add : S → Chunk → S × Option E) (rel : Bytes) (w o : ℕ) where
  -- The chunks of the windows from a line on.
  abbrev pub emitted : ℕ → List Bytes → ℕ → ℕ → S → S × Option E
  emitted g ls start byte = emit_chunks add (map (chunk_of rel w o) (windows w o g ls start byte))

  abbrev pub first_chunk : List Bytes → ℕ → ℕ → S → S × Option E
  first_chunk ls start byte =
      add_if add (chunk_of rel w o (record { lines = ls; start = start; byte = byte }))

  no_lines : (start byte : ℕ) (s : S) → first_chunk [] start byte s ≡ (s, none)
  unfolding chunk_of span_chunk chunk_from_line_window add_if
  no_lines start byte s = refl

  pub no_windows : (start byte : ℕ) (s : S) → emitted 0 [] start byte s ≡ (s, none)
  unfolding windows emit_chunks
  no_windows start byte s = refl

  -- The one line of an empty file is blank.
  pub blank_line : (s : S) → proceed (first_chunk ([] ∷ []) 0 0 s) (λ s'. (s', none)) ≡ (s, none)
  unfolding proceed add_if chunk_of span_chunk chunk_from_line_window is_blank join_lines
  blank_line s = refl

  pub emitted_last :
      (g : ℕ) (ls : List Bytes) (start byte : ℕ) (s : S)
      → length ls ≤ w
      → length ls ≤ g
      → emitted g ls start byte s ≡ proceed (first_chunk ls start byte s) (λ s'. (s', none))
  unfolding windows emit_chunks proceed
  emitted_last zero [] start byte s hw hg = rw no_lines
  emitted_last zero (l ∷ ls) start byte s hw hg = absurd (omega arith)
  emitted_last (suc g) ls start byte s hw hg = rw (le→leb _ _ hw, take_all w ls hw)

  pub emitted_more :
      (g : ℕ) (ls : List Bytes) (start byte : ℕ) (s : S)
      → w < length ls
      → emitted (suc g) ls start byte s
        ≡ proceed
            (first_chunk (take w ls) start byte s)
            (emitted g (drop (w - o) ls) (start + (w - o)) (skip_bytes (w - o) ls byte))
  unfolding windows emit_chunks
  emitted_more g ls start byte s hw = rw (lt→leb _ _ hw)

module _ {R S E : Type 0} (read : R → Read R) (line_too_long : E) (add : S → Chunk → S × Option E)
    (rel : Bytes) (w o : ℕ) (o_lt : o < w) where
  buffer_chunk-span :
      (ls : List Bytes) (start byte : ℕ)
      → buffer_chunk read line_too_long add rel w o ls start byte
        ≡ chunk_of rel w o (record { lines = ls; start = start; byte = byte })
  unfolding buffer_chunk chunk_of span_chunk
  buffer_chunk-span ls start byte =
      ap
        (λ k.
          chunk_from_line_window rel ls k
            (record (line_window_meta w o) { content_start_byte = byte }))
        (let e : start + 1 ≡ 1 + start = omega arith in e)

  -- After a full window: the same error, or the rest of the loop.
  full-proceed :
      (c : Cursor R) (l : Bytes) (r' : R) (p : S × Option E) (loop : Cursor R → S → S × Option E)
      (k : S → S × Option E)
      → read c.reader ≡ line l r'
      → ((s' : S)
          → resume loop (slide_round read line_too_long add rel w o c (line l r') s') ≡ k s')
      → resume loop (full_round read line_too_long add rel w o c p) ≡ proceed p k
  unfolding full_round proceed resume
  full-proceed c l r' (s', some e) loop k h rest = refl
  full-proceed c l r' (s', none) loop k h rest = rw h (rest s')

  full-ends :
      (c : Cursor R) (p : S × Option E) (loop : Cursor R → S → S × Option E)
      → read c.reader ≡ eof
      → resume loop (full_round read line_too_long add rel w o c p) ≡ proceed p (λ s. (s, none))
  unfolding full_round slide_round proceed resume
  full-ends c (s', some e) loop h = refl
  full-ends c (s', none) loop h = rw h

  fill-ends : (p : S × Option E) → p ≡ proceed p (λ s. (s, none))
  unfolding proceed
  fill-ends (s, none) = refl
  fill-ends (s, some e) = refl

  -- At the end of the content.
  stream-ends :
      (f g : ℕ) (r : R) (buf : List Bytes) (start byte : ℕ) (s : S)
      → read r ≡ eof
      → length buf ≤ w
      → length buf ≤ g
      → stream read line_too_long add rel w o
          (suc f)
          (record { reader = r; buf = buf; start = start; byte_pos = byte })
          s
        ≡ emitted add rel w o g buf start byte s
  unfolding stream fill_round
  stream-ends f g r buf start byte s e hb hg = elim (Bool-cases (ltb (length buf) w)) [
    | inl lt ↦
        rw (lt, e, emitted_last add rel w o g buf start byte s hb hg, buffer_chunk-span)
          (fill-ends _)
    | inr full ↦
        rw
          (
            full,
            take_all w buf hb,
            emitted_last add rel w o g buf start byte s hb hg,
            buffer_chunk-span,
          )
          (full-ends _ _ _ e)
  ]

  -- The buffer behind a full window, with what is still to be read, is the file behind its step.
  next_lines :
      (buf ls : List Bytes) (l : Bytes)
      → length buf ≡ w
      → drop (w - o) (buf ++ l ∷ ls) ≡ (drop (w - o) (take w buf) ++ l ∷ []) ++ ls
  next_lines buf ls l h = rw (
    take_all w buf (omega (arith, h)),
    drop-append (w - o) buf (l ∷ ls) (omega (arith, h)),
    append_assoc (drop (w - o) buf) (l ∷ []) ls,
  )

  next_length :
      (buf : List Bytes) (l : Bytes)
      → length buf ≡ w
      → length (drop (w - o) (take w buf) ++ l ∷ []) ≡ o + 1
  next_length buf l h =
      rw (take_all w buf (omega (arith, h)))
        (omega (arith, length-append (drop (w - o) buf) (l ∷ []), length-drop (w - o) buf))

  emitted_full :
      (g : ℕ) (buf ls : List Bytes) (l : Bytes) (start byte : ℕ) (s : S)
      → length buf ≡ w
      → emitted add rel w o (suc g) (buf ++ l ∷ ls) start byte s
        ≡ proceed (first_chunk add rel w o (take w buf) start byte s) (
            emitted add rel w o g
              ((drop (w - o) (take w buf) ++ l ∷ []) ++ ls)
              (start + (w - o))
              (skip_bytes (w - o) buf byte))
  emitted_full g buf ls l start byte s h = rw (
    emitted_more add rel w o g (buf ++ l ∷ ls) start byte s
        (omega (arith, length-append buf (l ∷ ls))),
    next_lines buf ls l h,
    take-append w buf (l ∷ ls) h,
    take_all w buf (omega (arith, h)),
    skip_bytes-append (w - o) buf (l ∷ ls) byte (omega (arith, h)),
  )

  pub stream-windows :
      (f g : ℕ) (r : R) (buf ls : List Bytes) (start byte : ℕ) (s : S)
      → Reads read r ls
      → length buf ≤ w
      → length ls < f
      → length buf + length ls ≤ g
      → stream read line_too_long add rel w o f
          (record { reader = r; buf = buf; start = start; byte_pos = byte })
          s
        ≡ emitted add rel w o g (buf ++ ls) start byte s
  unfolding stream fill_round slide_round resume
  stream-windows zero g r buf ls start byte s reads hb hf hg = absurd (omega arith)
  stream-windows (suc f) g r buf [] start byte s (ends e) hb hf hg =
      rw (append-nil buf) (stream-ends f g r buf start byte s e hb (omega arith))
  stream-windows (suc f) zero r buf (l ∷ ls) start byte s (gives e rs) hb hf hg =
      absurd (omega arith)
  stream-windows (suc f) (suc g) r buf (l ∷ ls) start byte s (gives {r' = r'} e rs) hb hf hg =
      elim (Bool-cases (ltb (length buf) w)) [
        | inl lt ↦
            rw (lt, e, ← append_assoc buf (l ∷ []) ls)
              (stream-windows f (suc g) r' (buf ++ l ∷ []) ls start byte s rs
                (omega (arith, length-append buf (l ∷ []), ltb→lt _ _ lt)) (omega arith)
                (omega (arith, length-append buf (l ∷ []))))
        | inr full ↦
            let h : length buf ≡ w = ground arith in
            let h' = next_length buf l h in
            rw (full, emitted_full g buf ls l start byte s h, buffer_chunk-span)
              (full-proceed _ l r' _ _ _ e λ s'.
                stream-windows f g r' _ ls _ _ s' rs (omega (arith, h')) (omega arith)
                  (omega (arith, h')))
      ]
