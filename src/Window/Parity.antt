-- ===== src/Window/Parity.antt =====
-- The streaming and the in-memory chunker make the same calls of their callback, in the same order.
use mcp_semantic_search_zvec.Prelude.{
  ℕ, suc, ◌+◌, ◌≤◌, ◌<◌, ◌≡◌, refl, sym, ◌∙◌, ap, true, false, List, [], ◌∷◌, Option, none, length,
  arith, ℤ, Bool-cases, inl, inr, ◌==◌,
}
use mcp_semantic_search_zvec.Bytes.{
  Bytes, is_empty, strip_utf8_bom, replace_crlf, replace_cr, normalize_line_endings,
  prepare_content, split_lines, cons_head, line_lengths_fit,
}
use mcp_semantic_search_zvec.Window.{Chunk}
use mcp_semantic_search_zvec.Window.Reader.{read_line, new_line_reader}
use mcp_semantic_search_zvec.Window.Slide.{slide_window_emit}
use mcp_semantic_search_zvec.Window.Stream.{
  stream, stream_chunk_batched, line_window_meta, skip_bytes,
}
use mcp_semantic_search_zvec.Window.Files.{file_chunks_emit}
use mcp_semantic_search_zvec.Window.Options.{IsNormal, normalize_window_opts-IsNormal}
use mcp_semantic_search_zvec.Window.Streamed.{
  emitted, stream-windows, emitted_last, no_windows, blank_line,
}
use mcp_semantic_search_zvec.Window.InMemory.{slide-windows}
use mcp_semantic_search_zvec.Window.Reading.{lines_of, reader_at, at_end, Reads-content}

length-cons_head : (b : ℕ) (ls : List Bytes) → length (cons_head b ls) ≤ length ls + 1
length-cons_head b [] = omega arith
length-cons_head b (l ∷ ls) = omega arith

length-split_lines : (s : Bytes) → length (split_lines s) ≤ length s + 1
unfolding split_lines
length-split_lines [] = omega arith
length-split_lines (b ∷ s) =
    ground (arith, length-split_lines s, length-cons_head b (split_lines s))

pub split_lines-pos : (s : Bytes) → 0 < length (split_lines s)
unfolding split_lines
split_lines-pos [] = omega arith
split_lines-pos (b ∷ s) = elim (Bool-cases (b == b'\n')) [
  | inl lf ↦ rw lf (omega arith)
  | inr other ↦ rw other (cons_head-pos (split_lines s))
]
  where
    cons_head-pos : (ls : List Bytes) → 0 < length (cons_head b ls)
    cons_head-pos [] = omega arith
    cons_head-pos (l ∷ ls) = omega arith

length-replace_cr : (s : Bytes) → length (replace_cr s) ≡ length s
unfolding replace_cr
length-replace_cr [] = refl
length-replace_cr (b ∷ s) = ap suc (length-replace_cr s)

length-replace_crlf : (s : Bytes) → length (replace_crlf s) ≤ length s
unfolding replace_crlf
length-replace_crlf [] = omega arith
length-replace_crlf (b ∷ []) = omega arith
length-replace_crlf (b ∷ c ∷ s) = ground (arith, length-replace_crlf s, length-replace_crlf (c ∷ s))

length-strip_utf8_bom : (s : Bytes) → length (strip_utf8_bom s) ≤ length s
unfolding strip_utf8_bom
length-strip_utf8_bom [] = omega arith
length-strip_utf8_bom (a ∷ []) = omega arith
length-strip_utf8_bom (a ∷ b ∷ []) = omega arith
length-strip_utf8_bom (a ∷ b ∷ c ∷ s) = ground arith

length-lines_of : (s : Bytes) → length (lines_of s) ≤ length s + 1
unfolding normalize_line_endings
length-lines_of s = omega (
  arith,
  length-split_lines (replace_cr (replace_crlf s)),
  length-replace_cr (replace_crlf s),
  length-replace_crlf s,
)

module _ {S E : Type 0} (add : S → Chunk → S × Option E) (rel : Bytes) (w o : ℕ)
    (norm : IsNormal (w, o)) where
  -- Both are the windows of the same lines.
  pub in_memory :
      (ls : List Bytes) (s : S)
      → 0 < length ls
      → slide_window_emit add rel ls 1 (line_window_meta w o) s
        ≡ emitted add rel w o (length ls) ls 0 0 s
  unfolding slide_window_emit skip_bytes
  in_memory ls s h =
      slide-windows add rel ls w o norm.moves norm.settled (length ls) 0 s h (omega arith)

  in_memory_empty :
      (s : S) → slide_window_emit add rel ([] ∷ []) 1 (line_window_meta w o) s ≡ (s, none)
  in_memory_empty s =
      in_memory ([] ∷ []) s (omega arith)
      ∙ emitted_last add rel w o 1 ([] ∷ []) 0 0 s norm.some_lines (omega arith)
      ∙ blank_line add rel w o s

module _ {S E : Type 0} (line_too_long : E) (add : S → Chunk → S × Option E) (rel : Bytes) (w o : ℕ)
    (norm : IsNormal (w, o)) where
  streamed :
      (content : Bytes) (m : ℕ) (s : S)
      → line_lengths_fit m 0 (strip_utf8_bom content) ≡ true
      → is_empty (strip_utf8_bom content) ≡ false
      → stream read_line line_too_long add rel w o
          (length content + 2)
          (record { reader = new_line_reader content (suc m); buf = []; start = 0; byte_pos = 0 })
          s
        ≡ emitted add rel w o
            (length (lines_of (strip_utf8_bom content)))
            (lines_of (strip_utf8_bom content))
            0
            0
            s
  unfolding new_line_reader
  streamed content m s fit some_byte =
      stream-windows read_line line_too_long add rel w o norm.moves (length content + 2) _
        (reader_at m (strip_utf8_bom content) false) [] (lines_of (strip_utf8_bom content)) 0 0 s
        (Reads-content m (strip_utf8_bom content) some_byte fit) (omega arith)
        (omega (arith, length-lines_of (strip_utf8_bom content), length-strip_utf8_bom content))
        (omega arith)

  streamed_empty :
      (content : Bytes) (m : ℕ) (s : S)
      → strip_utf8_bom content ≡ []
      → stream read_line line_too_long add rel w o
          (length content + 2)
          (record { reader = new_line_reader content (suc m); buf = []; start = 0; byte_pos = 0 })
          s
        ≡ (s, none)
  unfolding new_line_reader
  streamed_empty content m s e = rw e (
      stream-windows read_line line_too_long add rel w o norm.moves (length content + 2) 0
        (reader_at m [] false) [] [] 0 0 s (at_end m) (omega arith) (omega arith) (omega arith)
      ∙ no_windows add rel w o 0 0 s)

is_empty→nil : (s : Bytes) → is_empty s ≡ true → s ≡ []
is_empty→nil [] h = refl
is_empty→nil (b ∷ s) h = cc

-- Content that the in-memory check accepts at a line limit is streamed at a limit one byte larger,
-- which leaves room for the line end, without an error of its own, and the callback then gets
-- exactly the chunks of the in-memory chunker, in its order, up to the same first error: for every
-- callback, path, content and window options.
pub stream_chunk_batched-eq-file_chunks_emit :
    {S E : Type 0} (line_too_long : E) (add : S → Chunk → S × Option E) (rel content : Bytes)
    (window_lines overlap_lines : ℤ) (m : ℕ) (s : S)
    → line_lengths_fit m 0 (strip_utf8_bom content) ≡ true
    → stream_chunk_batched line_too_long add rel content window_lines overlap_lines (suc m) s
      ≡ file_chunks_emit add rel content window_lines overlap_lines s
unfolding stream_chunk_batched file_chunks_emit prepare_content
stream_chunk_batched-eq-file_chunks_emit line_too_long add rel content a b m s fit =
    elim (Bool-cases (is_empty (strip_utf8_bom content))) [
      | inl nothing ↦
          let e = is_empty→nil (strip_utf8_bom content) nothing in
          streamed_empty line_too_long add rel _ _ (normalize_window_opts-IsNormal a b) content m s
            e
          ∙ sym (
              rw (e, normalize_line_endings, split_lines)
                (in_memory_empty add rel _ _ (normalize_window_opts-IsNormal a b) s))
      | inr some_byte ↦
          streamed line_too_long add rel _ _ (normalize_window_opts-IsNormal a b) content m s fit
            some_byte
          ∙ sym (
              in_memory add rel _ _ (normalize_window_opts-IsNormal a b) _ s
                (split_lines-pos (normalize_line_endings (strip_utf8_bom content))))
    ]
