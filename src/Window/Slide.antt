-- ===== src/Window/Slide.antt =====
-- SlideWindowEmit of internal/indexer/chunk/line_window.go. The callback returns the caller's state
-- and an error, if there is one; `E` is Go's `error`.
use mcp_semantic_search_zvec.Prelude.{
  ℕ, zero, suc, ◌+◌, ◌-◌, ◌/◌, Bool, true, false, ◌&&◌, List, [], ◌∷◌, Option, none, some, ltb, leb,
  ◌==◌, if◌then◌else◌, length, get_or, take, drop, is_positive, magnitude, min,
}
use mcp_semantic_search_zvec.Bytes.{Bytes}
use mcp_semantic_search_zvec.Window.{
  Chunk, SlideWindowMeta, normalize_window_opts, chunk_from_line_window,
}

-- The start of each line, one byte for each line end between two lines.
unfoldable pub line_offsets : ℕ → List Bytes → List ℕ
line_offsets off [] = []
line_offsets off (l ∷ []) = off ∷ []
line_offsets off (l ∷ m ∷ ls) = off ∷ line_offsets (off + length l + 1) (m ∷ ls)

-- counter != nil && x > 0
unfoldable pub counts : SlideWindowMeta → Bool
counts meta = elim meta.counter [ none ↦ false | some c ↦ is_positive meta.max_tokens ]

-- ch != nil && counter.Count(ch.Snippet) > meta.MaxTokens
unfoldable pub over_budget : SlideWindowMeta → Option Chunk → Bool
over_budget meta none = false
over_budget meta (some ch) = elim meta.counter [
  | none ↦ false
  | some count ↦ ltb (magnitude meta.max_tokens) (count ch.snippet)
]

-- counter != nil && minTokens > 0 && counter.Count(ch.Snippet) < minTokens
unfoldable pub under_minimum : SlideWindowMeta → Chunk → Bool
under_minimum meta ch = elim meta.counter [
  | none ↦ false
  | some count ↦ is_positive meta.min_tokens && ltb (count ch.snippet) (magnitude meta.min_tokens)
]

-- The binary search for the last line of a window; `over mid` is the test of its body.
unfoldable pub shrink : ℕ → (ℕ → Bool) → ℕ → ℕ → ℕ
shrink zero over lo hi = lo
shrink (suc fuel) over lo hi = elim (ltb lo hi) [
  | true ↦
      let mid = lo + (hi - lo + 1) / 2 in
      elim (over mid) [ true ↦ shrink fuel over lo (mid - 1) | false ↦ shrink fuel over mid hi ]
  | false ↦ lo
]

-- One round either ends the loop, with an error or none, or goes on at a later line.
pub data Round (S E : Type 0) : Type 0 where
  finished : S → Option E → Round S E
  continue : ℕ → S → Round S E

-- Goes on with the loop, or ends it.
unfoldable pub resume : {S E : Type 0} → (ℕ → S → S × Option E) → Round S E → S × Option E
resume loop (finished s err) = (s, err)
resume loop (continue start s) = loop start s

module _ {S E : Type 0} (emit : S → Chunk → S × Option E) (rel : Bytes) (all_lines : List Bytes)
    (start_line_offset : ℕ) (meta : SlideWindowMeta) where
  -- The chunk of the lines from `start` up to `mid`.
  unfoldable pub window_chunk : ℕ → ℕ → Option Chunk
  window_chunk start mid =
      chunk_from_line_window rel (take (mid - start) (drop start all_lines))
        (start_line_offset + start)
        (record meta {
          content_start_byte = get_or (line_offsets meta.content_start_byte all_lines) start 0;
        })

  unfoldable pub window_end : ℕ → ℕ
  window_end start =
      let end =
        min (start + (normalize_window_opts meta.window meta.overlap).0) (length all_lines) in
      if counts meta
      then shrink (length all_lines) (λ mid. over_budget meta (window_chunk start mid)) (start + 1)
          end
      else end

  -- `next := end - overlap`, one line further at least.
  unfoldable pub advance : ℕ → ℕ → S → Round S E
  advance start end s =
      if end == length all_lines
      then finished s none
      else (let next = end - (normalize_window_opts meta.window meta.overlap).1 in
          continue (if leb next start then start + 1 else next) s)

  unfoldable pub after_emit : ℕ → ℕ → S × Option E → Round S E
  unfolding advance
  after_emit start end (s, some e) = finished s (some e)
  after_emit start end (s, none) = advance start end s

  unfoldable pub emit_window : ℕ → ℕ → Option Chunk → S → Round S E
  unfolding advance after_emit under_minimum
  emit_window start end none s = advance start end s
  emit_window start end (some ch) s =
      if under_minimum meta ch
      then (if end == length all_lines then finished s none else continue (start + 1) s)
      else after_emit start end (emit s ch)

  unfoldable pub slide_round : ℕ → S → Round S E
  unfolding window_chunk window_end emit_window
  slide_round start s =
      if ltb start (length all_lines)
      then (let end = window_end start in emit_window start end (window_chunk start end) s)
      else finished s none

  unfoldable pub slide : ℕ → ℕ → S → S × Option E
  unfolding slide_round resume
  slide zero start s = (s, none)
  slide (suc fuel) start s = resume (slide fuel) (slide_round start s)

  -- Each round that goes on starts at a later line, so a round for each line is enough.
  unfoldable pub slide_window_emit : S → S × Option E
  unfolding slide
  slide_window_emit s = slide (length all_lines) 0 s
