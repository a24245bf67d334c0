-- ===== src/Window/Spans.antt =====
-- What both chunkers of internal/indexer/chunk are to produce: the list of line windows of a file,
-- with no buffer and no index arithmetic in it, and the chunks of these windows in order.
use mcp_semantic_search_zvec.Prelude.{
  ℕ, zero, suc, ◌+◌, ◌-◌, List, [], ◌∷◌, ◌++◌, Option, none, some, leb, if◌then◌else◌, length, take,
  drop,
}
use mcp_semantic_search_zvec.Bytes.{Bytes}
use mcp_semantic_search_zvec.Window.{Chunk, SlideWindowMeta, chunk_from_line_window}
use mcp_semantic_search_zvec.Window.Stream.{skip_bytes, add_if}

pub record Span : Type 0 where
  pub lines : List Bytes
  pub start : ℕ
  pub byte : ℕ

-- Windows of `window` lines, each `window - overlap` lines behind the one before, up to the first
-- that reaches the end.
unfoldable pub windows : ℕ → ℕ → ℕ → List Bytes → ℕ → ℕ → List Span
windows window overlap zero ls start byte = []
windows window overlap (suc fuel) ls start byte =
    let step = window - overlap in
    let rest =
      windows window overlap fuel (drop step ls) (start + step) (skip_bytes step ls byte) in
    record { lines = take window ls; start = start; byte = byte }
    ∷ (if leb (length ls) window then [] else rest)

unfoldable pub span_chunk : Bytes → ℕ → SlideWindowMeta → Span → Option Chunk
span_chunk rel start_line_offset meta sp =
    chunk_from_line_window rel sp.lines (start_line_offset + sp.start)
      (record meta { content_start_byte = sp.byte })

module _ {S E : Type 0} where
  -- Goes on unless there was an error.
  unfoldable pub proceed : S × Option E → (S → S × Option E) → S × Option E
  proceed (s, none) next = next s
  proceed (s, some e) next = (s, some e)

  unfoldable pub emit_chunks : (S → Chunk → S × Option E) → List (Option Chunk) → S → S × Option E
  unfolding proceed
  emit_chunks emit [] s = (s, none)
  emit_chunks emit (ch ∷ chs) s = proceed (add_if emit ch s) (emit_chunks emit chs)

-- The lines of the windows behind their overlap with the window before.
unfoldable pub stitch_rest : ℕ → List Span → List Bytes
stitch_rest overlap [] = []
stitch_rest overlap (sp ∷ sps) = drop overlap sp.lines ++ stitch_rest overlap sps

-- The lines of the first window, and of each later one those behind the overlap.
unfoldable pub stitch : ℕ → List Span → List Bytes
unfolding stitch_rest
stitch overlap [] = []
stitch overlap (sp ∷ sps) = sp.lines ++ stitch_rest overlap sps
