-- ===== src/Tests/Windows.antt =====
-- The line windows of internal/indexer/chunk on a file of five lines.
use mcp_semantic_search_zvec.Prelude.{
  ℕ, ◌≤◌, ◌<◌, ◌≡◌, refl, true, false, List, [], ◌∷◌, some, length, arith, pos, map,
}
use mcp_semantic_search_zvec.Bytes.{
  Bytes, codes, is_blank, join_lines, prepare_content, split_lines, line_lengths_fit,
  strip_utf8_bom,
}
use mcp_semantic_search_zvec.Window.{SlideWindowMeta, normalize_window_opts, chunk_from_line_window}
use mcp_semantic_search_zvec.Window.Slide.{counts, slide, window_end}
use mcp_semantic_search_zvec.Window.Stream.{line_window_meta, stream_chunk_batched}
use mcp_semantic_search_zvec.Window.Reader.{read_line, too_long}
use mcp_semantic_search_zvec.Window.Files.{collect, file_chunks, file_chunks_emit}
use mcp_semantic_search_zvec.Window.Options.{IsNormal, normalize_window_opts-IsNormal}
use mcp_semantic_search_zvec.Window.Parity.{stream_chunk_batched-eq-file_chunks_emit}
use mcp_semantic_search_zvec.Window.Spans.{stitch, emit_chunks, span_chunk}
use mcp_semantic_search_zvec.Window.Coverage.{file_spans, file_chunks_emit-covers}
use mcp_semantic_search_zvec.Window.Slices.{All, IsPlaced, file_chunks-IsPlaced}
use mcp_semantic_search_zvec.Window.Budget.{
  Found, full_end, too_big, window_end-IsBest, slide_total,
}
use mcp_semantic_search_zvec.Window.Limits.{limits_differ}

abbrev content : Bytes
content = codes "ab\ncd\r\n\n ef\ng"

abbrev rel : Bytes
rel = codes "src/a.go"

chunk_lines :
    map {B = ℕ × ℕ} (λ ch. (ch.start_line, ch.end_line)) (file_chunks rel content (pos 2) (pos 1))
    ≡ (1, 2) ∷ (2, 3) ∷ (3, 4) ∷ (4, 5) ∷ []
unfolding file_chunks chunk_from_line_window counts is_blank join_lines
chunk_lines = refl

stream_chunk_batched-eq-file_chunks_emit_example :
    stream_chunk_batched 7 (collect {E = ℕ}) rel content (pos 2) (pos 1) 4 []
    ≡ file_chunks_emit (collect {E = ℕ}) rel content (pos 2) (pos 1) []
unfolding line_lengths_fit strip_utf8_bom
stream_chunk_batched-eq-file_chunks_emit_example =
    stream_chunk_batched-eq-file_chunks_emit 7 (collect {E = ℕ}) rel content (pos 2) (pos 1) 3 []
      refl

file_chunks_emit-covers_example :
    (file_chunks_emit (collect {E = ℕ}) rel content (pos 2) (pos 1) []
      ≡ emit_chunks
          (collect {E = ℕ})
          (map
            (span_chunk rel 1 (
              line_window_meta
                (normalize_window_opts (pos 2) (pos 1)).0
                (normalize_window_opts (pos 2) (pos 1)).1))
            (file_spans content (pos 2) (pos 1)))
          [])
    × (stitch (normalize_window_opts (pos 2) (pos 1)).1 (file_spans content (pos 2) (pos 1))
        ≡ split_lines (prepare_content content))
file_chunks_emit-covers_example =
    file_chunks_emit-covers (collect {E = ℕ}) rel content (pos 2) (pos 1) []

file_chunks-IsPlaced_example :
    All (IsPlaced (prepare_content content)) (file_chunks rel content (pos 2) (pos 1))
file_chunks-IsPlaced_example = file_chunks-IsPlaced rel content (pos 2) (pos 1)

normalize_window_opts-IsNormal_example : IsNormal (normalize_window_opts (pos 3) (pos 9))
normalize_window_opts-IsNormal_example = normalize_window_opts-IsNormal (pos 3) (pos 9)

-- A budget of five tokens, one for each byte.
abbrev budget : SlideWindowMeta
budget = record (line_window_meta 4 1) { max_tokens = pos 5; counter = some (λ s. length s) }

abbrev lines : List Bytes
lines = codes "ab" ∷ codes "cd" ∷ codes "ef" ∷ []

window_end-IsBest_example :
    Found
      (too_big (collect {E = ℕ}) rel lines 1 budget 0)
      1
      (full_end (collect {E = ℕ}) rel lines 1 budget 0)
      (window_end (collect {E = ℕ}) rel lines 1 budget 0)
    × ((k : ℕ)
        → ((i j : ℕ)
            → i ≤ j
            → too_big (collect {E = ℕ}) rel lines 1 budget 0 i ≡ true
            → too_big (collect {E = ℕ}) rel lines 1 budget 0 j ≡ true)
        → 0 < k
        → k ≤ full_end (collect {E = ℕ}) rel lines 1 budget 0
        → too_big (collect {E = ℕ}) rel lines 1 budget 0 k ≡ false
        → k ≤ window_end (collect {E = ℕ}) rel lines 1 budget 0)
unfolding counts
window_end-IsBest_example =
    window_end-IsBest (collect {E = ℕ}) rel lines 1 budget 0 refl (omega arith)

slide_total_example :
    slide (collect {E = ℕ}) rel lines 1 budget 9 0 []
    ≡ slide (collect {E = ℕ}) rel lines 1 budget 3 0 []
slide_total_example = slide_total (collect {E = ℕ}) rel lines 1 budget 3 6 0 [] (omega arith)

limits_differ_example :
    (line_lengths_fit 2 0 (codes "ab\ncd") ≡ line_lengths_fit 2 0 (codes "cd"))
    × (read_line (record { rest = codes "ab\ncd"; max_line = 2; pending_empty = false }) ≡ too_long)
limits_differ_example = limits_differ (codes "ab") (codes "cd") (refl, refl, (refl, refl, tt))
