-- ===== src/Window/Files.antt =====
-- The two ways from a file to its chunks: FileChunksEmit with its callers in
-- internal/indexer/chunk/line_window.go, and checkMaxLineBytes of chunk.go.
use mcp_semantic_search_zvec.Prelude.{
  Bool, true, List, [], ◌∷◌, ◌++◌, Option, none, if◌then◌else◌, ℤ, is_positive, magnitude,
}
use mcp_semantic_search_zvec.Bytes.{Bytes, prepare_content, split_lines, line_lengths_fit}
use mcp_semantic_search_zvec.Window.{Chunk, normalize_window_opts}
use mcp_semantic_search_zvec.Window.Slide.{slide_window_emit}
use mcp_semantic_search_zvec.Window.Stream.{line_window_meta}

-- The fields of `Options` that the line windows read; the others choose among the AST chunkers.
pub record Options : Type 0 where
  pub window_lines : ℤ
  pub overlap_lines : ℤ
  pub max_file_bytes : ℤ
  pub stream_threshold_bytes : ℤ
  pub max_line_bytes : ℤ

unfoldable pub check_max_line_bytes : Bytes → ℤ → Bool
unfolding line_lengths_fit
check_max_line_bytes content max_line =
    if is_positive max_line then line_lengths_fit (magnitude max_line) 0 content else true

unfoldable pub file_chunks_emit :
    {S E : Type 0} → (S → Chunk → S × Option E) → Bytes → Bytes → ℤ → ℤ → S → S × Option E
unfolding normalize_window_opts prepare_content split_lines slide_window_emit
file_chunks_emit emit rel content window_lines overlap_lines s =
    let (window, overlap) = normalize_window_opts window_lines overlap_lines in
    slide_window_emit emit rel (split_lines (prepare_content content)) 1
      (line_window_meta window overlap) s

-- The callback of FileChunks, which never fails.
unfoldable pub collect : {E : Type 0} → List Chunk → Chunk → List Chunk × Option E
collect chunks ch = (chunks ++ ch ∷ [], none)

unfoldable pub file_chunks : Bytes → Bytes → ℤ → ℤ → List Chunk
unfolding file_chunks_emit collect
file_chunks rel content window_lines overlap_lines =
    (file_chunks_emit (collect {E = ⊥}) rel content window_lines overlap_lines []).0
