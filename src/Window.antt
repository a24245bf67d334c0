-- ===== src/Window.antt =====
-- internal/indexer/chunk/chunk.go (chunkFromLineWindow), line_window.go (options and metadata) and
-- the struct Chunk of internal/store/zvec/store.go.
pub mod Slide
pub mod Reader
pub mod Stream
pub mod Spans
pub mod Streamed
pub mod InMemory
pub mod Reading
pub mod Options
pub mod Files
pub mod Parity
pub mod Coverage
pub mod Slices
pub mod Budget
pub mod Limits
use mcp_semantic_search_zvec.Prelude.{
  ℕ, zero, suc, ◌+◌, ◌-◌, ◌/◌, ◌<◌, ◌≤◌, ◌≡◌, Bool, true, false, List, [], ◌∷◌, Option, none, some,
  String, str_eq, leb, if◌then◌else◌, length, arith, ℤ, positive_or,
}
use mcp_semantic_search_zvec.Bytes.{Bytes, is_blank, join_lines, base, chunk_type_for_path}

pub record Chunk : Type 0 where
  pub doc_id : String
  pub relative_path : Bytes
  pub start_line : ℕ
  pub end_line : ℕ
  pub start_byte : ℕ
  pub end_byte : ℕ
  pub chunk_type : String
  pub name : Bytes
  pub snippet : Bytes
  pub symbol_name : String
  pub symbol_kind : String
  pub parent_scope : String
  pub chunk_strategy : String

-- The token counter is an interface of the program, with several implementations: a parameter.
pub record SlideWindowMeta : Type 0 where
  pub window : ℤ
  pub overlap : ℤ
  pub chunk_strategy : String
  pub symbol_kind : String
  pub symbol_name : String
  pub parent_scope : String
  pub max_tokens : ℤ
  pub counter : Option (Bytes → ℕ)
  pub min_tokens : ℤ
  pub content_start_byte : ℕ

abbrev pub default_window_lines : ℕ
default_window_lines = 40

abbrev pub default_overlap_lines : ℕ
default_overlap_lines = 8

abbrev pub default_stream_threshold_bytes : ℕ
default_stream_threshold_bytes = 262144

abbrev pub default_max_line_bytes : ℕ
default_max_line_bytes = 1048576

-- Both results are positive, so that they are used as sizes from here on.
unfoldable pub normalize_window_opts : ℤ → ℤ → ℕ × ℕ
normalize_window_opts window_lines overlap_lines =
    let window = positive_or window_lines default_window_lines in
    let overlap = positive_or overlap_lines default_overlap_lines in
    (window, if leb window overlap then window / 4 else overlap)

unfoldable pub line_chunk : Bytes → List Bytes → ℕ → SlideWindowMeta → Chunk
line_chunk rel lines start_line meta =
    let snippet = join_lines lines in
    record {
      doc_id = "";
      relative_path = rel;
      start_line = start_line;
      end_line = start_line + length lines - 1;
      start_byte = meta.content_start_byte;
      end_byte = meta.content_start_byte + length snippet;
      chunk_type = chunk_type_for_path rel;
      name = base rel;
      snippet = snippet;
      symbol_name = meta.symbol_name;
      symbol_kind = meta.symbol_kind;
      parent_scope = meta.parent_scope;
      chunk_strategy = if str_eq meta.chunk_strategy "" then "line_window" else meta.chunk_strategy;
    }

unfoldable pub chunk_from_line_window : Bytes → List Bytes → ℕ → SlideWindowMeta → Option Chunk
unfolding line_chunk
chunk_from_line_window rel [] start_line meta = none
chunk_from_line_window rel (l ∷ ls) start_line meta =
    if is_blank (join_lines (l ∷ ls)) then none else some (line_chunk rel (l ∷ ls) start_line meta)
