-- ===== src/Window/Stream.antt =====
-- streamChunkBatched of internal/indexer/chunk/stream.go, over any reader and any callback.
use mcp_semantic_search_zvec.Prelude.{
  ℕ, zero, suc, ◌+◌, ◌-◌, List, [], ◌∷◌, ◌++◌, Option, none, some, ltb, if◌then◌else◌, length, take,
  drop, ℤ, pos,
}
use mcp_semantic_search_zvec.Bytes.{Bytes}
use mcp_semantic_search_zvec.Window.{
  Chunk, SlideWindowMeta, normalize_window_opts, chunk_from_line_window,
}
use mcp_semantic_search_zvec.Window.Reader.{Read, line, eof, too_long, new_line_reader, read_line}

abbrev pub line_window_meta : ℕ → ℕ → SlideWindowMeta
line_window_meta window overlap = record {
  window = pos window;
  overlap = pos overlap;
  chunk_strategy = "line_window";
  symbol_kind = "";
  symbol_name = "";
  parent_scope = "";
  max_tokens = pos 0;
  counter = none;
  min_tokens = pos 0;
  content_start_byte = 0;
}

-- for i := 0; i < step && i < len(buf); i++ { bytePos += len(buf[i]) + 1 }
unfoldable pub skip_bytes : ℕ → List Bytes → ℕ → ℕ
skip_bytes zero buf byte_pos = byte_pos
skip_bytes (suc i) [] byte_pos = byte_pos
skip_bytes (suc i) (l ∷ buf) byte_pos = skip_bytes i buf (byte_pos + length l + 1)

-- What the loop carries: the reader, the buffer, the index of its first line and that line's byte.
pub record Cursor (R : Type 0) : Type 0 where
  pub reader : R
  pub buf : List Bytes
  pub start : ℕ
  pub byte_pos : ℕ

pub data StreamRound (R S E : Type 0) : Type 0 where
  finished : S → Option E → StreamRound R S E
  continue : Cursor R → S → StreamRound R S E

-- coll.add(ch) where there is a chunk
unfoldable pub add_if :
    {S E : Type 0} → (S → Chunk → S × Option E) → Option Chunk → S → S × Option E
add_if add none s = (s, none)
add_if add (some ch) s = add s ch

-- Goes on with the loop, or ends it.
unfoldable pub resume :
    {R S E : Type 0} → (Cursor R → S → S × Option E) → StreamRound R S E → S × Option E
resume loop (finished s err) = (s, err)
resume loop (continue c s) = loop c s

module _ {R S E : Type 0} (read : R → Read R) (line_too_long : E) (add : S → Chunk → S × Option E)
    (rel : Bytes) (window overlap : ℕ) where
  unfoldable pub buffer_chunk : List Bytes → ℕ → ℕ → Option Chunk
  buffer_chunk buf start byte_pos =
      chunk_from_line_window rel buf (start + 1)
        (record (line_window_meta window overlap) { content_start_byte = byte_pos })

  -- The tail window is shorter than `window`; an empty buffer has no chunk.
  unfoldable pub fill_round : Cursor R → Read R → S → StreamRound R S E
  unfolding buffer_chunk add_if
  fill_round c (line l r) s = continue (record c { reader = r; buf = c.buf ++ l ∷ [] }) s
  fill_round c eof s =
      let (s', err) = add_if add (buffer_chunk c.buf c.start c.byte_pos) s in finished s' err
  fill_round c too_long s = finished s (some line_too_long)

  -- After a full window the buffer keeps its last `overlap` lines.
  unfoldable pub slide_round : Cursor R → Read R → S → StreamRound R S E
  slide_round c (line l r) s =
      let step = window - overlap in
      continue
        (record {
          reader = r;
          buf = drop step (take window c.buf) ++ l ∷ [];
          start = c.start + step;
          byte_pos = skip_bytes step c.buf c.byte_pos;
        })
        s
  slide_round c eof s = finished s none
  slide_round c too_long s = finished s (some line_too_long)

  unfoldable pub full_round : Cursor R → S × Option E → StreamRound R S E
  unfolding slide_round
  full_round c (s, some e) = finished s (some e)
  full_round c (s, none) = slide_round c (read c.reader) s

  unfoldable pub stream_round : Cursor R → S → StreamRound R S E
  unfolding fill_round full_round buffer_chunk add_if
  stream_round c s =
      if ltb (length c.buf) window
      then fill_round c (read c.reader) s
      else full_round c (add_if add (buffer_chunk (take window c.buf) c.start c.byte_pos) s)

  -- A round for each line that is read.
  unfoldable pub stream : ℕ → Cursor R → S → S × Option E
  unfolding stream_round resume
  stream zero c s = (s, none)
  stream (suc fuel) c s = resume (stream fuel) (stream_round c s)

-- Every line ends at a byte of the content, but for one; so there are at most that many rounds.
-- The limit of a line is the one that is left after its default.
unfoldable pub stream_chunk_batched :
    {S E : Type 0} → E → (S → Chunk → S × Option E) → Bytes → Bytes → ℤ → ℤ → ℕ → S → S × Option E
unfolding stream new_line_reader read_line normalize_window_opts
stream_chunk_batched line_too_long add rel content window_lines overlap_lines max_line s =
    let (window, overlap) = normalize_window_opts window_lines overlap_lines in
    stream read_line line_too_long add rel window overlap (length content + 2)
      (record { reader = new_line_reader content max_line; buf = []; start = 0; byte_pos = 0 }) s
