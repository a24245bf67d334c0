-- ===== src/Window/Reader.antt =====
-- The line reader of internal/indexer/chunk/stream.go, over the bytes that are still unread. A
-- failing disk read is not modelled: the reader ends at the end of the content.
use mcp_semantic_search_zvec.Prelude.{
  ℕ, ◌+◌, Bool, true, false, [], ◌∷◌, ◌++◌, ltb, ◌==◌, if◌then◌else◌,
}
use mcp_semantic_search_zvec.Bytes.{Bytes, is_empty, strip_utf8_bom}

pub record LineReader : Type 0 where
  pub rest : Bytes
  pub max_line : ℕ
  pub pending_empty : Bool

-- What one call of a reader gives: a line and the reader after it, io.EOF, or another error.
pub data Read (R : Type 0) : Type 0 where
  line : Bytes → R → Read R
  eof : Read R
  too_long : Read R

unfoldable pub new_line_reader : Bytes → ℕ → LineReader
unfolding strip_utf8_bom
new_line_reader content max_line = record {
  rest = strip_utf8_bom content;
  max_line = max_line;
  pending_empty = false;
}

-- line[:len(line)-1] where the last byte is a carriage return
unfoldable pub strip_cr : Bytes → Bytes
strip_cr [] = []
strip_cr (b ∷ []) = if b == b'\r' then [] else b ∷ []
strip_cr (b ∷ c ∷ l) = b ∷ strip_cr (c ∷ l)

-- markTrailingEmptyAfterNewline, and the return of the line
unfoldable pub end_line : ℕ → Bytes → Bytes → Read LineReader
unfolding strip_cr
end_line max_line l rest =
    line (strip_cr l) (record { rest = rest; max_line = max_line; pending_empty = is_empty rest })

unfoldable pub after_cr : ℕ → Bytes → Bytes → Read LineReader
unfolding end_line
after_cr max_line l [] = end_line max_line l []
after_cr max_line l (b ∷ rest) =
    if b == b'\n' then end_line max_line l rest else end_line max_line l (b ∷ rest)

-- The loop of readLine: the bytes of the line so far, and how many bytes were read.
unfoldable pub read_bytes : ℕ → Bytes → ℕ → Bytes → Read LineReader
unfolding end_line after_cr
read_bytes max_line l size [] =
    if is_empty l
    then eof
    else line l (record { rest = []; max_line = max_line; pending_empty = false })
read_bytes max_line l size (b ∷ rest) = elim (ltb max_line (size + 1)) [
  | true ↦ too_long
  | false ↦ elim (b == b'\n') [
    | true ↦ end_line max_line l rest
    | false ↦ elim (b == b'\r') [
      | true ↦ after_cr max_line l rest
      | false ↦ read_bytes max_line (l ++ b ∷ []) (size + 1) rest
    ]
  ]
]

unfoldable pub read_line : LineReader → Read LineReader
unfolding read_bytes
read_line r =
    if r.pending_empty
    then line [] (record r { pending_empty = false })
    else read_bytes r.max_line [] 0 r.rest
