-- ===== src/Bytes.antt =====
-- Text as bytes: the functions of Go's `strings`, `bytes` and `path/filepath` (Unix separators) that
-- internal/indexer/chunk uses, and the byte-level helpers of internal/indexer/chunk/chunk.go.
use Prim.Native.Char.{code}
use mcp_semantic_search_zvec.Prelude.{
  ℕ, ◌+◌, ◌≡◌, refl, Bool, true, false, ◌&&◌, ◌||◌, List, [], ◌∷◌, ◌++◌, String, ltb, leb, ◌==◌,
  if◌then◌else◌,
}

abbrev pub Bytes : Type 0
Bytes = List ℕ

-- The bytes of an ASCII text.
abbrev pub codes : String → Bytes
codes String.[] = []
codes (String.◌∷◌ c s) = code c ∷ codes s

abbrev pub same : Bytes → Bytes → Bool
same [] [] = true
same [] (y ∷ ys) = false
same (x ∷ xs) [] = false
same (x ∷ xs) (y ∷ ys) = x == y && same xs ys

abbrev pub is_empty : Bytes → Bool
is_empty [] = true
is_empty (x ∷ xs) = false

-- The white space of `unicode.IsSpace`, by the length of its UTF-8 encoding.
abbrev space_1 : ℕ → Bool
space_1 a = (leb 9 a && leb a 13) || a == 32

abbrev space_2 : ℕ → ℕ → Bool
space_2 a b = a == 0xC2 && (b == 0x85 || b == 0xA0)

abbrev space_3 : ℕ → ℕ → ℕ → Bool
space_3 a b c =
    (a == 0xE1 && b == 0x9A && c == 0x80)
    || (a == 0xE2 && b == 0x80 && (leb 0x80 c && leb c 0x8A || c == 0xA8 || c == 0xA9 || c == 0xAF))
    || (a == 0xE2 && b == 0x81 && c == 0x9F)
    || (a == 0xE3 && b == 0x80 && c == 0x80)

-- strings.TrimSpace(s) == ""
unfoldable pub is_blank : Bytes → Bool
is_blank [] = true
is_blank (a ∷ []) = space_1 a
is_blank (a ∷ b ∷ []) = (space_1 a && space_1 b) || space_2 a b
is_blank (a ∷ b ∷ c ∷ s) = elim (space_1 a) [
  | true ↦ is_blank (b ∷ c ∷ s)
  | false ↦ elim (space_2 a b) [
    | true ↦ is_blank (c ∷ s)
    | false ↦ elim (space_3 a b c) [ true ↦ is_blank s | false ↦ false ]
  ]
]

-- strings.Join(lines, "\n")
unfoldable pub join_lines : List Bytes → Bytes
join_lines [] = []
join_lines (l ∷ []) = l
join_lines (l ∷ m ∷ ls) = l ++ b'\n' ∷ join_lines (m ∷ ls)

-- stripUTF8BOM
unfoldable pub strip_utf8_bom : Bytes → Bytes
strip_utf8_bom (a ∷ b ∷ c ∷ s) = if a == 0xEF && b == 0xBB && c == 0xBF then s else a ∷ b ∷ c ∷ s
strip_utf8_bom s = s

-- bytes.ReplaceAll(content, "\r\n", "\n")
unfoldable pub replace_crlf : Bytes → Bytes
replace_crlf [] = []
replace_crlf (a ∷ []) = a ∷ []
replace_crlf (a ∷ b ∷ s) = elim (a == b'\r' && b == b'\n') [
  | true ↦ b'\n' ∷ replace_crlf s
  | false ↦ a ∷ replace_crlf (b ∷ s)
]

-- bytes.ReplaceAll(content, "\r", "\n")
unfoldable pub replace_cr : Bytes → Bytes
replace_cr [] = []
replace_cr (a ∷ s) = (if a == b'\r' then b'\n' else a) ∷ replace_cr s

unfoldable pub normalize_line_endings : Bytes → Bytes
unfolding replace_crlf replace_cr
normalize_line_endings content = replace_cr (replace_crlf content)

-- prepareContent
unfoldable pub prepare_content : Bytes → Bytes
unfolding normalize_line_endings strip_utf8_bom
prepare_content content = normalize_line_endings (strip_utf8_bom content)

abbrev pub cons_head : ℕ → List Bytes → List Bytes
cons_head b [] = (b ∷ []) ∷ []
cons_head b (l ∷ ls) = (b ∷ l) ∷ ls

-- strings.Split(s, "\n")
unfoldable pub split_lines : Bytes → List Bytes
split_lines [] = [] ∷ []
split_lines (b ∷ s) = let rest = split_lines s in if b == b'\n' then [] ∷ rest else cons_head b rest

-- checkMaxLineBytes for a positive limit; `none` of the Go error is `true`.
unfoldable pub line_lengths_fit : ℕ → ℕ → Bytes → Bool
line_lengths_fit max_line line_len [] = true
line_lengths_fit max_line line_len (b ∷ s) =
    if b == b'\n' || b == b'\r'
    then line_lengths_fit max_line 0 s
    else if ltb max_line (line_len + 1)
    then false
    else line_lengths_fit max_line (line_len + 1) s

-- One pass over a path that keeps what follows the last separator, trailing separators aside.
abbrev all_slashes : Bytes → Bool
all_slashes [] = true
all_slashes (c ∷ s) = c == b'/' && all_slashes s

last_element : Bytes → Bytes → Bytes
last_element cur [] = cur
last_element cur (c ∷ s) =
    last_element (if c == b'/' then (if all_slashes s then cur else []) else cur ++ c ∷ []) s

-- filepath.Base
unfoldable pub base : Bytes → Bytes
unfolding last_element
base [] = b'.' ∷ []
base (c ∷ s) = let b = last_element [] (c ∷ s) in if is_empty b then b'/' ∷ [] else b

ext_from : Bytes → Bytes → Bytes
ext_from cur [] = cur
ext_from cur (c ∷ s) =
    ext_from
      (if c == b'/'
        then []
        else if c == b'.'
        then c ∷ []
        else if is_empty cur
        then []
        else cur ++ c ∷ [])
      s

-- filepath.Ext
unfoldable pub ext : Bytes → Bytes
unfolding ext_from
ext path = ext_from [] path

-- strings.ToLower, exact on what becomes ASCII: A to Z, the Kelvin sign and the dotted capital I.
unfoldable pub to_lower : Bytes → Bytes
to_lower [] = []
to_lower (a ∷ []) = (if leb b'A' a && leb a b'Z' then a + 32 else a) ∷ []
to_lower (a ∷ b ∷ []) =
    if a == 0xC4 && b == 0xB0
    then b'i' ∷ []
    else (if leb b'A' a && leb a b'Z' then a + 32 else a)
      ∷ (if leb b'A' b && leb b b'Z' then b + 32 else b)
      ∷ []
to_lower (a ∷ b ∷ c ∷ s) = elim (a == 0xC4 && b == 0xB0) [
  | true ↦ b'i' ∷ to_lower (c ∷ s)
  | false ↦ elim (a == 0xE2 && b == 0x84 && c == 0xAA) [
    | true ↦ b'k' ∷ to_lower s
    | false ↦ (if leb b'A' a && leb a b'Z' then a + 32 else a) ∷ to_lower (b ∷ c ∷ s)
  ]
]

one_of : Bytes → List String → Bool
one_of e [] = false
one_of e (x ∷ xs) = same e (codes x) || one_of e xs

-- chunkTypeForPath
unfoldable pub chunk_type_for_path : Bytes → String
unfolding one_of ext to_lower
chunk_type_for_path rel =
    let e = to_lower (ext rel) in
    if one_of e (".md" ∷ ".markdown" ∷ ".mdc" ∷ ".txt" ∷ [])
    then "markdown"
    else if one_of e (".yaml" ∷ ".yml" ∷ ".json" ∷ ".toml" ∷ [])
    then "config"
    else "code"

chunk_types :
    (chunk_type_for_path (codes "docs.d/READ.ME.Md") ≡ "markdown")
    × (chunk_type_for_path (codes "a.md/b") ≡ "code")
    × (base (codes "a/b.go//") ≡ codes "b.go")
unfolding chunk_type_for_path base
chunk_types = (refl, refl, refl)
