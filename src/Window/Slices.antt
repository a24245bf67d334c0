-- ===== src/Window/Slices.antt =====
-- The bytes that a chunk names are its text.
use mcp_semantic_search_zvec.Prelude.{
  ℕ, zero, suc, ◌+◌, ◌-◌, ◌≤◌, ◌<◌, ◌≡◌, refl, sym, subst, some-injective, Bool, true, false, List,
  [], ◌∷◌, ◌++◌, Option, none, some, length, take, drop, arith, ℤ, Bool-cases, inl, inr, leb,
  drop-drop, length-drop, append_assoc, append-nil, ◌==◌, if◌then◌else◌, map, ==_iff,
}
use mcp_semantic_search_zvec.Bytes.{
  Bytes, prepare_content, split_lines, join_lines, cons_head, is_blank,
}
use mcp_semantic_search_zvec.Window.{
  Chunk, SlideWindowMeta, normalize_window_opts, line_chunk, chunk_from_line_window,
}
use mcp_semantic_search_zvec.Window.Stream.{skip_bytes, add_if}
use mcp_semantic_search_zvec.Window.Files.{file_chunks, collect}
use mcp_semantic_search_zvec.Window.Options.{IsNormal, normalize_window_opts-IsNormal}
use mcp_semantic_search_zvec.Window.Spans.{Span, windows, span_chunk, emit_chunks, proceed}
use mcp_semantic_search_zvec.Window.Streamed.{take-append}
use mcp_semantic_search_zvec.Window.InMemory.{skip_bytes-add}
use mcp_semantic_search_zvec.Window.Parity.{split_lines-pos}
use mcp_semantic_search_zvec.Window.Coverage.{file_spans, file_chunks_emit-spans}

abbrev pub All {ℓ κ} : {A : Type ℓ} → (A → Type κ) → List A → Type κ
All P [] = Unit
All P (x ∷ xs) = P x × All P xs

All-append {ℓ κ} :
    {A : Type ℓ} (P : A → Type κ) (xs ys : List A) → All P xs → All P ys → All P (xs ++ ys)
All-append P [] ys hx hy = hy
All-append P (x ∷ xs) ys hx hy = (hx.0, All-append P xs ys hx.1 hy)

join_lines-cons_head : (b : ℕ) (ls : List Bytes) → join_lines (cons_head b ls) ≡ b ∷ join_lines ls
unfolding join_lines
join_lines-cons_head b [] = refl
join_lines-cons_head b (l ∷ []) = refl
join_lines-cons_head b (l ∷ m ∷ ls) = refl

join_lines-nil : (ls : List Bytes) → 0 < length ls → join_lines ([] ∷ ls) ≡ b'\n' ∷ join_lines ls
unfolding join_lines
join_lines-nil [] h = absurd (omega arith)
join_lines-nil (l ∷ ls) h = refl

-- Splitting a text into lines and joining them again gives the text.
pub join_lines-split_lines : (s : Bytes) → join_lines (split_lines s) ≡ s
unfolding split_lines
join_lines-split_lines [] = unfold join_lines in refl
join_lines-split_lines (b ∷ s) = elim (Bool-cases (b == b'\n')) [
  | inl lf ↦
      let e : b ≡ b'\n' = (==_iff b b'\n').0 lf in
      rw (lf, join_lines-nil (split_lines s) (split_lines-pos s), join_lines-split_lines s, e)
  | inr other ↦ rw (other, join_lines-cons_head b (split_lines s), join_lines-split_lines s)
]

skip_bytes-shift : (i : ℕ) (ls : List Bytes) (b : ℕ) → skip_bytes i ls b ≡ b + skip_bytes i ls 0
unfolding skip_bytes
skip_bytes-shift zero ls b = omega arith
skip_bytes-shift (suc i) [] b = omega arith
skip_bytes-shift (suc i) (l ∷ ls) b =
    omega
      (arith, skip_bytes-shift i ls (b + length l + 1), skip_bytes-shift i ls (0 + length l + 1))

drop_past {ℓ} :
    {A : Type ℓ} (l : List A) (a : A) (r : List A) (k : ℕ)
    → drop (length l + 1 + k) (l ++ a ∷ r) ≡ drop k r
drop_past [] a r k = let e : 0 + 1 + k ≡ suc k = omega arith in rw e
drop_past (x ∷ l) a r k =
    let e : suc (length l) + 1 + k ≡ suc (length l + 1 + k) = omega arith in
    rw e (drop_past l a r k)

drop-join_lines :
    (i : ℕ) (ls : List Bytes)
    → i < length ls
    → drop (skip_bytes i ls 0) (join_lines ls) ≡ join_lines (drop i ls)
unfolding skip_bytes join_lines
drop-join_lines i [] h = absurd (omega arith)
drop-join_lines zero (l ∷ ls) h = refl
drop-join_lines (suc i) (l ∷ []) h = absurd (omega arith)
drop-join_lines (suc i) (l ∷ m ∷ ls) h =
    let e : skip_bytes i (m ∷ ls) (0 + length l + 1) ≡ length l + 1 + skip_bytes i (m ∷ ls) 0 =
      omega (arith, skip_bytes-shift i (m ∷ ls) (0 + length l + 1)) in
    rw (e, drop_past l b'\n' (join_lines (m ∷ ls)) (skip_bytes i (m ∷ ls) 0))
      (drop-join_lines i (m ∷ ls) (omega arith))

-- The first lines of a text are a prefix of it.
join_lines-take :
    (w : ℕ) (ls : List Bytes) → (r : Bytes) × (join_lines ls ≡ join_lines (take (suc w) ls) ++ r)
unfolding join_lines
join_lines-take w [] = ([], refl)
join_lines-take zero (l ∷ []) = ([], sym (append-nil l))
join_lines-take zero (l ∷ m ∷ ls) = (b'\n' ∷ join_lines (m ∷ ls), refl)
join_lines-take (suc w) (l ∷ []) = ([], sym (append-nil l))
join_lines-take (suc w) (l ∷ m ∷ ls) =
    let (r, e) = join_lines-take w (m ∷ ls) in
    (r, rw (e, append_assoc l (b'\n' ∷ join_lines (take (suc w) (m ∷ ls))) r))

abbrev IsSlice : Bytes → Span → Type 0
IsSlice content sp =
    take (length (join_lines sp.lines)) (drop sp.byte content) ≡ join_lines sp.lines

first_lines :
    (w : ℕ) (ls : List Bytes)
    → 0 < w
    → take (length (join_lines (take w ls))) (join_lines ls) ≡ join_lines (take w ls)
first_lines zero ls h = absurd (omega arith)
first_lines (suc w) ls h =
    let (r, e) = join_lines-take w ls in rw e (take-append _ (join_lines (take (suc w) ls)) r refl)

module _ (w o : ℕ) (norm : IsNormal (w, o)) (all : List Bytes) where
  windows-IsSlice :
      (f i : ℕ)
      → i < length all
      → All (IsSlice (join_lines all)) (windows w o f (drop i all) i (skip_bytes i all 0))
  unfolding windows
  windows-IsSlice zero i h = tt
  windows-IsSlice (suc f) i h = elim (Bool-cases (leb (length (drop i all)) w)) [
    | inl last ↦ rw last (here, tt)
    | inr more ↦
        let lt : w < length (drop i all) = ground arith in
        rw (more, drop-drop (w - o) i all, ← skip_bytes-add i (w - o) all 0 (omega arith))
          (here, windows-IsSlice f (i + (w - o)) (omega (arith, length-drop i all)))
  ]
    where
      here :
          take
            (length (join_lines (take w (drop i all))))
            (drop (skip_bytes i all 0) (join_lines all))
          ≡ join_lines (take w (drop i all))
      here = rw (drop-join_lines i all h) (first_lines w (drop i all) norm.some_lines)

-- The chunk's lines are in order, and the bytes that it names are its snippet.
abbrev pub IsPlaced : Bytes → Chunk → Type 0
IsPlaced content ch =
    (ch.start_line ≤ ch.end_line)
    × (ch.start_byte ≤ ch.end_byte)
    × (take (ch.end_byte - ch.start_byte) (drop ch.start_byte content) ≡ ch.snippet)

unless_blank : (b : Bool) (made ch : Chunk) → (if b then none else some made) ≡ some ch → made ≡ ch
unless_blank true made ch e = cc
unless_blank false made ch e = some-injective made ch e

line_chunk-IsPlaced :
    (content rel l : Bytes) (ls : List Bytes) (start_line : ℕ) (meta : SlideWindowMeta)
    → take (length (join_lines (l ∷ ls))) (drop meta.content_start_byte content)
      ≡ join_lines (l ∷ ls)
    → IsPlaced content (line_chunk rel (l ∷ ls) start_line meta)
unfolding line_chunk
line_chunk-IsPlaced content rel l ls start_line meta h =
    let n : meta.content_start_byte + length (join_lines (l ∷ ls)) - meta.content_start_byte
        ≡ length (join_lines (l ∷ ls)) =
      omega arith in
    (omega arith, omega arith, rw n h)

window_chunk-IsPlaced :
    (content rel : Bytes) (ls : List Bytes) (start_line : ℕ) (meta : SlideWindowMeta) (ch : Chunk)
    → take (length (join_lines ls)) (drop meta.content_start_byte content) ≡ join_lines ls
    → chunk_from_line_window rel ls start_line meta ≡ some ch
    → IsPlaced content ch
unfolding chunk_from_line_window
window_chunk-IsPlaced content rel [] start_line meta ch h e = cc
window_chunk-IsPlaced content rel (l ∷ ls) start_line meta ch h e =
    subst (IsPlaced content) (unless_blank (is_blank (join_lines (l ∷ ls))) _ ch e)
      (line_chunk-IsPlaced content rel l ls start_line meta h)

span_chunk-IsPlaced :
    (content rel : Bytes) (meta : SlideWindowMeta) (sp : Span) (ch : Chunk)
    → IsSlice content sp
    → span_chunk rel 1 meta sp ≡ some ch
    → IsPlaced content ch
unfolding span_chunk
span_chunk-IsPlaced content rel meta sp ch h e =
    window_chunk-IsPlaced content rel sp.lines (1 + sp.start) _ ch h e

module _ (content : Bytes) (chunk_at : Span → Option Chunk)
    (placed : (sp : Span) (ch : Chunk)
      → IsSlice content sp
      → chunk_at sp ≡ some ch
      → IsPlaced content ch) where
  emit_one-IsPlaced :
      (sp : Span) (acc : List Chunk) (o : Option Chunk) (next : List Chunk → List Chunk × Option ⊥)
      → chunk_at sp ≡ o
      → IsSlice content sp
      → All (IsPlaced content) acc
      → ((chs : List Chunk) → All (IsPlaced content) chs → All (IsPlaced content) (next chs).0)
      → All (IsPlaced content) (proceed (add_if (collect {E = ⊥}) o acc) next).0
  unfolding collect proceed add_if
  emit_one-IsPlaced sp acc none next e h done rest = rest acc done
  emit_one-IsPlaced sp acc (some ch) next e h done rest =
      rest (acc ++ ch ∷ [])
        (All-append (IsPlaced content) acc (ch ∷ []) done (placed sp ch h e, tt))

  emit_chunks-IsPlaced :
      (sps : List Span) (acc : List Chunk)
      → All (IsSlice content) sps
      → All (IsPlaced content) acc
      → All (IsPlaced content) (emit_chunks (collect {E = ⊥}) (map chunk_at sps) acc).0
  unfolding emit_chunks
  emit_chunks-IsPlaced [] acc h done = done
  emit_chunks-IsPlaced (sp ∷ sps) acc h done =
      emit_one-IsPlaced sp acc (chunk_at sp) _ refl h.0 done
        (λ chs placed_chs. emit_chunks-IsPlaced sps chs h.1 placed_chs)

-- Every chunk that FileChunks returns has its lines in order, and the bytes from its first to its
-- last, taken from the normalised content, are its snippet, whatever the options.
pub file_chunks-IsPlaced :
    (rel content : Bytes) (a b : ℤ)
    → All (IsPlaced (prepare_content content)) (file_chunks rel content a b)
unfolding file_chunks skip_bytes
file_chunks-IsPlaced rel content a b =
    let ls = split_lines (prepare_content content) in
    let slices =
      windows-IsSlice (normalize_window_opts a b).0 (normalize_window_opts a b).1
        (normalize_window_opts-IsNormal a b) ls (length ls) 0
        (split_lines-pos (prepare_content content)) in
    subst (λ p. All (IsPlaced (prepare_content content)) p.0)
      (sym (file_chunks_emit-spans (collect {E = ⊥}) rel content a b []))
      (emit_chunks-IsPlaced (prepare_content content) _
        (span_chunk-IsPlaced (prepare_content content) rel _) (file_spans content a b) []
        (rw join_lines-split_lines at slices) tt)
