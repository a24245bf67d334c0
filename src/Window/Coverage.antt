-- ===== src/Window/Coverage.antt =====
-- No line is lost between two windows.
use mcp_semantic_search_zvec.Prelude.{
  ℕ, zero, suc, ◌+◌, ◌-◌, ◌≤◌, ◌<◌, ◌≡◌, refl, sym, ◌∙◌, ap, List, [], ◌∷◌, ◌++◌, Option, length,
  take, drop, arith, ℤ, Bool-cases, inl, inr, leb, leb→le, take_all, drop-drop, length-drop,
  length-take, take-append-drop, append-nil, map,
}
use mcp_semantic_search_zvec.Bytes.{Bytes, prepare_content, split_lines}
use mcp_semantic_search_zvec.Window.{Chunk, normalize_window_opts}
use mcp_semantic_search_zvec.Window.Stream.{line_window_meta, skip_bytes}
use mcp_semantic_search_zvec.Window.Files.{file_chunks_emit}
use mcp_semantic_search_zvec.Window.Options.{normalize_window_opts-IsNormal}
use mcp_semantic_search_zvec.Window.Spans.{
  Span, windows, span_chunk, emit_chunks, stitch, stitch_rest,
}
use mcp_semantic_search_zvec.Window.Streamed.{chunk_of, drop-append}
use mcp_semantic_search_zvec.Window.Parity.{in_memory, split_lines-pos}

-- The windows of a file under its options.
abbrev pub file_spans : Bytes → ℤ → ℤ → List Span
file_spans content a b =
    let ls = split_lines (prepare_content content) in
    windows (normalize_window_opts a b).0 (normalize_window_opts a b).1 (length ls) ls 0 0

-- FileChunksEmit passes on the chunks of the file's windows, in order, up to the first error.
pub file_chunks_emit-spans :
    {S E : Type 0} (emit : S → Chunk → S × Option E) (rel content : Bytes) (a b : ℤ) (s : S)
    → file_chunks_emit emit rel content a b s
      ≡ emit_chunks emit
          (map
            (span_chunk rel 1
              (line_window_meta (normalize_window_opts a b).0 (normalize_window_opts a b).1))
            (file_spans content a b))
          s
unfolding file_chunks_emit chunk_of
file_chunks_emit-spans emit rel content a b s =
    in_memory emit rel _ _ (normalize_window_opts-IsNormal a b)
      (split_lines (prepare_content content)) s (split_lines-pos (prepare_content content))

drop_nil {ℓ} : {A : Type ℓ} (n : ℕ) → drop {A = A} n [] ≡ []
drop_nil zero = refl
drop_nil (suc n) = refl

drop-take :
    {A : Type 0} (o w : ℕ) (ls : List A)
    → o ≤ w
    → w ≤ length ls
    → drop o (take w ls) ++ drop w ls ≡ drop o ls
drop-take o w ls h k =
    sym (drop-append o (take w ls) (drop w ls) (omega (arith, length-take w ls)))
    ∙ ap (drop o) (take-append-drop w ls)

module _ (w o : ℕ) (o_lt : o < w) where
  behind : (ls : List Bytes) → drop o (drop (w - o) ls) ≡ drop w ls
  behind ls =
      drop-drop o (w - o) ls ∙ ap (λ n. drop n ls) (let e : w - o + o ≡ w = omega arith in e)

  stitch_rest-windows :
      (f : ℕ) (ls : List Bytes) (start byte : ℕ)
      → length ls ≤ f
      → stitch_rest o (windows w o f ls start byte) ≡ drop o ls
  unfolding windows stitch_rest
  stitch_rest-windows zero [] start byte h = sym (drop_nil o)
  stitch_rest-windows zero (l ∷ ls) start byte h = absurd (omega arith)
  stitch_rest-windows (suc f) ls start byte h = elim (Bool-cases (leb (length ls) w)) [
    | inl last ↦ rw (last, take_all w ls (leb→le _ _ last), append-nil (drop o ls))
    | inr more ↦
        let lt : w < length ls = ground arith in
        rw
          (
            more,
            stitch_rest-windows f (drop (w - o) ls) _ _ (omega (arith, length-drop (w - o) ls)),
            behind ls,
          )
          (drop-take o w ls (omega arith) (omega arith))
  ]

  pub stitch-windows :
      (f : ℕ) (ls : List Bytes) (start byte : ℕ)
      → length ls ≤ f
      → stitch o (windows w o f ls start byte) ≡ ls
  unfolding windows stitch
  stitch-windows zero [] start byte h = refl
  stitch-windows zero (l ∷ ls) start byte h = absurd (omega arith)
  stitch-windows (suc f) ls start byte h = elim (Bool-cases (leb (length ls) w)) [
    | inl last ↦ rw (last, take_all w ls (leb→le _ _ last), append-nil ls)
    | inr more ↦
        let lt : w < length ls = ground arith in
        rw
          (
            more,
            stitch_rest-windows f (drop (w - o) ls) (start + (w - o)) (skip_bytes (w - o) ls byte)
                (omega (arith, length-drop (w - o) ls)),
            behind ls,
          )
          (take-append-drop w ls)
  ]

-- The windows whose chunks FileChunksEmit passes on hold, the overlaps with the window before set
-- aside, exactly the lines of the file, whatever the options: no line is lost and none is moved.
pub file_chunks_emit-covers :
    {S E : Type 0} (emit : S → Chunk → S × Option E) (rel content : Bytes) (a b : ℤ) (s : S)
    → (file_chunks_emit emit rel content a b s
        ≡ emit_chunks emit
            (map
              (span_chunk rel 1
                (line_window_meta (normalize_window_opts a b).0 (normalize_window_opts a b).1))
              (file_spans content a b))
            s)
      × (stitch (normalize_window_opts a b).1 (file_spans content a b)
          ≡ split_lines (prepare_content content))
file_chunks_emit-covers emit rel content a b s = (
  file_chunks_emit-spans emit rel content a b s,
  stitch-windows (normalize_window_opts a b).0 (normalize_window_opts a b).1
      (normalize_window_opts-IsNormal a b).moves (length (split_lines (prepare_content content)))
      (split_lines (prepare_content content)) 0 0 (omega arith),
)
