-- ===== src/Window/InMemory.antt =====
-- The in-memory chunker, with no token counter, emits the chunks of `windows`.
use mcp_semantic_search_zvec.Prelude.{
  ℕ, zero, suc, ◌+◌, ◌-◌, ◌≤◌, ◌<◌, ◌≡◌, refl, sym, ◌∙◌, List, [], ◌∷◌, Option, none, some, leb,
  length, take, drop, arith, get_or, min, pos, length-drop, take_all, Bool-cases, leb→le, lt→ltb,
  ==_iff, inl, inr, drop-drop,
}
use mcp_semantic_search_zvec.Bytes.{Bytes}
use mcp_semantic_search_zvec.Window.{Chunk, normalize_window_opts}
use mcp_semantic_search_zvec.Window.Slide.{
  line_offsets, counts, under_minimum, window_chunk, window_end, advance, emit_window, slide_round,
  slide, resume, after_emit, finished, continue,
}
use mcp_semantic_search_zvec.Window.Stream.{skip_bytes, add_if, line_window_meta}
use mcp_semantic_search_zvec.Window.Spans.{span_chunk, proceed}
use mcp_semantic_search_zvec.Window.Streamed.{chunk_of, emitted, emitted_last, emitted_more}

pub get_or-line_offsets :
    (i : ℕ) (ls : List Bytes) (off : ℕ)
    → i < length ls
    → get_or (line_offsets off ls) i 0 ≡ skip_bytes i ls off
unfolding line_offsets skip_bytes
get_or-line_offsets i [] off h = absurd (omega arith)
get_or-line_offsets zero (l ∷ []) off h = refl
get_or-line_offsets zero (l ∷ m ∷ ls) off h = refl
get_or-line_offsets (suc i) (l ∷ []) off h = absurd (omega arith)
get_or-line_offsets (suc i) (l ∷ m ∷ ls) off h =
    get_or-line_offsets i (m ∷ ls) (off + length l + 1) (omega arith)

pub skip_bytes-add :
    (i k : ℕ) (ls : List Bytes) (b : ℕ)
    → i ≤ length ls
    → skip_bytes (i + k) ls b ≡ skip_bytes k (drop i ls) (skip_bytes i ls b)
unfolding skip_bytes
skip_bytes-add zero k ls b h = let e : zero + k ≡ k = omega arith in rw e
skip_bytes-add (suc i) k [] b h = absurd (omega arith)
skip_bytes-add (suc i) k (l ∷ ls) b h =
    let e : suc i + k ≡ suc (i + k) = omega arith in
    rw e (skip_bytes-add i k ls (b + length l + 1) (omega arith))

-- A window is cut at the end of the lines by `min` or by `take`.
take-min :
    (ls : List Bytes) (start w : ℕ)
    → start ≤ length ls
    → take (min (start + w) (length ls) - start) (drop start ls) ≡ take w (drop start ls)
take-min ls start w h = elim (Bool-cases (leb (start + w) (length ls))) [
  | inl fits ↦
      let e : min (start + w) (length ls) - start ≡ w = omega (arith, leb→le _ _ fits) in rw e
  | inr cut ↦
      let lt : length ls < start + w = ground arith in
      let d = length-drop start ls in
      take_all _ (drop start ls) (omega (arith, d))
      ∙ sym (take_all w (drop start ls) (omega (arith, d)))
]

proceed-cong :
    {S E : Type 0} (p : S × Option E) (k k' : S → S × Option E)
    → ((s : S) → k s ≡ k' s)
    → proceed p k ≡ proceed p k'
unfolding proceed
proceed-cong (s, none) k k' h = h s
proceed-cong (s, some e) k k' h = refl

module _ {S E : Type 0} (emit : S → Chunk → S × Option E) (rel : Bytes) (all : List Bytes) (w o : ℕ)
    (o_lt : o < w) (normal : normalize_window_opts (pos w) (pos o) ≡ (w, o)) where
  window_end-min :
      (start : ℕ)
      → window_end emit rel all 1 (line_window_meta w o) start ≡ min (start + w) (length all)
  unfolding window_end counts
  window_end-min start = rw normal

  window_chunk-span :
      (start : ℕ)
      → start < length all
      → window_chunk emit rel all 1 (line_window_meta w o) start (min (start + w) (length all))
        ≡ chunk_of rel w o (record {
          lines = take w (drop start all);
          start = start;
          byte = skip_bytes start all 0;
        })
  unfolding window_chunk chunk_of span_chunk
  window_chunk-span start h =
      rw (take-min all start w (omega arith), get_or-line_offsets start all 0 h)

  after_emit-proceed :
      (start end : ℕ) (p : S × Option E) (loop : ℕ → S → S × Option E)
      → resume loop (after_emit emit rel all 1 (line_window_meta w o) start end p)
        ≡ proceed p (λ s. resume loop (advance emit rel all 1 (line_window_meta w o) start end s))
  unfolding after_emit proceed resume
  after_emit-proceed start end (s, none) loop = refl
  after_emit-proceed start end (s, some e) loop = refl

  emit-proceed :
      (start end : ℕ) (ch : Option Chunk) (s : S) (loop : ℕ → S → S × Option E)
      → resume loop (emit_window emit rel all 1 (line_window_meta w o) start end ch s)
        ≡ proceed
            (add_if emit ch s)
            (λ s'. resume loop (advance emit rel all 1 (line_window_meta w o) start end s'))
  unfolding emit_window under_minimum add_if proceed
  emit-proceed start end none s loop = refl
  emit-proceed start end (some ch) s loop = after_emit-proceed start end (emit s ch) loop

  advance-last :
      (start : ℕ) (s : S)
      → length all ≤ start + w
      → advance emit rel all 1 (line_window_meta w o) start (min (start + w) (length all)) s
        ≡ finished s none
  unfolding advance
  advance-last start s h =
      let e : min (start + w) (length all) ≡ length all = omega arith in rw (e, (==_iff _ _).1 refl)

  advance-more :
      (start : ℕ) (s : S)
      → start + w < length all
      → advance emit rel all 1 (line_window_meta w o) start (min (start + w) (length all)) s
        ≡ continue (start + (w - o)) s
  unfolding advance
  advance-more start s h =
      let e : min (start + w) (length all) ≡ start + w = omega arith in
      rw (e, normal) (ground arith)

  pub slide-windows :
      (f start : ℕ) (s : S)
      → start < length all
      → length all ≤ start + f
      → slide emit rel all 1 (line_window_meta w o) f start s
        ≡ emitted emit rel w o f (drop start all) start (skip_bytes start all 0) s
  unfolding slide slide_round resume
  slide-windows zero start s h hf = absurd (omega arith)
  slide-windows (suc f) start s h hf =
      let d = length-drop start all in
      rw (lt→ltb _ _ h, window_end-min start, window_chunk-span start h, emit-proceed)
        (elim (Bool-cases (leb (length all) (start + w))) [
          | inl last ↦
              rw
                (
                  take_all w (drop start all) (omega (arith, d, leb→le _ _ last)),
                  emitted_last emit rel w o (suc f) (drop start all) start (skip_bytes start all 0)
                      s (omega (arith, d, leb→le _ _ last)) (omega (arith, d)),
                )
                (proceed-cong _ _ _ (λ s'. rw (advance-last start s' (leb→le _ _ last))))
          | inr more ↦
              let lt : start + w < length all = ground arith in
              rw
                (emitted_more emit rel w o f (drop start all) start (skip_bytes start all 0) s
                  (omega (arith, d)))
                (proceed-cong _ _ _ (λ s'.
                  rw
                    (
                      advance-more start s' lt,
                      drop-drop (w - o) start all,
                      ← skip_bytes-add start (w - o) all 0 (omega arith),
                    )
                    (slide-windows f (start + (w - o)) s' (omega arith) (omega arith))))
        ])
