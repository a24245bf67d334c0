-- ===== src/Window/Budget.antt =====
-- The token budget of SlideWindowEmit: what the binary search finds, and that the loop ends.
use mcp_semantic_search_zvec.Prelude.{
  ℕ, zero, suc, ◌+◌, ◌-◌, ◌/◌, ◌≤◌, ◌<◌, ◌≡◌, ◌⊎◌, refl, Bool, true, false, List, Option, none,
  some, arith, ltb, ltb→lt, le→ltb, leb, leb→le, sym, ◌∙◌, length, min, Bool-cases, inl, inr,
}
use mcp_semantic_search_zvec.Bytes.{Bytes}
use mcp_semantic_search_zvec.Window.{Chunk, SlideWindowMeta, normalize_window_opts}
use mcp_semantic_search_zvec.Window.Options.{normalize_window_opts-IsNormal}
use mcp_semantic_search_zvec.Window.Slide.{
  shrink, counts, over_budget, window_chunk, window_end, advance, after_emit, emit_window,
  slide_round, slide, resume, Round, finished, continue,
}

-- What is found lies in the range, and it fits or is the least there is.
pub record Found (over : ℕ → Bool) (lo hi n : ℕ) : Type 0 where
  pub above : lo ≤ n
  pub below : n ≤ hi
  pub fits : (n ≡ lo) ⊎ (over n ≡ false)

abbrev middle : ℕ → ℕ → ℕ
middle lo hi = lo + (hi - lo + 1) / 2

middle_in : (lo hi : ℕ) → lo < hi → (lo < middle lo hi) × (middle lo hi ≤ hi)
middle_in lo hi h = omega arith

fits_above :
    (over : ℕ → Bool) (lo mid n : ℕ)
    → over mid ≡ false
    → (n ≡ mid) ⊎ (over n ≡ false)
    → (n ≡ lo) ⊎ (over n ≡ false)
fits_above over lo mid n small (inl e) = inr (rw e small)
fits_above over lo mid n small (inr h) = inr h

le_middle :
    (over : ℕ → Bool) (mid k : ℕ)
    → ((i j : ℕ) → i ≤ j → over i ≡ true → over j ≡ true)
    → over mid ≡ true
    → over k ≡ false
    → k ≤ mid - 1
le_middle over mid k mono big fits = elim (Bool-cases (leb mid k)) [
  | inl le ↦ absurd (true≢false (sym (mono mid k (leb→le _ _ le) big) ∙ fits))
  | inr gt ↦ ground arith
]
  where
    true≢false : true ≡ false → ⊥
    true≢false e = cc

pub shrink-Found :
    (fuel : ℕ) (over : ℕ → Bool) (lo hi : ℕ) → lo ≤ hi → Found over lo hi (shrink fuel over lo hi)
unfolding shrink
shrink-Found zero over lo hi h = record { above = omega arith; below = h; fits = inl refl }
shrink-Found (suc fuel) over lo hi h = elim (Bool-cases (ltb lo hi)) [
  | inr done ↦ rw (done, shrink) (record { above = omega arith; below = h; fits = inl refl })
  | inl more ↦
      let lt : lo < hi = ltb→lt lo hi more in
      elim (Bool-cases (over (middle lo hi))) [
        | inl big ↦
            let f = shrink-Found fuel over lo (middle lo hi - 1) (omega (arith, middle_in lo hi)) in
            rw (more, shrink)
              (rw (big, shrink)
                (record {
                  above = f.above;
                  below = omega (arith, f.below, middle_in lo hi);
                  fits = f.fits;
                }))
        | inr small ↦
            let f = shrink-Found fuel over (middle lo hi) hi (omega (arith, middle_in lo hi)) in
            rw (more, shrink)
              (rw (small, shrink)
                (record {
                  above = omega (arith, f.above, middle_in lo hi);
                  below = f.below;
                  fits = fits_above over lo (middle lo hi) _ small f.fits;
                }))
      ]
]

-- Where a larger window never has fewer tokens, the search finds the largest that fits.
pub shrink-largest :
    (fuel : ℕ) (over : ℕ → Bool) (lo hi k : ℕ)
    → ((i j : ℕ) → i ≤ j → over i ≡ true → over j ≡ true)
    → hi ≤ lo + fuel
    → lo ≤ k
    → k ≤ hi
    → over k ≡ false
    → k ≤ shrink fuel over lo hi
unfolding shrink
shrink-largest zero over lo hi k mono enough hl hk fits = omega arith
shrink-largest (suc fuel) over lo hi k mono enough hl hk fits = elim (Bool-cases (ltb lo hi)) [
  | inr done ↦ rw (done, shrink) (ground arith)
  | inl more ↦
      let lt : lo < hi = ltb→lt lo hi more in
      elim (Bool-cases (over (middle lo hi))) [
        | inl big ↦
            rw (more, shrink)
              (rw (big, shrink)
                (shrink-largest fuel over lo (middle lo hi - 1) k mono
                  (omega (arith, middle_in lo hi)) hl
                  (le_middle over (middle lo hi) k mono big fits) fits))
        | inr small ↦ elim (Bool-cases (ltb k (middle lo hi))) [
          | inl before ↦
              let f = shrink-Found fuel over (middle lo hi) hi (omega (arith, middle_in lo hi)) in
              rw (more, shrink) (rw (small, shrink) (omega (arith, f.above, ltb→lt _ _ before)))
          | inr behind ↦
              rw (more, shrink)
                (rw (small, shrink)
                  (shrink-largest fuel over (middle lo hi) hi k mono
                    (omega (arith, middle_in lo hi)) (ground arith) hk fits))
        ]
      ]
]

module _ {S E : Type 0} (emit : S → Chunk → S × Option E) (rel : Bytes) (all : List Bytes)
    (offset : ℕ) (meta : SlideWindowMeta) where
  -- The last line that the window options allow a window that starts here.
  abbrev pub full_end : ℕ → ℕ
  full_end start = min (start + (normalize_window_opts meta.window meta.overlap).0) (length all)

  abbrev pub too_big : ℕ → ℕ → Bool
  too_big start mid = over_budget meta (window_chunk emit rel all offset meta start mid)

  -- With a token counter and a positive budget, the window that starts at a line of the file has
  -- that line and at most the window's lines, and it is within the budget or is that one line; and
  -- if adding lines never lowers the count, it is the longest such window.
  pub window_end-IsBest :
      (start : ℕ)
      → counts meta ≡ true
      → start < length all
      → Found
          (too_big start)
          (start + 1)
          (full_end start)
          (window_end emit rel all offset meta start)
        × ((k : ℕ)
            → ((i j : ℕ) → i ≤ j → too_big start i ≡ true → too_big start j ≡ true)
            → start < k
            → k ≤ full_end start
            → too_big start k ≡ false
            → k ≤ window_end emit rel all offset meta start)
  unfolding window_end
  window_end-IsBest start c h =
      let n = normalize_window_opts-IsNormal meta.window meta.overlap in
      rw c (
        shrink-Found (length all) (too_big start) (start + 1) (full_end start)
            (omega (arith, n.some_lines)),
        λ k mono hl hk fits.
            shrink-largest (length all) (too_big start) (start + 1) (full_end start) k mono
              (omega arith) (omega arith) hk fits,
      )

  -- Every window has a line and ends in the file.
  window_end-bounds :
      (start : ℕ)
      → start < length all
      → (start < window_end emit rel all offset meta start)
        × (window_end emit rel all offset meta start ≤ length all)
  window_end-bounds start h =
      let n = normalize_window_opts-IsNormal meta.window meta.overlap in
      elim (Bool-cases (counts meta)) [
        | inl c ↦
            let f = (window_end-IsBest start c h).0 in
            (omega (arith, f.above), omega (arith, f.below))
        | inr c ↦ unfold window_end in rw c (omega (arith, n.some_lines), omega arith)
      ]

  advance-later :
      (start end : ℕ) (s : S) (next : ℕ) (s' : S)
      → advance emit rel all offset meta start end s ≡ continue next s'
      → start < next
  unfolding advance
  advance-later start end s next s' e = ground arith

  after_emit-later :
      (start end : ℕ) (p : S × Option E) (next : ℕ) (s' : S)
      → after_emit emit rel all offset meta start end p ≡ continue next s'
      → start < next
  unfolding after_emit
  after_emit-later start end (s, some x) next s' e = cc
  after_emit-later start end (s, none) next s' e = advance-later start end s next s' e

  emit_window-later :
      (start end : ℕ) (ch : Option Chunk) (s : S) (next : ℕ) (s' : S)
      → emit_window emit rel all offset meta start end ch s ≡ continue next s'
      → start < next
  unfolding emit_window
  emit_window-later start end none s next s' e = advance-later start end s next s' e
  emit_window-later start end (some ch) s next s' e =
      ground (arith, after_emit-later start end (emit s ch) next s')

  -- A round that goes on does so at a later line.
  slide_round-later :
      (start : ℕ) (s : S) (next : ℕ) (s' : S)
      → slide_round emit rel all offset meta start s ≡ continue next s'
      → start < next
  unfolding slide_round
  slide_round-later start s next s' e =
      let end = window_end emit rel all offset meta start in
      ground (
        arith,
        emit_window-later start end (window_chunk emit rel all offset meta start end) s next s',
      )

  resume-same :
      (loop loop' : ℕ → S → S × Option E) (r : Round S E)
      → ((next : ℕ) (s : S) → r ≡ continue next s → loop next s ≡ loop' next s)
      → resume loop r ≡ resume loop' r
  unfolding resume
  resume-same loop loop' (finished s err) h = refl
  resume-same loop loop' (continue next s) h = h next s refl

  past_end :
      (more start : ℕ) (s : S)
      → length all ≤ start
      → slide emit rel all offset meta more start s ≡ (s, none)
  unfolding slide slide_round resume
  past_end zero start s h = refl
  past_end (suc more) start s h = rw (le→ltb start (length all) h)

  -- Each round that goes on starts at a later line of the file, so the loop of SlideWindowEmit ends
  -- within a round for each line that is left: more rounds give the same result.
  pub slide_total :
      (fuel more start : ℕ) (s : S)
      → length all ≤ start + fuel
      → slide emit rel all offset meta (more + fuel) start s
        ≡ slide emit rel all offset meta fuel start s
  unfolding slide
  slide_total zero more start s h = past_end (more + zero) start s (omega arith)
  slide_total (suc fuel) more start s h =
      let e : more + suc fuel ≡ suc (more + fuel) = omega arith in
      rw e (
        resume-same _ _ (slide_round emit rel all offset meta start s) λ next s' r.
          slide_total fuel more next s' (omega (arith, slide_round-later start s next s' r)))
