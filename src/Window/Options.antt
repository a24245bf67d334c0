-- ===== src/Window/Options.antt =====
-- normalizeWindowOpts of internal/indexer/chunk/line_window.go: the sizes that every loop relies on.
use mcp_semantic_search_zvec.Prelude.{
  ℕ, zero, suc, ◌/◌, ◌<◌, ◌≡◌, refl, arith, ℤ, pos, positive_or, positive_or-pos, le→leb, lt→leb,
  leb, if◌then◌else◌, Bool-cases, inl, inr,
}
use mcp_semantic_search_zvec.Window.{
  normalize_window_opts, default_window_lines, default_overlap_lines,
}

-- What the callers of the loops need of the two sizes.
pub record IsNormal (p : ℕ × ℕ) : Type 0 where
  pub some_lines : 0 < p.0
  pub moves : p.1 < p.0
  pub settled : normalize_window_opts (pos p.0) (pos p.1) ≡ p

sizes : ℕ → ℕ → ℕ × ℕ
sizes w o = (w, if leb w o then w / 4 else o)

sizes_move : (w o : ℕ) → 0 < w → (sizes w o).1 < w
unfolding sizes
sizes_move w o h = ground arith

-- The overlap of a small window may be zero, and the default for it is cut to zero again.
quarter :
    (w q : ℕ)
    → 0 < w
    → q ≡ w / 4
    → ◌≡◌ {A = ℕ × ℕ}
        (
          w,
          if leb w (positive_or (pos q) default_overlap_lines)
              then w / 4
              else positive_or (pos q) default_overlap_lines,
        )
        (w, w / 4)
quarter w zero h e = rw (le→leb w default_overlap_lines (omega (arith, e)))
quarter w (suc q) h e = rw (lt→leb w (suc q) (omega (arith, e))) (rw e)

sizes-settled :
    (w o : ℕ)
    → 0 < w
    → 0 < o
    → normalize_window_opts (pos (sizes w o).0) (pos (sizes w o).1) ≡ sizes w o
unfolding sizes normalize_window_opts
sizes-settled (suc w) (suc o) hw ho = elim (Bool-cases (leb (suc w) (suc o))) [
  | inl le ↦ rw le (quarter (suc w) (suc w / 4) hw refl)
  | inr lt ↦ rw (lt, lt)
]
sizes-settled zero o hw ho = absurd (omega arith)
sizes-settled w zero hw ho = absurd (omega arith)

-- Whatever the options, the window has a line, the overlap is smaller, and normalising again, which
-- SlideWindowEmit does to what FileChunksEmit passes, changes nothing.
pub normalize_window_opts-IsNormal :
    (window_lines overlap_lines : ℤ) → IsNormal (normalize_window_opts window_lines overlap_lines)
unfolding normalize_window_opts sizes
normalize_window_opts-IsNormal a b = record {
  some_lines = positive_or-pos a default_window_lines (omega arith);
  moves =
      sizes_move (positive_or a default_window_lines) (positive_or b default_overlap_lines)
        (positive_or-pos a default_window_lines (omega arith));
  settled =
      sizes-settled (positive_or a default_window_lines) (positive_or b default_overlap_lines)
        (positive_or-pos a default_window_lines (omega arith))
        (positive_or-pos b default_overlap_lines (omega arith));
}
