-- ===== src/Search.antt =====
-- The search with a path glob: searchWithGlobExpansion of internal/store/zvec/collection.go with
-- internal/store/zvec/glob_topk.go. The native query, the conversion of a document and the test of
-- the glob are arguments; a document is `none` where the library hands over nil.
pub mod Expansion
use mcp_semantic_search_zvec.Prelude.{
  ℕ, zero, suc, ◌+◌, ◌*◌, Bool, true, false, ◌&&◌, ◌||◌, List, [], ◌∷◌, ◌++◌, Option, none, some,
  ltb, leb, ◌==◌, if◌then◌else◌, length,
}

-- A top_k that is not positive is 0 here.
unfoldable pub glob_top_k_start : ℕ → ℕ → ℕ
glob_top_k_start top_k doc_count =
    if doc_count == 0
    then 0
    else (let k = if ltb top_k 1 then 1 else top_k in if ltb doc_count k then doc_count else k)

unfoldable pub next_glob_top_k : ℕ → ℕ → ℕ
next_glob_top_k current doc_count =
    if doc_count == 0
    then 0
    else if leb doc_count current
    then doc_count
    else (let next = current * 2 in
        if leb next current || ltb doc_count next then doc_count else next)

pub data Queried (D E : Type 0) : Type 0 where
  results : List (Option D) → Queried D E
  query_failed : E → Queried D E

pub data Found (H E : Type 0) : Type 0 where
  found : List H → Found H E
  search_failed : E → Found H E

-- Either the hits of the last round, or the next window.
pub data GlobRound (H E : Type 0) : Type 0 where
  finished : Found H E → GlobRound H E
  widen : ℕ → List H → GlobRound H E

unfoldable pub resume : {H E : Type 0} → (ℕ → List H → Found H E) → GlobRound H E → Found H E
resume loop (finished r) = r
resume loop (widen k hits) = loop k hits

module _ {D H : Type 0} (to_hit : D → H) (matches : H → Bool) where
  -- The loop over the results, up to `top_k` hits.
  unfoldable pub collect_hits : ℕ → List (Option D) → List H → List H
  collect_hits top_k [] hits = hits
  collect_hits top_k (none ∷ docs) hits = collect_hits top_k docs hits
  collect_hits top_k (some doc ∷ docs) hits =
      let skipped = collect_hits top_k docs hits in
      let more = hits ++ to_hit doc ∷ [] in
      let rest = collect_hits top_k docs more in
      if matches (to_hit doc) then if leb top_k (length more) then more else rest else skipped

  unfoldable pub glob_round : {E : Type 0} → ℕ → ℕ → ℕ → Queried D E → GlobRound H E
  unfolding collect_hits next_glob_top_k
  glob_round top_k doc_count k (query_failed e) = finished (search_failed e)
  glob_round top_k doc_count k (results docs) =
      let hits = collect_hits top_k docs [] in
      if leb top_k (length hits) || leb doc_count k
      then finished (found hits)
      else widen (next_glob_top_k k doc_count) hits

  -- Each round widens the window, which the collection bounds: a round for each document is enough.
  unfoldable pub glob_loop : {E : Type 0} → (ℕ → Queried D E) → ℕ → ℕ → ℕ → ℕ → List H → Found H E
  unfolding glob_round resume
  glob_loop query top_k doc_count zero k hits = found hits
  glob_loop query top_k doc_count (suc fuel) k hits =
      let rest =
        resume (glob_loop query top_k doc_count fuel) (glob_round top_k doc_count k (query k)) in
      if ltb (length hits) top_k && (ltb 0 k && leb k doc_count) then rest else found hits

  unfoldable pub search_with_glob_expansion : {E : Type 0} → (ℕ → Queried D E) → ℕ → ℕ → Found H E
  unfolding glob_loop glob_top_k_start
  search_with_glob_expansion query top_k doc_count =
      let all_hits =
        glob_loop query top_k doc_count doc_count (glob_top_k_start top_k doc_count) [] in
      if doc_count == 0 then found [] else all_hits
