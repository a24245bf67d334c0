-- ===== src/Search/Expansion.antt =====
-- The expanding window finds what a pass over the whole collection finds.
use mcp_semantic_search_zvec.Prelude.{
  ℕ, zero, suc, ◌+◌, ◌≤◌, ◌<◌, ◌≡◌, refl, sym, ◌∙◌, ap, Bool, true, false, ◌||◌, List, [], ◌∷◌,
  ◌++◌, Option, none, some, ltb, leb, if◌then◌else◌, length, take, drop, take_all, take-append-drop,
  length-take, arith, Bool-cases, inl, inr, append_assoc, append-nil, length-append, ◌==◌,
}
use mcp_semantic_search_zvec.Search.{
  glob_top_k_start, next_glob_top_k, Queried, results, found, finished, widen, resume, collect_hits,
  glob_round, glob_loop, search_with_glob_expansion,
}

take_of_append {ℓ} :
    {A : Type ℓ} (n : ℕ) (xs ys : List A) → n ≤ length xs → take n (xs ++ ys) ≡ take n xs
take_of_append zero xs ys h = refl
take_of_append (suc n) [] ys h = absurd (omega (arith, h))
take_of_append (suc n) (x ∷ xs) ys h = ap (λ zs. x ∷ zs) (take_of_append n xs ys (omega (arith, h)))

le_of_leb : (a b : ℕ) → leb a b ≡ true → a ≤ b
le_of_leb a b h = ground arith

glob_top_k_start-within :
    (top_k doc_count : ℕ)
    → 0 < doc_count
    → (0 < glob_top_k_start top_k doc_count) × (glob_top_k_start top_k doc_count ≤ doc_count)
unfolding glob_top_k_start
glob_top_k_start-within top_k doc_count h = (ground arith, ground arith)

next_glob_top_k-later :
    (k doc_count : ℕ)
    → k < doc_count
    → 0 < k
    → (k < next_glob_top_k k doc_count) × (next_glob_top_k k doc_count ≤ doc_count)
unfolding next_glob_top_k
next_glob_top_k-later k doc_count h p = (ground arith, ground arith)

no_docs {ℓ} : {A : Type ℓ} (xs : List A) → length xs ≡ 0 → xs ≡ []
no_docs [] h = refl
no_docs (x ∷ xs) h = absurd (omega (arith, h))

module _ {D H : Type 0} (to_hit : D → H) (matches : H → Bool) where
  -- The hits of all documents that match, in order.
  abbrev pub all_hits : List (Option D) → List H
  all_hits [] = []
  all_hits (none ∷ docs) = all_hits docs
  all_hits (some doc ∷ docs) =
      let rest = all_hits docs in if matches (to_hit doc) then to_hit doc ∷ rest else rest

  all_hits-append : (xs ys : List (Option D)) → all_hits (xs ++ ys) ≡ all_hits xs ++ all_hits ys
  all_hits-append [] ys = refl
  all_hits-append (none ∷ xs) ys = all_hits-append xs ys
  all_hits-append (some doc ∷ xs) ys = elim (Bool-cases (matches (to_hit doc))) [
    | inl match ↦ rw (match, all_hits-append xs ys) refl
    | inr other ↦ rw (other, all_hits-append xs ys) refl
  ]

  collect_hits-take :
      (top_k : ℕ) (docs : List (Option D)) (hits : List H)
      → length hits < top_k
      → collect_hits to_hit matches top_k docs hits ≡ take top_k (hits ++ all_hits docs)
  unfolding collect_hits
  collect_hits-take top_k [] hits h = rw append-nil (sym (take_all top_k hits (omega (arith, h))))
  collect_hits-take top_k (none ∷ docs) hits h = collect_hits-take top_k docs hits h
  collect_hits-take top_k (some doc ∷ docs) hits h = elim (Bool-cases (matches (to_hit doc))) [
    | inr other ↦ rw other (collect_hits-take top_k docs hits h)
    | inl match ↦
        let more = hits ++ to_hit doc ∷ [] in
        let n = length-append hits (to_hit doc ∷ []) in
        let e = append_assoc hits (to_hit doc ∷ []) (all_hits docs) in
        elim (Bool-cases (leb top_k (length more))) [
          | inl full ↦
              let few : length more ≤ top_k = omega (arith, n, h) in
              let many : top_k ≤ length more = ground (arith, full) in
              let taken =
                take_of_append top_k more (all_hits docs) many ∙ take_all top_k more few in
              rw (match, full, ← e, taken) refl
          | inr room ↦
              let rest = collect_hits-take top_k docs more (ground (arith, room)) in
              rw (match, room, ← e) rest
        ]
  ]

  module _ {E : Type 0} (query : ℕ → Queried D E) (top_k : ℕ) (ranked : List (Option D))
      (query-ranks : (k : ℕ) → query k ≡ results (take k ranked)) where
    -- The first hits of a window that has enough of them, or all documents, are those of all.
    window_is_enough :
        (k : ℕ)
        → top_k ≤ length (take top_k (all_hits (take k ranked)))
        → take top_k (all_hits (take k ranked)) ≡ take top_k (all_hits ranked)
    window_is_enough k h =
        let split = ap all_hits (take-append-drop k ranked) in
        let many : top_k ≤ length (all_hits (take k ranked)) =
          omega (arith, h, length-take top_k (all_hits (take k ranked))) in
        sym (take_of_append top_k (all_hits (take k ranked)) (all_hits (drop k ranked)) many)
        ∙ ap (take top_k) (sym (all_hits-append (take k ranked) (drop k ranked)) ∙ split)

    round_ends :
        (k : ℕ) (docs : List (Option D))
        → (leb top_k (length (collect_hits to_hit matches top_k docs [])) || leb (length ranked) k)
          ≡ true
        → glob_round to_hit matches {E = E} top_k (length ranked) k (results docs)
          ≡ finished (found (collect_hits to_hit matches top_k docs []))
    unfolding glob_round
    round_ends k docs h = rw h refl

    round_widens :
        (k : ℕ) (docs : List (Option D))
        → (leb top_k (length (collect_hits to_hit matches top_k docs [])) || leb (length ranked) k)
          ≡ false
        → glob_round to_hit matches {E = E} top_k (length ranked) k (results docs)
          ≡ widen (next_glob_top_k k (length ranked)) (collect_hits to_hit matches top_k docs [])
    unfolding glob_round
    round_widens k docs h = rw h refl

    glob_loop_lem :
        (fuel k : ℕ) (hits : List H)
        → length hits < top_k
        → 0 < k
        → k ≤ length ranked
        → length ranked < fuel + k
        → glob_loop to_hit matches query top_k (length ranked) fuel k hits
          ≡ found (take top_k (all_hits ranked))
    unfolding glob_loop resume
    glob_loop_lem zero k hits h p l f = absurd (omega (arith, l, f))
    glob_loop_lem (suc fuel) k hits h p l f =
        let g1 : ltb (length hits) top_k ≡ true = ground (arith, h) in
        let g2 : ltb 0 k ≡ true = ground (arith, p) in
        let g3 : leb k (length ranked) ≡ true = ground (arith, l) in
        let docs = take k ranked in
        let hits' = collect_hits to_hit matches top_k docs [] in
        let c : hits' ≡ take top_k (all_hits docs) =
          collect_hits-take top_k docs [] (omega (arith, h)) in
        rw (g1, g2, g3, query-ranks k)
          (elim (Bool-cases (leb top_k (length hits'))) [
            | inl full ↦
                let many : top_k ≤ length (take top_k (all_hits docs)) =
                  rw c at (le_of_leb top_k (length hits') full) in
                rw (round_ends k docs (ground (arith, full)))
                  (ap found (c ∙ window_is_enough k many))
            | inr short ↦ elim (Bool-cases (leb (length ranked) k)) [
              | inl last ↦ rw (round_ends k docs (ground (arith, last))) (
                  ap found (
                    c
                    ∙ ap (λ all. take top_k (all_hits all))
                        (take_all k ranked (ground (arith, last)))))
              | inr wider ↦
                  let next = next_glob_top_k-later k (length ranked) (ground (arith, wider)) p in
                  rw (round_widens k docs (ground (arith, short, wider))) (
                    glob_loop_lem fuel (next_glob_top_k k (length ranked)) hits'
                      (ground (arith, short)) (omega (arith, p, next.0)) next.1
                      (omega (arith, f, next.0)))
            ]
          ])

    glob_loop_none :
        (fuel k : ℕ)
        → top_k ≡ 0
        → glob_loop to_hit matches query top_k (length ranked) fuel k [] ≡ found []
    unfolding glob_loop
    glob_loop_none zero k e = refl
    glob_loop_none (suc fuel) k e = let g : ltb 0 top_k ≡ false = ground arith in rw g refl

    searched_none :
        (length ranked == 0) ≡ true
        → search_with_glob_expansion to_hit matches query top_k (length ranked) ≡ found []
    unfolding search_with_glob_expansion
    searched_none h = rw h refl

    searched :
        (length ranked == 0) ≡ false
        → search_with_glob_expansion to_hit matches query top_k (length ranked)
          ≡ glob_loop to_hit matches query top_k
              (length ranked)
              (length ranked)
              (glob_top_k_start top_k (length ranked))
              []
    unfolding search_with_glob_expansion
    searched h = rw h refl

    -- Where the query ranks the documents of the collection and hands over the first ones, the
    -- search returns the first hits, as many as asked for or as there are, of all the documents
    -- that match the glob, in their rank: no match is lost because the window ended before it.
    pub search_with_glob_expansion_lem :
        search_with_glob_expansion to_hit matches query top_k (length ranked)
        ≡ found (take top_k (all_hits ranked))
    search_with_glob_expansion_lem = elim (Bool-cases (length ranked == 0)) [
      | inl empty ↦
          let e : ranked ≡ [] = no_docs ranked (ground (arith, empty)) in
          searched_none empty
          ∙ (ap found
              (sym (ap (λ docs. take top_k (all_hits docs)) e ∙ take_all top_k [] (omega arith))))
      | inr some_docs ↦
          let within = glob_top_k_start-within top_k (length ranked) (ground (arith, some_docs)) in
          elim (Bool-cases (top_k == 0)) [
            | inl none_asked ↦
                let z : top_k ≡ 0 = ground (arith, none_asked) in
                searched some_docs
                ∙ (glob_loop_none (length ranked) (glob_top_k_start top_k (length ranked)) z
                    ∙ ap (λ n. found (take n (all_hits ranked))) (sym z))
            | inr asked ↦
                searched some_docs
                ∙ (glob_loop_lem (length ranked) (glob_top_k_start top_k (length ranked)) []
                    (ground (arith, asked)) within.0 within.1 (omega (arith, within.0)))
          ]
    ]
