-- ===== src/Tests/Search.antt =====
-- A search for two of seven documents, one of which the library hands over as nil.
use mcp_semantic_search_zvec.Prelude.{
  ℕ, ◌≡◌, refl, ◌%◌, Bool, List, [], ◌∷◌, Option, none, some, take, length, ◌==◌,
}
use mcp_semantic_search_zvec.Search.{Queried, results, found, search_with_glob_expansion}
use mcp_semantic_search_zvec.Search.Expansion.{all_hits, search_with_glob_expansion_lem}

abbrev ranked : List (Option ℕ)
ranked = some 1 ∷ some 3 ∷ none ∷ some 4 ∷ some 5 ∷ some 7 ∷ some 8 ∷ []

abbrev is_even : ℕ → Bool
is_even n = n % 2 == 0

abbrev query : ℕ → Queried ℕ ℕ
query k = results (take k ranked)

two_found : search_with_glob_expansion (λ n. n) is_even query 2 7 ≡ found (4 ∷ 8 ∷ [])
unfolding search_with_glob_expansion
two_found = refl

search_with_glob_expansion_lem_example :
    search_with_glob_expansion (λ n. n) is_even query 2 (length ranked)
    ≡ found (take 2 (all_hits (λ n. n) is_even ranked))
search_with_glob_expansion_lem_example =
    search_with_glob_expansion_lem (λ n. n) is_even query 2 ranked λ k. refl
