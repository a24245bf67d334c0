-- ===== src/Tests/Batches.antt =====
-- Three chunks through ProcessBatches with batches of two.
use mcp_semantic_search_zvec.Prelude.{
  ℕ, zero, suc, ◌≡◌, List, [], none, String, length, pos, positive_or,
}
use mathlib.Core.Option
use mcp_semantic_search_zvec.Bytes.{codes}
use mcp_semantic_search_zvec.Window.{Chunk}
use mcp_semantic_search_zvec.Window.Files.{file_chunks}
use mcp_semantic_search_zvec.Window.Slices.{All}
use mcp_semantic_search_zvec.Ids.{IdError, assert_unique}
use mcp_semantic_search_zvec.Batches.{ids_of, process_batches, default_batch_size}
use mcp_semantic_search_zvec.Batches.Collected.{keep, concat, stamp, IsBatch, process_batches_lem}

-- Ids that tell the ordinals apart.
abbrev name : Chunk → ℕ → String
name ch zero = "none"
name ch (suc zero) = "first"
name ch (suc (suc zero)) = "second"
name ch (suc (suc (suc n))) = "third"

abbrev three : List Chunk
three = file_chunks (codes "a.go") (codes "a\nb\nc") (pos 1) (pos 0)

process_batches_lem_example :
    let p =
      process_batches name keep
        (λ (e : IdError). e)
        (pos 2)
        (record { chunks = three; failure = none })
        [] in
    (concat p.state ≡ stamp name 0 three)
    × All (IsBatch (positive_or (pos 2) default_batch_size)) p.state
    × (p.count ≡ length three)
    × (p.error ≡ Option.map (λ (e : IdError). e) (assert_unique (ids_of (stamp name 0 three))))
process_batches_lem_example = process_batches_lem name (λ e. e) (pos 2) three
