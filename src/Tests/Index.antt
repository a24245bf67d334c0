-- ===== src/Tests/Index.antt =====
-- A file whose content changed, over a store that never fails.
use mcp_semantic_search_zvec.Prelude.{
  ℕ, zero, suc, ◌≡◌, refl, false, [], ◌∷◌, ◌++◌, none, some, String, str_eq, pos, arith,
}
use mcp_semantic_search_zvec.Bytes.{codes}
use mcp_semantic_search_zvec.Window.{Chunk}
use mcp_semantic_search_zvec.Ids.{Ids, contains, without, assert_unique}
use mcp_semantic_search_zvec.Ids.Sets.{contains-append, contains-without}
use mcp_semantic_search_zvec.Batches.{ids_of, with_id}
use mcp_semantic_search_zvec.Manifest.{FileEntry, get, doc_ids_of_entry}
use mcp_semantic_search_zvec.Vectors.{VectorStore}
use mcp_semantic_search_zvec.Vectors.Laws.{IsLawful, Removes}
use mcp_semantic_search_zvec.Index.{
  World, Answers, embedded, readable, index_file, purge_removed_file,
}
use mcp_semantic_search_zvec.Index.Frame.{index_file-frame}
use mcp_semantic_search_zvec.Index.Stored.{IsKept, index_file-IsKept}
use mcp_semantic_search_zvec.Index.Cleaned.{
  IsCleaned, index_file-IsCleaned, IsPurged, purge_removed_file-IsPurged,
}

abbrev pub set_store : VectorStore Ids ℕ
set_store = record {
  upsert_chunks = λ v batch vecs. (v ++ ids_of batch, none);
  delete_by_ids = λ v ids. (without ids v, none);
}

pub set_store-IsLawful : IsLawful set_store contains
set_store-IsLawful = record {
  upsert_frame = λ v batch vecs id h. ground (arith, h, contains-append v (ids_of batch) id);
  upsert_keeps = λ v batch vecs id h. ground (arith, h, contains-append v (ids_of batch) id);
  upsert_stores = λ v batch vecs id e h. ground (arith, h, contains-append v (ids_of batch) id);
  upsert_linked = λ v batch vecs e. cc;
  upsert_reports = λ v batch vecs e id failed h. cc;
  delete_frame = λ v ids id h. ground (arith, h, contains-without ids v id);
}

pub set_store-Removes : Removes set_store contains
set_store-Removes = record {
  delete_removes = λ v ids id e h. ground (arith, h, contains-without ids v id);
  delete_reports = λ v ids done id e h. cc;
  delete_linked = λ v ids e. cc;
}

abbrev pub entry : FileEntry
entry = record {
  relative_path = "a.go";
  mtime_ns = 1;
  size = 4;
  chunk_count = 1;
  doc_ids = "first" ∷ "old" ∷ [];
  content_hash = "h1";
}

abbrev pub world : World Ids
world = record {
  vectors = "first" ∷ "old" ∷ "other" ∷ [];
  manifest = entry ∷ [];
  journal = some [];
}

-- Two chunks now, the first of them with an id that the entry has.
abbrev pub name : Chunk → ℕ → String
name ch zero = "none"
name ch (suc zero) = "first"
name ch (suc (suc n)) = "second"

abbrev pub chunk : ℕ → Chunk
chunk n = record {
  doc_id = "";
  relative_path = codes "a.go";
  start_line = n;
  end_line = n;
  start_byte = 0;
  end_byte = 1;
  chunk_type = "code";
  name = codes "a.go";
  snippet = codes "a";
  symbol_name = "";
  symbol_kind = "";
  parent_scope = "";
  chunk_strategy = "line_window";
}

name_apart : (ch : Chunk) (n : ℕ) → str_eq (name ch n) "other" ≡ false
name_apart ch zero = refl
name_apart ch (suc zero) = refl
name_apart ch (suc (suc n)) = refl

abbrev pub answers : Answers ℕ ℕ
answers = record {
  seen = readable 2 5 "h2";
  chunker = record { chunks = chunk 1 ∷ chunk 2 ∷ []; failure = none };
  interrupted = λ n. none;
  embed = λ n batch. embedded [];
  get_fails = none;
  upsert_fails = none;
  delete_fails = none;
  append_fails = false;
}

stored_vectors :
    (index_file set_store name (pos 2) answers world "a.go" false).0.vectors
    ≡ "first" ∷ "other" ∷ "first" ∷ "second" ∷ []
unfolding index_file get without assert_unique with_id contains
stored_vectors = refl

index_file-frame_example :
    contains (index_file set_store name (pos 2) answers world "a.go" false).0.vectors "other"
    ≡ contains world.vectors "other"
unfolding contains get doc_ids_of_entry
index_file-frame_example =
    index_file-frame ℕ set_store contains set_store-IsLawful "other" name (pos 2) answers
      (name_apart (chunk 1), (name_apart (chunk 2), tt)) world "a.go" false refl

index_file-IsKept_example :
    IsKept ℕ set_store contains set_store-IsLawful "second" "a.go"
      (index_file set_store name (pos 2) answers world "a.go" false)
unfolding contains get doc_ids_of_entry
index_file-IsKept_example =
    index_file-IsKept ℕ set_store contains set_store-IsLawful "second" name (pos 2) answers world
      "a.go" false λ h. cc

index_file-IsCleaned_example :
    IsCleaned ℕ set_store contains set_store-IsLawful set_store-Removes "old" "a.go"
      (index_file set_store name (pos 2) answers world "a.go" false)
unfolding contains get doc_ids_of_entry
index_file-IsCleaned_example =
    index_file-IsCleaned ℕ set_store contains set_store-IsLawful set_store-Removes "old" name
      (pos 2) answers world "a.go" refl

purge_removed_file-IsPurged_example :
    IsPurged ℕ set_store contains set_store-IsLawful set_store-Removes "old"
      (doc_ids_of_entry (get world.manifest "a.go"))
      "a.go"
      (purge_removed_file set_store none none world "a.go")
purge_removed_file-IsPurged_example =
    purge_removed_file-IsPurged ℕ set_store contains set_store-IsLawful set_store-Removes "old" none
      none world "a.go"
