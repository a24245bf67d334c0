-- ===== src/Tests/Desync.antt =====
-- A manifest of two entries that share an id, and a store that has what the manifest has.
use mcp_semantic_search_zvec.Prelude.{ℕ, ◌≡◌, refl, true, false, [], ◌∷◌, String, str_eq}
use mcp_semantic_search_zvec.Ids.{contains}
use mcp_semantic_search_zvec.Ids.Sets.{IsUnique}
use mcp_semantic_search_zvec.Manifest.{Manifest, FileEntry}
use mcp_semantic_search_zvec.Manifest.Desync.{
  stats, all_doc_ids, unique_doc_id_count, StoreAnswers, answer, manifest_zvec_desync,
}
use mcp_semantic_search_zvec.Manifest.Desync.Agreement.{manifest_zvec_desync_lem}
use mcp_semantic_search_zvec.Manifest.Desync.Distinct.{is_listed, all_doc_ids_lem}

abbrev entry : FileEntry
entry = record {
  relative_path = "a.go";
  mtime_ns = 1;
  size = 4;
  chunk_count = 2;
  doc_ids = "first" ∷ "second" ∷ [];
  content_hash = "h1";
}

abbrev manifest : Manifest
manifest = entry ∷ []

abbrev shared : Manifest
shared =
    entry ∷ record entry { relative_path = "b.go"; doc_ids = "second" ∷ "" ∷ "third" ∷ [] } ∷ []

abbrev store : StoreAnswers ℕ
store = record {
  is_open = false;
  open_answer = answer true;
  doc_count = answer 2;
  doc_ids_present = λ ids. answer true;
  missing_error = 0;
}

three_listed : all_doc_ids shared ≡ "first" ∷ "second" ∷ "third" ∷ []
unfolding all_doc_ids contains
three_listed = refl

all_doc_ids_lem_example :
    IsUnique (all_doc_ids shared)
    × ((id : String)
        → str_eq id "" ≡ false
        → contains (all_doc_ids shared) id ≡ is_listed shared id)
all_doc_ids_lem_example = all_doc_ids_lem shared

manifest_zvec_desync_lem_example :
    (unique_doc_id_count manifest ≡ (stats manifest).1)
    × (store.doc_count ≡ answer (unique_doc_id_count manifest))
    × (store.doc_ids_present (all_doc_ids manifest) ≡ answer true)
unfolding manifest_zvec_desync unique_doc_id_count stats contains
manifest_zvec_desync_lem_example = manifest_zvec_desync_lem store manifest (λ e. cc) tt
