-- ===== src/Manifest.antt =====
-- The manifest of internal/store/manifest/store.go: a table whose key is the path, so that the order
-- of its rows tells nothing, and what the coordinator asks of an entry.
pub mod Desync
use mcp_semantic_search_zvec.Prelude.{
  ℕ, Bool, false, not, ◌&&◌, List, [], ◌∷◌, Option, none, some, String, str_eq, ◌==◌, if◌then◌else◌,
}
use mcp_semantic_search_zvec.Ids.{Ids, rollback_new_doc_ids}

pub record FileEntry : Type 0 where
  pub relative_path : String
  pub mtime_ns : ℕ
  pub size : ℕ
  pub chunk_count : ℕ
  pub doc_ids : Ids
  pub content_hash : String

abbrev pub Manifest : Type 0
Manifest = List FileEntry

-- The row whose primary key is the path.
unfoldable pub get : Manifest → String → Option FileEntry
get [] rel = none
get (e ∷ es) rel = let rest = get es rel in if str_eq e.relative_path rel then some e else rest

unfoldable pub delete : Manifest → String → Manifest
delete [] rel = []
delete (e ∷ es) rel =
    let rest = delete es rel in if str_eq e.relative_path rel then rest else e ∷ rest

unfoldable pub upsert : Manifest → FileEntry → Manifest
upsert [] entry = entry ∷ []
upsert (e ∷ es) entry =
    let rest = upsert es entry in
    if str_eq e.relative_path entry.relative_path then entry ∷ es else e ∷ rest

unfoldable pub doc_ids_of_entry : Option FileEntry → Ids
doc_ids_of_entry none = []
doc_ids_of_entry (some e) = e.doc_ids

unfoldable pub rollback_ids : Ids → Option FileEntry → Ids
unfolding rollback_new_doc_ids
rollback_ids new_ids none = rollback_new_doc_ids new_ids none
rollback_ids new_ids (some e) = rollback_new_doc_ids new_ids (some e.doc_ids)

unfoldable pub is_unchanged : Option FileEntry → ℕ → ℕ → String → Bool
is_unchanged none mtime size hash = false
is_unchanged (some old) mtime size hash =
    (old.mtime_ns == mtime)
    && (old.size == size)
    && (not (str_eq old.content_hash "") && str_eq old.content_hash hash)
