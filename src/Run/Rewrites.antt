-- ===== src/Run/Rewrites.antt =====
-- What indexing and removing a file do to the rows of the manifest.
use mcp_semantic_search_zvec.Prelude.{
  ℕ, ◌≡◌, refl, inl, inr, Bool, false, [], ◌∷◌, Option, none, some, String, str_eq, eq_iff, arith,
  ℤ, Bool-cases, ◌==◌,
}
use mcp_semantic_search_zvec.Window.{Chunk}
use mcp_semantic_search_zvec.Window.Slices.{All}
use mcp_semantic_search_zvec.Ids.{Ids, contains}
use mcp_semantic_search_zvec.Manifest.{
  Manifest, FileEntry, get, upsert, delete, doc_ids_of_entry, is_unchanged,
}
use mcp_semantic_search_zvec.Vectors.{VectorStore, WriteError, delete_entry_ids}
use mcp_semantic_search_zvec.Index.{
  World, Answers, IndexError, Seen, readable, unreadable, forget, drop_file, clean_up, commit,
  after_chunks, written, index_changed, index_seen, index_file_seen, index_file, purge_entry,
  purge_removed_file,
}

-- The manifest is as it was, or has lost the row of the file, or has a row of the file with ids for
-- which `P` holds.
pub data Rewrite (P : Ids → Type 0) (rel : String) (m : Manifest) : Manifest → Type 0 where
  same : Rewrite P rel m m
  deleted : Rewrite P rel m (delete m rel)
  upserted : (e : FileEntry) → e.relative_path ≡ rel → P e.doc_ids → Rewrite P rel m (upsert m e)

module _ {V Vec E : Type 0} (store : VectorStore V Vec) (P : Ids → Type 0) where
  pub forget-Rewrite :
      (w : World V) (rel : String) (delete_fails : Option E) (r : V × Option WriteError)
      → Rewrite P rel w.manifest (forget store w rel delete_fails r).0.manifest
  unfolding forget
  forget-Rewrite w rel delete_fails (v, some e) = same
  forget-Rewrite w rel (some e) (v, none) = same
  forget-Rewrite w rel none (v, none) = deleted

  pub purge-Rewrite :
      (get_fails delete_fails : Option E) (w : World V) (rel : String)
      → Rewrite P rel w.manifest (purge_removed_file store get_fails delete_fails w rel).0.manifest
  unfolding purge_removed_file purge_entry
  purge-Rewrite (some e) delete_fails w rel = same
  purge-Rewrite none delete_fails w rel = by_entry (get w.manifest rel)
    where
      by_entry :
          (o : Option FileEntry)
          → Rewrite P rel w.manifest (purge_entry store delete_fails w rel o).0.manifest
      by_entry none = same
      by_entry (some e) =
          forget-Rewrite w rel delete_fails (delete_entry_ids store w.vectors e.doc_ids)

  commit-Rewrite :
      (upsert_fails : Option E) (append_fails : Bool) (w : World V) (old : Option FileEntry)
      (e : FileEntry)
      → P e.doc_ids
      → Rewrite P e.relative_path w.manifest
          (commit store upsert_fails append_fails w old e).0.manifest
  unfolding commit clean_up
  commit-Rewrite (some err) append_fails w old e p = same
  commit-Rewrite none append_fails w old e p = upserted e refl p

  after_chunks-Rewrite :
      (a : Answers Vec E) (w : World V) (old : Option FileEntry) (e : FileEntry)
      (err : Option (IndexError E))
      → P e.doc_ids
      → Rewrite P e.relative_path w.manifest (after_chunks store a w old e err).0.manifest
  unfolding after_chunks drop_file
  after_chunks-Rewrite a w old e (some err) p = same
  after_chunks-Rewrite a w old e none p = elim (Bool-cases (e.chunk_count == 0)) [
    | inl empty ↦ rw empty (
        forget-Rewrite w e.relative_path a.delete_fails
          (delete_entry_ids store w.vectors (doc_ids_of_entry old)))
    | inr chunks ↦ rw chunks (commit-Rewrite a.upsert_fails a.append_fails w old e p)
  ]

  module _ (doc_id_for : Chunk → ℕ → String) (batch_size : ℤ) (a : Answers Vec E)
      (fresh : (v : V) → P (written store doc_id_for batch_size a v).state.new_doc_ids) where
    index_seen-Rewrite :
        (get_fails : Option E) (w : World V) (rel : String) (mtime size : ℕ) (hash : String)
        → Rewrite P rel w.manifest
            (index_seen store doc_id_for batch_size a false get_fails w rel mtime size
              hash).0.manifest
    unfolding index_seen index_changed
    index_seen-Rewrite (some e) w rel mtime size hash = same
    index_seen-Rewrite none w rel mtime size hash =
        elim (Bool-cases (is_unchanged (get w.manifest rel) mtime size hash)) [
          | inl kept ↦ rw kept same
          | inr changed ↦
              let p = written store doc_id_for batch_size a w.vectors in
              rw changed (
                after_chunks-Rewrite a (record w { vectors = p.state.vectors }) (get w.manifest rel)
                  (record {
                    relative_path = rel;
                    mtime_ns = mtime;
                    size = size;
                    chunk_count = p.count;
                    doc_ids = p.state.new_doc_ids;
                    content_hash = hash;
                  })
                  p.error (fresh w.vectors))
        ]

    -- Indexing a file that is not forced rewrites no row but the file's.
    pub index_file-Rewrite :
        (w : World V) (rel : String)
        → Rewrite P rel w.manifest (index_file store doc_id_for batch_size a w rel false).0.manifest
    unfolding index_file index_file_seen
    index_file-Rewrite w rel = by_seen a.seen
      where
        by_seen :
            (seen : Seen E)
            → Rewrite P rel w.manifest
                (index_file_seen store doc_id_for batch_size a seen w rel false).0.manifest
        by_seen (unreadable e) = same
        by_seen (readable mtime size hash) = index_seen-Rewrite a.get_fails w rel mtime size hash

-- The rows of other files than this one do not name the id.
abbrev pub Foreign : String → String → Manifest → Type 0
Foreign rel id m =
    All (λ (e : FileEntry). str_eq e.relative_path rel ≡ false → contains e.doc_ids id ≡ false) m

Foreign-delete :
    (rel id other : String) (m : Manifest) → Foreign rel id m → Foreign rel id (delete m other)
unfolding delete
Foreign-delete rel id other [] f = tt
Foreign-delete rel id other (e ∷ es) f = elim (Bool-cases (str_eq e.relative_path other)) [
  | inl gone ↦ rw gone (Foreign-delete rel id other es f.1)
  | inr kept ↦ rw kept (f.0, Foreign-delete rel id other es f.1)
]

Foreign-upsert :
    (rel id : String) (n : FileEntry) (m : Manifest)
    → (str_eq n.relative_path rel ≡ false → contains n.doc_ids id ≡ false)
    → Foreign rel id m
    → Foreign rel id (upsert m n)
unfolding upsert
Foreign-upsert rel id n [] h f = (h, tt)
Foreign-upsert rel id n (e ∷ es) h f = elim (Bool-cases (str_eq e.relative_path n.relative_path)) [
  | inl found ↦ rw found (h, f.1)
  | inr other ↦ rw other (f.0, Foreign-upsert rel id n es h f.1)
]

pub Foreign-Rewrite :
    (rel id other : String) (m m' : Manifest)
    → Rewrite (λ ids. str_eq other rel ≡ false → contains ids id ≡ false) other m m'
    → Foreign rel id m
    → Foreign rel id m'
Foreign-Rewrite rel id other m m' same f = f
Foreign-Rewrite rel id other m m' deleted f = Foreign-delete rel id other m f
Foreign-Rewrite rel id other m m' (upserted e p h) f = Foreign-upsert rel id e m (rw p h) f

get-delete_other :
    (m : Manifest) (rel other : String)
    → str_eq other rel ≡ false
    → get (delete m other) rel ≡ get m rel
unfolding get delete
get-delete_other [] rel other n = refl
get-delete_other (e ∷ es) rel other n = ground (
  arith,
  n,
  get-delete_other es rel other n,
  eq_iff e.relative_path rel,
  eq_iff e.relative_path other,
  eq_iff other rel,
)

get-upsert_other :
    (m : Manifest) (e : FileEntry) (rel : String)
    → str_eq e.relative_path rel ≡ false
    → get (upsert m e) rel ≡ get m rel
unfolding get upsert
get-upsert_other [] e rel n = ground (arith, n)
get-upsert_other (x ∷ xs) e rel n = ground (
  arith,
  n,
  get-upsert_other xs e rel n,
  eq_iff x.relative_path rel,
  eq_iff x.relative_path e.relative_path,
  eq_iff e.relative_path rel,
)

pub get-Rewrite :
    (P : Ids → Type 0) (rel other : String) (m m' : Manifest)
    → str_eq other rel ≡ false
    → Rewrite P other m m'
    → get m' rel ≡ get m rel
get-Rewrite P rel other m m' n same = refl
get-Rewrite P rel other m m' n deleted = get-delete_other m rel other n
get-Rewrite P rel other m m' n (upserted e p h) = get-upsert_other m e rel (rw p n)

-- The entry of another file does not name the id.
pub Foreign-get :
    (m : Manifest) (rel id other : String)
    → str_eq other rel ≡ false
    → Foreign rel id m
    → contains (doc_ids_of_entry (get m other)) id ≡ false
unfolding get doc_ids_of_entry contains
Foreign-get [] rel id other n f = refl
Foreign-get (e ∷ es) rel id other n f = elim (Bool-cases (str_eq e.relative_path other)) [
  | inl found ↦ rw found (
      f.0 (
        ground (
          arith,
          n,
          found,
          eq_iff e.relative_path other,
          eq_iff e.relative_path rel,
          eq_iff other rel,
        )))
  | inr further ↦ rw further (Foreign-get es rel id other n f.1)
]
