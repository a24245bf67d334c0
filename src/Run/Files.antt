-- ===== src/Run/Files.antt =====
-- What indexing, purging and removing one file of a run do to one id of one file.
use mcp_semantic_search_zvec.Prelude.{
  ℕ, ◌≡◌, refl, sym, ap, ◌∙◌, subst, inl, inr, Bool, true, false, Option, none, some, String,
  str_eq, eq_iff, arith, ℤ, Bool-cases,
}
use mcp_semantic_search_zvec.Window.{Chunk}
use mcp_semantic_search_zvec.Window.Slices.{All}
use mcp_semantic_search_zvec.Ids.{Ids, contains}
use mcp_semantic_search_zvec.Manifest.{FileEntry, get, delete, doc_ids_of_entry}
use mcp_semantic_search_zvec.Vectors.{VectorStore, WriteError, delete_entry_ids}
use mcp_semantic_search_zvec.Vectors.Laws.{IsLawful}
use mcp_semantic_search_zvec.Vectors.Deletes.{delete_entry_ids-frame}
use mcp_semantic_search_zvec.Errors.{ErrorView}
use mcp_semantic_search_zvec.Index.{
  World, IndexError, forget, index_file, purge_entry, purge_removed_file,
}
use mcp_semantic_search_zvec.Index.Frame.{index_file-frame, written-Apart, forget-frame}
use mcp_semantic_search_zvec.Index.Stored.{IsKept, index_file-IsKept, get-delete}
use mcp_semantic_search_zvec.Run.Rewrites.{
  Rewrite, Foreign, Foreign-get, get-Rewrite, index_file-Rewrite, forget-Rewrite,
}
use mcp_semantic_search_zvec.Run.{ScannedFile}

module _ {V Vec : Type 0} (E : Type 0) (store : VectorStore V Vec) (has : V → String → Bool)
    (lawful : IsLawful store has) (path id : String) where
  abbrev pub IsOwn : String → Type 0
  IsOwn rel = str_eq rel path ≡ true

  abbrev pub IsOther : String → Type 0
  IsOther rel = str_eq rel path ≡ false

  -- The id is in the store if the entry of the file names it.
  abbrev pub Stored : World V → Type 0
  Stored w = contains (doc_ids_of_entry (get w.manifest path)) id ≡ true → has w.vectors id ≡ true

  none-Stored : (w : World V) → get w.manifest path ≡ none → Stored w
  unfolding contains doc_ids_of_entry
  none-Stored w e = λ h. ground (arith, e, h)

  forget_own :
      (w : World V) (rel : String) (fails : Option E) (r : V × Option WriteError)
      → IsOwn rel
      → (forget store w rel fails r).1 ≡ none
      → get (forget store w rel fails r).0.manifest path ≡ none
  unfolding forget
  forget_own w rel fails (v, some e) o h = absurd (ground (arith, h))
  forget_own w rel (some e) (v, none) o h = absurd (ground (arith, h))
  forget_own w rel none (v, none) o h =
      let p : rel ≡ path = ground (arith, o, eq_iff rel path) in
      subst (λ q. get (delete w.manifest rel) q ≡ none) p (get-delete w.manifest rel)

  same-Stored :
      (w w' : World V)
      → get w'.manifest path ≡ get w.manifest path
      → has w'.vectors id ≡ has w.vectors id
      → Stored w
      → Stored w'
  same-Stored w w' g e s = λ h. e ∙ s (ap (λ o. contains (doc_ids_of_entry o) id) (sym g) ∙ h)

  -- After the rows and vectors of a file are gone without an error.
  pub forget-Stored :
      (w : World V) (rel : String) (fails : Option E) (ids : Ids)
      → (IsOther rel → contains ids id ≡ false)
      → (IsOther rel → Stored w)
      → let r = forget store w rel fails (delete_entry_ids store w.vectors ids) in
        r.1 ≡ none → Stored r.0
  forget-Stored w rel fails ids c s h =
      let r = delete_entry_ids store w.vectors ids in
      elim (Bool-cases (str_eq rel path)) [
        | inl own ↦ none-Stored (forget store w rel fails r).0 (forget_own w rel fails r own h)
        | inr other ↦
            same-Stored w (forget store w rel fails r).0
              (get-Rewrite (λ ids. Unit) path rel w.manifest _ other
                (forget-Rewrite store (λ ids. Unit) w rel fails r))
              (forget-frame E store has lawful id w rel fails r.0 r.1
                (delete_entry_ids-frame store has lawful id w.vectors ids (c other)))
              (s other)
      ]

  pub purge-Stored :
      (get_fails delete_fails : Option E) (w : World V) (rel : String)
      → Foreign path id w.manifest
      → (IsOther rel → Stored w)
      → let r = purge_removed_file store get_fails delete_fails w rel in r.1 ≡ none → Stored r.0
  unfolding purge_removed_file purge_entry doc_ids_of_entry
  purge-Stored (some e) delete_fails w rel f s h = absurd (ground (arith, h))
  purge-Stored none delete_fails w rel f s h = by_entry (get w.manifest rel) refl h
    where
      by_entry :
          (o : Option FileEntry)
          → get w.manifest rel ≡ o
          → (purge_entry store delete_fails w rel o).1 ≡ none
          → Stored (purge_entry store delete_fails w rel o).0
      by_entry none e k = elim (Bool-cases (str_eq rel path)) [
        | inl own ↦
            none-Stored w
              (subst (λ q. get w.manifest q ≡ none) (ground (arith, own, eq_iff rel path)) e)
        | inr other ↦ s other
      ]
      by_entry (some x) e k =
          forget-Stored w rel delete_fails x.doc_ids
            (λ other.
              ap (λ o. contains (doc_ids_of_entry o) id) (sym e)
              ∙ Foreign-get w.manifest path id rel other f)
            s k

  module _ (doc_id_for : Chunk → ℕ → String) (batch_size : ℤ)
      (view : IndexError E → ErrorView) where
    -- The chunks of another file than this one never get the id.
    abbrev pub Avoids : ScannedFile Vec E → Type 0
    Avoids f =
        IsOther f.rel
        → All (λ ch. (n : ℕ) → str_eq (doc_id_for ch n) id ≡ false) f.answers.chunker.chunks

    abbrev pub indexed : ScannedFile Vec E → World V → World V × Option (IndexError E)
    indexed f w = index_file store doc_id_for batch_size f.answers w f.rel false

    pub indexed-Rewrite :
        (f : ScannedFile Vec E) (w : World V)
        → Avoids f
        → Rewrite
            (λ ids. IsOther f.rel → contains ids id ≡ false)
            f.rel
            w.manifest
            (indexed f w).0.manifest
    indexed-Rewrite f w a =
        index_file-Rewrite store (λ ids. IsOther f.rel → contains ids id ≡ false) doc_id_for
          batch_size f.answers
          (λ v other.
            (written-Apart E store has lawful id doc_id_for batch_size f.answers (a other) v).1)
          w f.rel

    pub indexed_other-Stored :
        (f : ScannedFile Vec E) (w : World V)
        → Avoids f
        → Foreign path id w.manifest
        → Stored w
        → IsOther f.rel
        → Stored (indexed f w).0
    indexed_other-Stored f w a g s other =
        same-Stored w (indexed f w).0
          (get-Rewrite _ path f.rel w.manifest _ other (indexed-Rewrite f w a))
          (index_file-frame E store has lawful id doc_id_for batch_size f.answers (a other) w f.rel
            false (Foreign-get w.manifest path id f.rel other g))
          s

    kept_own :
        (rel : String) (p : World V × Option (IndexError E))
        → rel ≡ path
        → IsKept E store has lawful id rel p
        → p.1 ≡ none
        → Stored p.0
    kept_own rel (w, none) e k ok =
        subst
          (λ q. contains (doc_ids_of_entry (get w.manifest q)) id ≡ true → has w.vectors id ≡ true)
          e k
    kept_own rel (w, some x) e k ok = absurd (ground (arith, ok))

    indexed_own-Stored :
        (f : ScannedFile Vec E) (w : World V)
        → Stored w
        → IsOwn f.rel
        → (indexed f w).1 ≡ none
        → Stored (indexed f w).0
    indexed_own-Stored f w s own ok =
        let e : f.rel ≡ path = ground (arith, own, eq_iff f.rel path) in
        kept_own f.rel (indexed f w) e
          (index_file-IsKept E store has lawful id doc_id_for batch_size f.answers w f.rel false (
            subst
              (λ q.
                contains (doc_ids_of_entry (get w.manifest q)) id ≡ true → has w.vectors id ≡ true)
              (sym e) s))
          ok

    pub indexed-Stored :
        (f : ScannedFile Vec E) (w : World V)
        → Avoids f
        → Foreign path id w.manifest
        → Stored w
        → (indexed f w).1 ≡ none
        → Stored (indexed f w).0
    indexed-Stored f w a g s ok = elim (Bool-cases (str_eq f.rel path)) [
      | inl own ↦ indexed_own-Stored f w s own ok
      | inr other ↦ indexed_other-Stored f w a g s other
    ]
