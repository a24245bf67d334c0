-- ===== src/Vectors/Deletes.antt =====
-- Which vectors the deletes of the coordinator leave alone.
use mcp_semantic_search_zvec.Prelude.{
  ℕ, zero, suc, ◌≡◌, refl, ◌∙◌, Bool, true, false, [], ◌∷◌, Option, none, some, String, arith,
}
use mcp_semantic_search_zvec.Ids.{Ids, contains, stale_doc_ids}
use mcp_semantic_search_zvec.Ids.Sets.{contains-without}
use mcp_semantic_search_zvec.Vectors.{
  VectorStore, WriteError, not_linked, partial_write, flush_write, refused, Attempt, settled, again,
  judge, retry_rest, go_on, delete_attempts, delete_stale_vectors_from, delete_stale, delete_if_any,
  delete_entry_ids,
}
use mcp_semantic_search_zvec.Vectors.Laws.{IsLawful}

pub stale_doc_ids-absent :
    (old new : Ids) (id : String)
    → contains old id ≡ false
    → contains (stale_doc_ids old new) id ≡ false
unfolding stale_doc_ids
stale_doc_ids-absent old new id h = ground (arith, contains-without new old id)

pub stale_doc_ids-new :
    (old new : Ids) (id : String)
    → contains new id ≡ true
    → contains (stale_doc_ids old new) id ≡ false
unfolding stale_doc_ids
stale_doc_ids-new old new id h = ground (arith, contains-without new old id)

module _ {V Vec : Type 0} (store : VectorStore V Vec) (has : V → String → Bool)
    (lawful : IsLawful store has) (id : String) where
  pub delete_if_any-frame :
      (v : V) (ids : Ids) → contains ids id ≡ false → has (delete_if_any store v ids) id ≡ has v id
  unfolding delete_if_any
  delete_if_any-frame v [] h = refl
  delete_if_any-frame v (x ∷ ids) h = lawful.delete_frame v (x ∷ ids) id h

  pub delete_entry_ids-frame :
      (v : V) (ids : Ids)
      → contains ids id ≡ false
      → has (delete_entry_ids store v ids).0 id ≡ has v id
  unfolding delete_entry_ids
  delete_entry_ids-frame v [] h = refl
  delete_entry_ids-frame v (x ∷ ids) h = lawful.delete_frame v (x ∷ ids) id h

  -- A retry asks for no new id.
  abbrev Asks : Attempt → Type 0
  Asks settled = Unit
  Asks (again ids e) = contains ids id ≡ false

  retry_rest-Asks : (ids : Ids) (e : WriteError) → contains ids id ≡ false → Asks (retry_rest ids e)
  unfolding retry_rest
  retry_rest-Asks [] e h = tt
  retry_rest-Asks (x ∷ ids) e h = h

  judge-Asks :
      (ids : Ids) (err : Option WriteError) → contains ids id ≡ false → Asks (judge ids err)
  unfolding judge
  judge-Asks ids none h = tt
  judge-Asks ids (some not_linked) h = tt
  judge-Asks ids (some (partial_write [])) h = h
  judge-Asks ids (some (partial_write (d ∷ ds))) h =
      retry_rest-Asks (stale_doc_ids ids (d ∷ ds)) (partial_write (d ∷ ds))
        (stale_doc_ids-absent ids (d ∷ ds) id h)
  judge-Asks ids (some (flush_write done)) h = h
  judge-Asks ids (some refused) h = h

  go_on-frame :
      (loop : Ids → Option WriteError → V × Option WriteError) (v v0 : V) (a : Attempt)
      → ((ids : Ids) (last : Option WriteError)
          → contains ids id ≡ false
          → has (loop ids last).0 id ≡ has v0 id)
      → has v id ≡ has v0 id
      → Asks a
      → has (go_on loop v a).0 id ≡ has v0 id
  unfolding go_on
  go_on-frame loop v v0 settled step e h = e
  go_on-frame loop v v0 (again ids err) step e h = step ids (some err) h

  pub delete_attempts-frame :
      (attempts : ℕ) (v : V) (ids : Ids) (last : Option WriteError)
      → contains ids id ≡ false
      → has (delete_attempts store attempts v ids last).0 id ≡ has v id
  unfolding delete_attempts
  delete_attempts-frame zero v ids last h = refl
  delete_attempts-frame (suc attempts) v ids last h =
      let v' = (store.delete_by_ids v ids).0 in
      let e = lawful.delete_frame v ids id h in
      go_on-frame (delete_attempts store attempts v') v' v (judge ids (store.delete_by_ids v ids).1)
        (λ ids' last' h'. delete_attempts-frame attempts v' ids' last' h' ∙ e) e
        (judge-Asks ids (store.delete_by_ids v ids).1 h)

  pub delete_stale-frame :
      (v : V) (ids : Ids) → contains ids id ≡ false → has (delete_stale store v ids).0 id ≡ has v id
  unfolding delete_stale delete_stale_vectors_from
  delete_stale-frame v [] h = refl
  delete_stale-frame v (x ∷ ids) h = delete_attempts-frame 3 v (x ∷ ids) none h
