-- ===== src/Vectors/Removals.antt =====
-- A delete of the coordinator that ends without an error has removed what it was asked to.
use mcp_semantic_search_zvec.Prelude.{
  ℕ, zero, suc, ◌≡◌, ◌≢◌, refl, ◌∙◌, Bool, true, false, [], ◌∷◌, Option, none, some, String, arith,
  Bool-cases, inl, inr,
}
use mcp_semantic_search_zvec.Ids.{Ids, contains, stale_doc_ids}
use mcp_semantic_search_zvec.Ids.Sets.{contains-without}
use mcp_semantic_search_zvec.Vectors.{
  VectorStore, WriteError, not_linked, partial_write, flush_write, refused, judge, retry_rest,
  go_on, delete_attempts, delete_stale_vectors_from, delete_stale, delete_entry_ids, minded,
  is_zvec_unavailable,
}
use mcp_semantic_search_zvec.Vectors.Laws.{IsLawful, Removes}
use mcp_semantic_search_zvec.Vectors.Deletes.{delete_attempts-frame, stale_doc_ids-new}

pub stale_doc_ids-old :
    (old new : Ids) (id : String)
    → contains old id ≡ true
    → contains new id ≡ false
    → contains (stale_doc_ids old new) id ≡ true
unfolding stale_doc_ids
stale_doc_ids-old old new id h k = ground (arith, contains-without new old id)

module _ {V Vec : Type 0} (store : VectorStore V Vec) (has : V → String → Bool)
    (lawful : IsLawful store has) (removes : Removes store has) (id : String) where
  -- If there is no error, the id is not in the store.
  abbrev pub IsGone : V × Option WriteError → Type 0
  IsGone (v, none) = has v id ≡ false
  IsGone (v, some e) = Unit

  lift_absent : (p : V × Option WriteError) → has p.0 id ≡ false → IsGone p
  lift_absent (v, none) h = h
  lift_absent (v, some e) h = tt

  -- The rest of the loop after an attempt: it removes what it is asked to, and touches no more.
  module _ (v : V) (loop : Ids → Option WriteError → V × Option WriteError)
      (again-IsGone : (ids : Ids) (e : WriteError)
        → contains ids id ≡ true
        → IsGone (loop ids (some e)))
      (loop-frame : (ids : Ids) (last : Option WriteError)
        → contains ids id ≡ false
        → has (loop ids last).0 id ≡ has v id) where
    rest-IsGone :
        (ids : Ids) (e : WriteError)
        → contains ids id ≡ true
        → IsGone (go_on loop v (retry_rest ids e))
    unfolding go_on retry_rest contains
    rest-IsGone [] e h = cc
    rest-IsGone (x ∷ ids) e h = again-IsGone (x ∷ ids) e h

    done-IsGone :
        (ids : Ids) (e : WriteError)
        → contains ids id ≡ false
        → has v id ≡ false
        → IsGone (go_on loop v (retry_rest ids e))
    unfolding go_on retry_rest
    done-IsGone [] e h gone = gone
    done-IsGone (x ∷ ids) e h gone =
        lift_absent (loop (x ∷ ids) (some e)) (loop-frame (x ∷ ids) (some e) h ∙ gone)

    judge-IsGone :
        (ids : Ids) (err : Option WriteError)
        → contains ids id ≡ true
        → (err ≡ none → has v id ≡ false)
        → ((done : Ids)
            → err ≡ some (partial_write done)
            → contains done id ≡ true
            → has v id ≡ false)
        → err ≢ some not_linked
        → IsGone (go_on loop v (judge ids err))
    unfolding judge go_on
    judge-IsGone ids none h removed reported linked = removed refl
    judge-IsGone ids (some not_linked) h removed reported linked = absurd (linked refl)
    judge-IsGone ids (some (partial_write [])) h removed reported linked =
        again-IsGone ids (partial_write []) h
    judge-IsGone ids (some (partial_write (d ∷ ds))) h removed reported linked =
        elim (Bool-cases (contains (d ∷ ds) id)) [
          | inl done ↦
              done-IsGone (stale_doc_ids ids (d ∷ ds)) (partial_write (d ∷ ds))
                (stale_doc_ids-new ids (d ∷ ds) id done) (reported (d ∷ ds) refl done)
          | inr left ↦
              rest-IsGone (stale_doc_ids ids (d ∷ ds)) (partial_write (d ∷ ds))
                (stale_doc_ids-old ids (d ∷ ds) id h left)
        ]
    judge-IsGone ids (some (flush_write done)) h removed reported linked =
        again-IsGone ids (flush_write done) h
    judge-IsGone ids (some refused) h removed reported linked = again-IsGone ids refused h

  attempt-IsGone :
      (attempts : ℕ) (v : V) (ids : Ids) (last : Option WriteError)
      → contains ids id ≡ true
      → ((v' : V) (ids' : Ids) (e : WriteError)
          → contains ids' id ≡ true
          → IsGone (delete_attempts store attempts v' ids' (some e)))
      → IsGone (delete_attempts store (suc attempts) v ids last)
  unfolding delete_attempts
  attempt-IsGone attempts v ids last h more =
      let v' = (store.delete_by_ids v ids).0 in
      judge-IsGone v' (delete_attempts store attempts v') (more v')
        (λ ids' last' h'. delete_attempts-frame store has lawful id attempts v' ids' last' h') ids
        (store.delete_by_ids v ids).1 h (λ e. removes.delete_removes v ids id e h)
        (λ done e k. removes.delete_reports v ids done id e k) (removes.delete_linked v ids)

  delete_attempts-IsGone :
      (attempts : ℕ) (v : V) (ids : Ids) (e : WriteError)
      → contains ids id ≡ true
      → IsGone (delete_attempts store attempts v ids (some e))
  delete_attempts-IsGone zero v ids e h = unfold delete_attempts in tt
  delete_attempts-IsGone (suc attempts) v ids e h =
      attempt-IsGone attempts v ids (some e) h (delete_attempts-IsGone attempts)

  pub delete_stale-IsGone :
      (v : V) (ids : Ids) → contains ids id ≡ true → IsGone (delete_stale store v ids)
  unfolding delete_stale delete_stale_vectors_from contains
  delete_stale-IsGone v [] h = cc
  delete_stale-IsGone v (x ∷ ids) h = attempt-IsGone 2 v (x ∷ ids) none h (delete_attempts-IsGone 2)

  minded-IsGone :
      (v : V) (err : Option WriteError)
      → (err ≡ none → has v id ≡ false)
      → err ≢ some not_linked
      → IsGone (v, minded err)
  unfolding minded is_zvec_unavailable
  minded-IsGone v none removed linked = removed refl
  minded-IsGone v (some not_linked) removed linked = absurd (linked refl)
  minded-IsGone v (some (partial_write ids)) removed linked = tt
  minded-IsGone v (some (flush_write ids)) removed linked = tt
  minded-IsGone v (some refused) removed linked = tt

  pub delete_entry_ids-IsGone :
      (v : V) (ids : Ids) → contains ids id ≡ true → IsGone (delete_entry_ids store v ids)
  unfolding delete_entry_ids contains
  delete_entry_ids-IsGone v [] h = cc
  delete_entry_ids-IsGone v (x ∷ ids) h =
      minded-IsGone (store.delete_by_ids v (x ∷ ids)).0 (store.delete_by_ids v (x ∷ ids)).1
        (λ e. removes.delete_removes v (x ∷ ids) id e h) (removes.delete_linked v (x ∷ ids))
