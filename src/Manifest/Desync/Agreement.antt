-- ===== src/Manifest/Desync/Agreement.antt =====
-- What the answer of manifestZvecDesync means.
use mcp_semantic_search_zvec.Prelude.{
  ℕ, ◌≡◌, ◌≢◌, refl, sym, ap, ◌∙◌, Bool, true, false, [], ◌∷◌, ◌==◌, length, arith, Bool-cases, inl,
  inr,
}
use mcp_semantic_search_zvec.Ids.{Ids}
use mcp_semantic_search_zvec.Manifest.{Manifest}
use mcp_semantic_search_zvec.Manifest.Desync.{
  stats, all_doc_ids, unique_doc_id_count, Desync, desynced, desync_failed, Answer, answer,
  collection_missing, locked, store_failed, StoreAnswers, opened, check_present, check_ids,
  check_count, check_open, check_manifest, manifest_zvec_desync,
}

-- An answer that all agree.
abbrev pub IsSynced : {E : Type 0} → Desync E → Type 0
IsSynced (desynced true) = ⊥
IsSynced (desynced false) = Unit
IsSynced (desync_failed e) = ⊥

module _ {E : Type 0} (store : StoreAnswers E) where
  check_present_lem : (a : Answer Bool E) → IsSynced (check_present store a) → a ≡ answer true
  unfolding check_present
  check_present_lem (answer true) h = refl
  check_present_lem (answer false) h = absurd h
  check_present_lem collection_missing h = absurd h
  check_present_lem locked h = absurd h
  check_present_lem (store_failed e) h = absurd h

  check_ids_lem :
      (ids : Ids)
      → IsSynced (check_ids store ids)
      → length ids ≢ 0
      → store.doc_ids_present ids ≡ answer true
  unfolding check_ids
  check_ids_lem [] h n = absurd (n refl)
  check_ids_lem (id ∷ ids) h n = check_present_lem (store.doc_ids_present (id ∷ ids)) h

  check_count_lem :
      (m : Manifest) (a : Answer ℕ E)
      → IsSynced (check_count store m a)
      → (a ≡ answer (unique_doc_id_count m)) × IsSynced (check_ids store (all_doc_ids m))
  unfolding check_count
  check_count_lem m (answer n) h = elim (Bool-cases (n == 0)) [
    | inl none_stored ↦ absurd (rw none_stored at h)
    | inr some_stored ↦ elim (Bool-cases (unique_doc_id_count m == n)) [
      | inl same ↦
          let e : n ≡ unique_doc_id_count m = ground (arith, same) in
          let rest : IsSynced (check_ids store (all_doc_ids m)) = rw (some_stored, same) at h in
          (ap answer e, rest)
      | inr other ↦ absurd (rw (some_stored, other) at h)
    ]
  ]
  check_count_lem m collection_missing h = absurd h
  check_count_lem m locked h = absurd h
  check_count_lem m (store_failed e) h = absurd h

  check_open_lem :
      (m : Manifest) (is_open : Bool) (a : Answer Bool E)
      → IsSynced (check_open store m is_open a)
      → IsSynced (check_count store m store.doc_count)
  unfolding check_open
  check_open_lem m true a h = h
  check_open_lem m false (answer ok) h = h
  check_open_lem m false collection_missing h = absurd h
  check_open_lem m false locked h = absurd h
  check_open_lem m false (store_failed e) h = absurd h

  -- Where the manifest has chunks and manifestZvecDesync answers that nothing is out of step, its
  -- distinct ids are as many as its chunks and as the documents that the vector store counts, and
  -- the store says that it has all of them.
  pub manifest_zvec_desync_lem :
      (m : Manifest)
      → (stats m).1 ≢ 0
      → IsSynced (manifest_zvec_desync store (opened m))
      → (unique_doc_id_count m ≡ (stats m).1)
        × (store.doc_count ≡ answer (unique_doc_id_count m))
        × (store.doc_ids_present (all_doc_ids m) ≡ answer true)
  unfolding manifest_zvec_desync check_manifest
  manifest_zvec_desync_lem m n h =
      let some_chunks : ((stats m).1 == 0) ≡ false = ground (arith, n) in
      elim (Bool-cases (unique_doc_id_count m == (stats m).1)) [
        | inr other ↦ absurd (rw (some_chunks, other) at h)
        | inl same ↦
            let e : unique_doc_id_count m ≡ (stats m).1 = ground (arith, same) in
            let h' : IsSynced (check_open store m store.is_open store.open_answer) =
              rw (some_chunks, same) at h in
            let c =
              check_count_lem m store.doc_count
                (check_open_lem m store.is_open store.open_answer h') in
            let some_ids : length (all_doc_ids m) ≢ 0 =
              λ z. n (sym e ∙ unfold unique_doc_id_count all_doc_ids in z) in
            (e, c.0, check_ids_lem (all_doc_ids m) c.1 some_ids)
      ]
