-- ===== src/Reconcile/Kept.antt =====
-- What ReconcileIndex leaves as it was.
use mcp_semantic_search_zvec.Prelude.{
  ◌≡◌, refl, ◌∙◌, ◌≢◌, inl, inr, Bool, true, false, not, ◌&&◌, Option, none, some, String, str_eq,
  arith, Bool-cases,
}
use mcp_semantic_search_zvec.Ids.{contains}
use mcp_semantic_search_zvec.Registry.{remove_id}
use mcp_semantic_search_zvec.Registry.Handles.{contains-remove_id}
use mcp_semantic_search_zvec.Meta.{
  Naming, IndexIdentity, IndexMeta, MetaError, MetaFile, absent, unreadable, readable, Disk,
  Answers, is_unset, collection_name, Verdict, index_identity_mismatch, index_meta_from_identity,
  index_meta_incomplete,
}
use mcp_semantic_search_zvec.Reconcile.{
  put_meta, write_index_meta, ensure_file, ensure_index_meta, remove_dir, remove_collection_dir,
  write_reset, old_name, reset_index_for_identity_change, check_name, settle_mismatch, settle,
  reconcile_verdict, meta_present, reconcile_index,
}

-- From the disk to the result of a call with that flag, for the collection of that name.
pub record Kept {E : Type 0} (name : String) (force : Bool) (d : Disk E)
    (r : Disk E × Option (MetaError E)) : Type 0 where
  pub on_error : r.1 ≢ none → r.0.meta ≡ d.meta
  pub own_collection : contains r.0.collections name ≡ contains d.collections name
  pub unforced : force ≡ false → r.0.collections ≡ d.collections

module _ {E : Type 0} (names : Naming) (i : IndexIdentity) (a : Answers E) where
  same-Kept :
      (name : String) (force : Bool) (d : Disk E) (e : Option (MetaError E))
      → Kept name force d (d, e)
  same-Kept name force d e = record {
    on_error = λ h. refl;
    own_collection = refl;
    unforced = λ f. refl;
  }

  put_meta-Kept :
      (name : String) (force : Bool) (w : Option E) (d d' : Disk E) (m : IndexMeta)
      → d'.meta ≡ d.meta
      → Kept name force d (d', none)
      → Kept name force d (put_meta w d' m)
  unfolding put_meta
  put_meta-Kept name force (some e) d d' m same k = record {
    on_error = λ h. same;
    own_collection = k.own_collection;
    unforced = k.unforced;
  }
  put_meta-Kept name force none d d' m same k = record {
    on_error = λ h. absurd (h refl);
    own_collection = k.own_collection;
    unforced = k.unforced;
  }

  write-Kept :
      (name : String) (force : Bool) (d : Disk E) (version : String)
      → Kept name force d (write_index_meta a d (index_meta_from_identity names i version))
  unfolding write_index_meta
  write-Kept name force d version =
      put_meta-Kept name force a.write d d _ refl (same-Kept name force d none)

  -- Another collection is removed before the meta is written, and only by force.
  remove_dir-Kept :
      (rm : Option E) (d : Disk E) (other name : String)
      → str_eq other name ≡ false
      → Kept name true d (write_reset names a i (remove_dir rm d other))
  unfolding remove_dir write_reset write_index_meta
  remove_dir-Kept (some e) d other name o = same-Kept name true d _
  remove_dir-Kept none d other name o =
      put_meta-Kept name true a.write d (record d { collections = remove_id d.collections other }) _
        refl
        record {
          on_error = λ h. refl;
          own_collection = contains-remove_id d.collections other name ∙ ground (arith, o);
          unforced = λ f. absurd (ground (arith, f));
        }

  reset-Kept :
      (d : Disk E) (old : Option IndexMeta)
      → Kept (collection_name names i) true d (reset_index_for_identity_change names a d old i)
  unfolding reset_index_for_identity_change remove_collection_dir write_reset
  reset-Kept d old =
      elim (Bool-cases
        (not (is_unset (old_name old)) && not (str_eq (old_name old) (collection_name names i)))) [
          | inl moved ↦
              let given : is_unset (old_name old) ≡ false = ground (arith, moved) in
              let other : str_eq (old_name old) (collection_name names i) ≡ false =
                ground (arith, moved) in
              rw (moved, given)
                (remove_dir-Kept a.remove d (old_name old) (collection_name names i) other)
          | inr kept ↦ rw kept (write-Kept _ true d _)
        ]

  abbrev Keeps : Bool → Disk E → Disk E × Option (MetaError E) → Type 0
  Keeps force d r = Kept (collection_name names i) force d r

  mismatch-Kept :
      (force : Bool) (d : Disk E) (m : Option IndexMeta) (e : Option (MetaError E))
      → Keeps force d (settle_mismatch force names a d i m e)
  unfolding settle_mismatch
  mismatch-Kept false d m e = same-Kept _ false d e
  mismatch-Kept true d m e = reset-Kept d m

  ensure-Kept :
      (force : Bool) (d : Disk E) (file : MetaFile E) → Keeps force d (ensure_file names a d i file)
  unfolding ensure_file
  ensure-Kept force d absent = write-Kept _ force d _
  ensure-Kept force d (unreadable e) = same-Kept _ force d _
  ensure-Kept force d (readable m) = elim (Bool-cases (index_meta_incomplete (some m))) [
    | inl partial ↦ rw partial (write-Kept _ force d _)
    | inr full ↦ rw full (same-Kept _ force d _)
  ]

  settle-Kept :
      (force : Bool) (d : Disk E) (v : Verdict E) → Keeps force d (settle force names a d i v)
  unfolding settle ensure_index_meta
  settle-Kept force d (true, m, e) = mismatch-Kept force d m e
  settle-Kept force d (false, m, e) = elim (Bool-cases (index_meta_incomplete m)) [
    | inl partial ↦ rw partial (ensure-Kept force d d.meta)
    | inr full ↦ rw full (same-Kept _ force d none)
  ]

  verdict-Kept :
      (force : Bool) (d : Disk E) (v : Verdict E)
      → Keeps force d (reconcile_verdict force names a d i v)
  unfolding reconcile_verdict
  verdict-Kept force d (false, m, some e) = same-Kept _ force d _
  verdict-Kept force d (false, m, none) = settle-Kept force d (check_name names i (false, m, none))
  verdict-Kept force d (true, m, e) = settle-Kept force d (check_name names i (true, m, e))

-- Whatever ReconcileIndex ends with, a failing write or removal included: where it fails the meta is
-- as before, the directory of the settings' own collection is there if it was, and without force
-- the directories of all collections are as before.
pub reconcile_index-Kept :
    {E : Type 0} (names : Naming) (i : IndexIdentity) (a : Answers E) (d : Disk E) (force : Bool)
    → Kept (collection_name names i) force d (reconcile_index names a d i force)
unfolding reconcile_index ensure_index_meta
reconcile_index-Kept names i a d force = elim (Bool-cases (meta_present d.meta)) [
  | inl present ↦
      rw present (verdict-Kept names i a force d (index_identity_mismatch names d.meta i))
  | inr missing ↦ rw missing (ensure-Kept names i a force d d.meta)
]
