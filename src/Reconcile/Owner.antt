-- ===== src/Reconcile/Owner.antt =====
-- What the index belongs to after ReconcileIndex.
use mcp_semantic_search_zvec.Prelude.{
  pos, eq_int, eq_int_refl, ◌≡◌, refl, sym, subst, inl, inr, Bool, true, false, not, ◌&&◌, Option,
  none, some, String, str_eq, eq_iff, arith, Bool-cases,
}
use mcp_semantic_search_zvec.Ids.{Ids}
use mcp_semantic_search_zvec.Meta.{
  Naming, IndexIdentity, IndexMeta, Mismatch, MetaError, io_error, mismatch_error, MetaFile, absent,
  unreadable, readable, Disk, Answers, is_unset, differ, workspace_ids_equal, collection_name,
  owner_mismatch, settings_mismatch, first_mismatch, validate_meta, mismatch_of,
  validate_index_meta, check_geometry, index_identity_mismatch, index_meta_from_identity,
  index_meta_incomplete, collection_name_differs, chunking_geometry_changed,
}
use mcp_semantic_search_zvec.Reconcile.{
  put_meta, write_index_meta, ensure_file, ensure_index_meta, remove_collection_dir, write_reset,
  old_name, reset_index_for_identity_change, check_name, settle_mismatch, settle, reconcile_verdict,
  meta_present, reconcile_index,
}

-- The meta says that the index is that of the identity, and says it in full.
pub record IsOwned (names : Naming) (i : IndexIdentity) (m : IndexMeta) : Type 0 where
  pub same_collection : m.collection_name ≡ collection_name names i
  pub valid : validate_meta names m i ≡ none
  pub same_geometry : differ m.chunking_fingerprint i.chunking_fingerprint ≡ false
  pub complete : index_meta_incomplete (some m) ≡ false

-- The settings give the names of an identity, and its workspace id is in normal form.
pub record IsConfigured (names : Naming) (i : IndexIdentity) : Type 0 where
  pub has_root : is_unset (names.normalize_absolute_path i.workspace_root) ≡ false
  pub has_name : is_unset (collection_name names i) ≡ false
  pub has_profile : is_unset i.profile ≡ false
  pub has_dimensions : eq_int i.dimensions (pos 0) ≡ false
  pub normal_id :
      names.normalize_workspace_id i.workspace_id (names.normalize_absolute_path i.workspace_root)
      ≡ i.workspace_id

pub str_eq_refl : (s : String) → str_eq s s ≡ true
str_eq_refl s = (eq_iff s s).1 refl

differ_self : (s : String) → differ s s ≡ false
differ_self s = ground (arith, str_eq_refl s)

pub owner_mismatch-none :
    (names : Naming) (m : IndexMeta) (i : IndexIdentity)
    → m.collection_id ≡ i.collection_id
    → m.workspace_id ≡ i.workspace_id
    → owner_mismatch names m i ≡ none
unfolding owner_mismatch workspace_ids_equal
owner_mismatch-none names m i c w =
    rw (c, w) (ground (arith, str_eq_refl i.collection_id, str_eq_refl i.workspace_id))

pub settings_mismatch-none :
    (m : IndexMeta) (i : IndexIdentity)
    → m.embedding_profile ≡ i.profile
    → m.embedding_dimensions ≡ i.dimensions
    → m.chunking_version ≡ i.chunking_version
    → m.chunking_strategy ≡ i.chunking_strategy
    → settings_mismatch m i ≡ none
unfolding settings_mismatch
settings_mismatch-none m i p d v s =
    rw (p, d, v, s)
      (ground (
        arith,
        str_eq_refl i.profile,
        eq_int_refl i.dimensions,
        eq_int_refl i.chunking_version,
        str_eq_refl i.chunking_strategy,
      ))

module _ {E : Type 0} (names : Naming) (i : IndexIdentity) where
  -- A result without an error leaves a meta of the identity on the disk.
  abbrev Leaves : Disk E × Option (MetaError E) → Type 0
  Leaves r = r.1 ≡ none → (m : IndexMeta) × (r.0.meta ≡ readable m) × IsOwned names i m

  error-Leaves : (d : Disk E) (e : MetaError E) → Leaves (d, some e)
  error-Leaves d e h = absurd (ground (arith, h))

  put_meta-Leaves :
      (w : Option E) (d : Disk E) (m : IndexMeta) → IsOwned names i m → Leaves (put_meta w d m)
  unfolding put_meta
  put_meta-Leaves (some e) d m o = error-Leaves d (io_error e)
  put_meta-Leaves none d m o = λ h. (m, refl, o)

  module _ (c : IsConfigured names i) (a : Answers E) where
    write-Leaves :
        (d : Disk E) (version : String)
        → Leaves (write_index_meta a d (index_meta_from_identity names i version))
    unfolding write_index_meta index_meta_from_identity index_meta_incomplete validate_meta
        first_mismatch
    write-Leaves d version = put_meta-Leaves a.write d _ record {
      same_collection = refl;
      valid =
          simp
            (
              owner_mismatch-none names _ i refl c.normal_id,
              settings_mismatch-none _ i refl refl refl refl,
            )
            refl;
      same_geometry = differ_self i.chunking_fingerprint;
      complete = simp (c.has_root, c.has_name, c.has_profile, c.has_dimensions) refl;
    }

    write_reset-Leaves : (r : Disk E × Option (MetaError E)) → Leaves (write_reset names a i r)
    unfolding write_reset
    write_reset-Leaves (d, some e) = error-Leaves d e
    write_reset-Leaves (d, none) = write-Leaves d a.zvec_go_version

    reset-Leaves :
        (d : Disk E) (old : Option IndexMeta)
        → Leaves (reset_index_for_identity_change names a d old i)
    unfolding reset_index_for_identity_change
    reset-Leaves d old =
        elim (Bool-cases (
          not (is_unset (old_name old)) && not (str_eq (old_name old) (collection_name names i)))) [
            | inl moved ↦ rw moved (write_reset-Leaves (remove_collection_dir a d (old_name old)))
            | inr kept ↦ rw kept (write_reset-Leaves (d, none))
          ]

    mismatch-Leaves :
        (force : Bool) (d : Disk E) (m : IndexMeta) (e : MetaError E)
        → Leaves (settle_mismatch force names a d i (some m) (some e))
    unfolding settle_mismatch
    mismatch-Leaves false d m e = error-Leaves d e
    mismatch-Leaves true d m e = reset-Leaves d (some m)

    -- The file of the disk is the one that the verdict is about.
    agreement-Leaves :
        (force : Bool) (m : IndexMeta) (collections : Ids)
        → (index_meta_incomplete (some m) ≡ false → m.collection_name ≡ collection_name names i)
        → validate_meta names m i ≡ none
        → differ m.chunking_fingerprint i.chunking_fingerprint ≡ false
        → Leaves (
            settle force names a
              (record { meta = readable m; collections = collections })
              i
              (false, some m, none))
    unfolding settle ensure_index_meta ensure_file
    agreement-Leaves force m collections n v g =
        elim (Bool-cases (index_meta_incomplete (some m))) [
          | inl partial ↦ rw partial (write-Leaves _ _)
          | inr full ↦ rw full λ h. (
            m,
            refl,
            record { same_collection = n full; valid = v; same_geometry = g; complete = full },
          )
        ]

    named :
        (m : IndexMeta)
        → not (is_unset m.collection_name)
            && not (str_eq m.collection_name (collection_name names i))
          ≡ false
        → index_meta_incomplete (some m) ≡ false
        → m.collection_name ≡ collection_name names i
    unfolding index_meta_incomplete
    named m k full = ground (arith, eq_iff m.collection_name (collection_name names i))

    checked-Leaves :
        (force : Bool) (m : IndexMeta) (collections : Ids) (v : Option Mismatch)
        → validate_meta names m i ≡ v
        → let d : Disk E = record { meta = readable m; collections = collections } in
          Leaves (reconcile_verdict force names a d i (check_geometry m i (mismatch_of v)))
    unfolding reconcile_verdict check_geometry mismatch_of check_name settle
    checked-Leaves force m collections (some x) v = mismatch-Leaves force _ m (mismatch_error x)
    checked-Leaves force m collections none v =
        elim (Bool-cases (differ m.chunking_fingerprint i.chunking_fingerprint)) [
          | inl g ↦ rw g (mismatch-Leaves force _ m (mismatch_error chunking_geometry_changed))
          | inr g ↦
              rw g
                (elim (Bool-cases (
                  not (is_unset m.collection_name)
                  && not (str_eq m.collection_name (collection_name names i)))) [
                    | inl k ↦
                        rw k (mismatch-Leaves force _ m (mismatch_error collection_name_differs))
                    | inr k ↦ rw k (agreement-Leaves force m collections (named m k) v g)
                  ])
        ]

    reconcile-Leaves :
        (force : Bool) (file : MetaFile E) (collections : Ids)
        → Leaves
            (reconcile_index names a (record { meta = file; collections = collections }) i force)
    unfolding reconcile_index meta_present ensure_index_meta ensure_file index_identity_mismatch
        reconcile_verdict validate_index_meta
    reconcile-Leaves force absent collections = write-Leaves _ _
    reconcile-Leaves force (unreadable e) collections =
        error-Leaves (record { meta = unreadable e; collections = collections }) (io_error e)
    reconcile-Leaves force (readable m) collections =
        checked-Leaves force m collections (validate_meta names m i) refl

module _ {E : Type 0} (names : Naming) (i : IndexIdentity) (m : IndexMeta)
    (o : IsOwned names i m) where
  owned-stays :
      (a : Answers E) (collections : Ids)
      → let d : Disk E = record { meta = readable m; collections = collections } in
        reconcile_index names a d i false ≡ (d, none)
  unfolding reconcile_index meta_present index_identity_mismatch validate_index_meta mismatch_of
      check_geometry reconcile_verdict check_name settle
  owned-stays a collections =
      let k : not (is_unset m.collection_name)
            && not (str_eq m.collection_name (collection_name names i))
          ≡ false =
        ground (arith, eq_iff m.collection_name (collection_name names i), o.same_collection) in
      simp (o.valid, o.same_geometry, k, o.complete) refl

  owned-stays_on :
      (a : Answers E) (d : Disk E)
      → d.meta ≡ readable m
      → reconcile_index names a d i false ≡ (d, none)
  owned-stays_on a d e =
      subst
        (λ (f : MetaFile E).
          let d' : Disk E = record { meta = f; collections = d.collections } in
          reconcile_index names a d' i false ≡ (d', none))
        (sym e) (owned-stays a d.collections)

-- Where ReconcileIndex succeeds for configured settings, forced or not, the index then carries a
-- complete meta of the same collection, owner, profile, dimensions and chunking; and the next
-- run of the same settings succeeds without force and changes nothing.
pub reconcile_index-IsOwned :
    {E : Type 0} (names : Naming) (i : IndexIdentity)
    → IsConfigured names i
    → (a b : Answers E) (d : Disk E) (force : Bool) → (reconcile_index names a d i force).1 ≡ none
    → let after = (reconcile_index names a d i force).0 in
      ((m : IndexMeta) × (after.meta ≡ readable m) × IsOwned names i m)
      × (reconcile_index names b after i false ≡ (after, none))
reconcile_index-IsOwned names i c a b d force h =
    let r = reconcile-Leaves names i c a force d.meta d.collections h in
    (r, owned-stays_on names i r.0 r.2 b (reconcile_index names a d i force).0 r.1)
