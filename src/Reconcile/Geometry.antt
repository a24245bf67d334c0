-- ===== src/Reconcile/Geometry.antt =====
-- The fingerprint of the chunking geometry, which the runs of the coordinator do not give.
use mcp_semantic_search_zvec.Prelude.{
  ◌≡◌, refl, inl, inr, Bool, Option, none, some, String, arith, Bool-cases,
}
use mcp_semantic_search_zvec.Ids.{Ids}
use mcp_semantic_search_zvec.Meta.{
  Naming, IndexIdentity, IndexMeta, absent, readable, Disk, Answers, differ, validate_meta,
  first_mismatch, mismatch_of, validate_index_meta, check_geometry, index_identity_mismatch,
  index_meta_from_identity,
}
use mcp_semantic_search_zvec.Reconcile.{
  put_meta, write_index_meta, ensure_file, ensure_index_meta, meta_present, reconcile_index,
}
use mcp_semantic_search_zvec.Reconcile.Owner.{
  IsConfigured, owner_mismatch-none, settings_mismatch-none,
}

abbrev fresh_index : {E : Type 0} → Ids → Disk E
fresh_index collections = record { meta = absent; collections = collections }

-- An identity with another fingerprint.
abbrev pub with_fingerprint : IndexIdentity → String → IndexIdentity
with_fingerprint i f = record i { chunking_fingerprint = f }

-- The check of a meta that has the identity's fields.
geometry_verdict :
    (E : Type 0) (names : Naming) (m : IndexMeta) (i : IndexIdentity)
    → validate_meta names m i ≡ none
    → (index_identity_mismatch {E = E} names (readable m) i).0
      ≡ differ m.chunking_fingerprint i.chunking_fingerprint
unfolding index_identity_mismatch validate_index_meta mismatch_of check_geometry
geometry_verdict E names m i v =
    elim (Bool-cases (differ m.chunking_fingerprint i.chunking_fingerprint)) [
      | inl g ↦ simp (v, g) refl
      | inr g ↦ simp (v, g) refl
    ]

geometry_put :
    {E : Type 0} (names : Naming) (w : Option E) (d : Disk E) (m : IndexMeta) (i : IndexIdentity)
    → validate_meta names m i ≡ none
    → (put_meta w d m).1 ≡ none
    → (index_identity_mismatch names (put_meta w d m).0.meta i).0
      ≡ differ m.chunking_fingerprint i.chunking_fingerprint
unfolding put_meta
geometry_put names (some e) d m i v h = absurd (ground (arith, h))
geometry_put {E} names none d m i v h = geometry_verdict E names m i v

-- On an index that has no meta yet and with configured settings, a run that gives a fingerprint, or
-- the empty one, and that succeeds, leaves an index for which a later check with another
-- fingerprint, all else equal, reports a change exactly if neither of the two is empty and they
-- differ.
pub fingerprint_lem :
    {E : Type 0} (names : Naming) (i : IndexIdentity)
    → IsConfigured names i
    → (a : Answers E) (collections : Ids) (force : Bool) (f : String)
    → (reconcile_index names a (fresh_index collections) i force).1 ≡ none
    → (index_identity_mismatch names
        (reconcile_index names a (fresh_index collections) i force).0.meta
        (with_fingerprint i f)).0
      ≡ differ i.chunking_fingerprint f
unfolding reconcile_index meta_present ensure_index_meta ensure_file write_index_meta
    index_meta_from_identity validate_meta first_mismatch
fingerprint_lem names i c a collections force f h =
    let m : IndexMeta = record (index_meta_from_identity names i a.zvec_go_version) {
      created_at = a.now;
      updated_at = a.now;
    } in
    let j = with_fingerprint i f in
    geometry_put names a.write (fresh_index collections) m j
      (simp
        (
          owner_mismatch-none names m j refl c.normal_id,
          settings_mismatch-none m j refl refl refl refl,
        )
        refl)
      h
