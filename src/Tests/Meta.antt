-- ===== src/Tests/Meta.antt =====
-- An index directory of a collection with an id, whose profile changes.
use mcp_semantic_search_zvec.Prelude.{pos, ◌≡◌, refl, true, false, [], none, some, String}
use mcp_semantic_search_zvec.Meta.{
  Naming, IndexIdentity, IndexMeta, mismatch_error, profile_differs, absent, readable, Disk,
  Answers, differ, collection_name, index_meta_from_identity, index_identity_mismatch,
  check_geometry, validate_index_meta, mismatch_of, validate_meta, first_mismatch, owner_mismatch,
  settings_mismatch, workspace_ids_equal,
}
use mcp_semantic_search_zvec.Reconcile.{
  reconcile_index, meta_present, ensure_index_meta, ensure_file, write_index_meta, put_meta,
  reconcile_verdict, check_name, settle, settle_mismatch,
}
use mcp_semantic_search_zvec.Reconcile.Owner.{IsConfigured, IsOwned, reconcile_index-IsOwned}
use mcp_semantic_search_zvec.Reconcile.Kept.{Kept, reconcile_index-Kept}
use mcp_semantic_search_zvec.Reconcile.Geometry.{with_fingerprint, fingerprint_lem}

abbrev names : Naming
names = record {
  clean = λ s. s;
  normalize_absolute_path = λ s. s;
  normalize_workspace_id = λ id root. id;
  collection_name_hash = λ id profile dimensions. "ws_1";
}

abbrev identity : IndexIdentity
identity = record {
  workspace_id = "w";
  workspace_root = "/w";
  collection_id = "c";
  profile = "local";
  dimensions = pos 8;
  chunking_version = pos 2;
  chunking_strategy = "ast";
  chunking_fingerprint = "";
}

abbrev identity-IsConfigured : IsConfigured names identity
identity-IsConfigured = record {
  has_root = refl;
  has_name = unfold collection_name in refl;
  has_profile = refl;
  has_dimensions = refl;
  normal_id = refl;
}

abbrev answers : Answers String
answers = record { now = "today"; zvec_go_version = "1"; write = none; remove = none }

abbrev fresh : Disk String
fresh = record { meta = absent; collections = [] }

starts_well : (reconcile_index names answers fresh identity false).1 ≡ none
unfolding reconcile_index meta_present ensure_index_meta ensure_file write_index_meta put_meta
starts_well = refl

-- The next run has another profile and is refused.
other_profile :
    (reconcile_index names answers
      (reconcile_index names answers fresh identity false).0
      (record identity { profile = "remote" })
      false).1
    ≡ some (mismatch_error profile_differs)
unfolding reconcile_index meta_present ensure_index_meta ensure_file write_index_meta put_meta
    index_meta_from_identity index_identity_mismatch check_geometry validate_index_meta mismatch_of
    validate_meta first_mismatch owner_mismatch settings_mismatch reconcile_verdict check_name
    settle settle_mismatch collection_name workspace_ids_equal
other_profile = refl

abbrev after : Disk String
after = (reconcile_index names answers fresh identity false).0

reconcile_index-IsOwned_example :
    ((m : IndexMeta) × (after.meta ≡ readable m) × IsOwned names identity m)
    × (reconcile_index names answers after identity false ≡ (after, none))
reconcile_index-IsOwned_example =
    reconcile_index-IsOwned names identity identity-IsConfigured answers answers fresh false
      starts_well

reconcile_index-Kept_example :
    Kept
      (collection_name names identity)
      true
      after
      (reconcile_index names answers after identity true)
reconcile_index-Kept_example = reconcile_index-Kept names identity answers after true

fingerprint_lem_example :
    (index_identity_mismatch names after.meta (with_fingerprint identity "aa")).0 ≡ differ "" "aa"
fingerprint_lem_example =
    fingerprint_lem names identity identity-IsConfigured answers [] false "aa" starts_well
