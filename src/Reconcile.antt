-- ===== src/Reconcile.antt =====
-- ReconcileIndex of internal/store/zvec/reconcile.go and the writes of meta.go, on a disk that holds
-- index_meta and the directories of the collections. What the file system answers is an argument.
pub mod Owner
pub mod Kept
pub mod Geometry
use mcp_semantic_search_zvec.Prelude.{
  ℤ, pos, is_positive, eq_int, Bool, true, false, not, ◌&&◌, ◌||◌, Option, none, some, String,
  str_eq, if◌then◌else◌,
}
use mcp_semantic_search_zvec.Ids.{Ids}
use mcp_semantic_search_zvec.Registry.{remove_id}
use mcp_semantic_search_zvec.Meta.{
  Naming, IndexIdentity, IndexMeta, Mismatch, MetaError, MetaFile, Disk, Answers, is_unset, differ,
  workspace_ids_equal, collection_name, owner_mismatch, settings_mismatch, first_mismatch,
  validate_meta, mismatch_of, validate_index_meta, Verdict, check_geometry, index_identity_mismatch,
  index_meta_from_identity, index_meta_incomplete, collection_name_differs, io_error,
  mismatch_error, absent, unreadable, readable,
}

-- The new file takes the place of the old one in one rename.
unfoldable pub put_meta :
    {E : Type 0} → Option E → Disk E → IndexMeta → Disk E × Option (MetaError E)
put_meta (some e) d m = (d, some (io_error e))
put_meta none d m = (record d { meta = readable m }, none)

unfoldable pub write_index_meta :
    {E : Type 0} → Answers E → Disk E → IndexMeta → Disk E × Option (MetaError E)
unfolding put_meta
write_index_meta a d m = put_meta a.write d (record m {
  created_at = if is_unset m.created_at then a.now else m.created_at;
  updated_at = a.now;
})

unfoldable pub ensure_file :
    {E : Type 0}
    → Naming
    → Answers E
    → Disk E
    → IndexIdentity
    → MetaFile E
    → Disk E × Option (MetaError E)
unfolding write_index_meta index_meta_from_identity index_meta_incomplete validate_index_meta
ensure_file names a d i absent =
    write_index_meta a d (index_meta_from_identity names i a.zvec_go_version)
ensure_file names a d i (unreadable e) = (d, some (io_error e))
ensure_file names a d i (readable m) =
    if index_meta_incomplete (some m)
    then write_index_meta a d (
        index_meta_from_identity names i
          (if is_unset m.zvec_go_version then a.zvec_go_version else m.zvec_go_version))
    else (d, validate_index_meta names d.meta i)

unfoldable pub ensure_index_meta :
    {E : Type 0} → Naming → Answers E → Disk E → IndexIdentity → Disk E × Option (MetaError E)
unfolding ensure_file
ensure_index_meta names a d i = ensure_file names a d i d.meta

unfoldable pub remove_dir :
    {E : Type 0} → Option E → Disk E → String → Disk E × Option (MetaError E)
unfolding remove_id
remove_dir (some e) d name = (d, some (io_error e))
remove_dir none d name = (record d { collections = remove_id d.collections name }, none)

unfoldable pub remove_collection_dir :
    {E : Type 0} → Answers E → Disk E → String → Disk E × Option (MetaError E)
unfolding remove_dir
remove_collection_dir a d name = if is_unset name then (d, none) else remove_dir a.remove d name

-- Once the old collection is gone, if it had to go.
unfoldable pub write_reset :
    {E : Type 0}
    → Naming
    → Answers E
    → IndexIdentity
    → Disk E × Option (MetaError E)
    → Disk E × Option (MetaError E)
unfolding write_index_meta index_meta_from_identity
write_reset names a i (d, some e) = (d, some e)
write_reset names a i (d, none) =
    write_index_meta a d (index_meta_from_identity names i a.zvec_go_version)

-- The collection name of the old meta, which may be missing.
unfoldable pub old_name : Option IndexMeta → String
old_name none = ""
old_name (some m) = m.collection_name

unfoldable pub reset_index_for_identity_change :
    {E : Type 0}
    → Naming
    → Answers E
    → Disk E
    → Option IndexMeta
    → IndexIdentity
    → Disk E × Option (MetaError E)
unfolding write_reset remove_collection_dir collection_name old_name
reset_index_for_identity_change names a d old i =
    let name = old_name old in
    if not (is_unset name) && not (str_eq name (collection_name names i))
    then write_reset names a i (remove_collection_dir a d name)
    else write_reset names a i (d, none)

-- A workspace that moved has another collection name.
unfoldable pub check_name : {E : Type 0} → Naming → IndexIdentity → Verdict E → Verdict E
unfolding collection_name
check_name names i (false, some m, e) =
    if not (is_unset m.collection_name) && not (str_eq m.collection_name (collection_name names i))
    then (true, some m, some (mismatch_error collection_name_differs))
    else (false, some m, e)
check_name names i (false, none, e) = (false, none, e)
check_name names i (true, m, e) = (true, m, e)

-- The flag is `force`.
unfoldable pub settle_mismatch :
    {E : Type 0}
    → Bool
    → Naming
    → Answers E
    → Disk E
    → IndexIdentity
    → Option IndexMeta
    → Option (MetaError E)
    → Disk E × Option (MetaError E)
unfolding reset_index_for_identity_change
settle_mismatch false names a d i m e = (d, e)
settle_mismatch true names a d i m e = reset_index_for_identity_change names a d m i

unfoldable pub settle :
    {E : Type 0}
    → Bool
    → Naming
    → Answers E
    → Disk E
    → IndexIdentity
    → Verdict E
    → Disk E × Option (MetaError E)
unfolding settle_mismatch ensure_index_meta index_meta_incomplete
settle force names a d i (true, m, e) = settle_mismatch force names a d i m e
settle force names a d i (false, m, e) =
    if index_meta_incomplete m then ensure_index_meta names a d i else (d, none)

-- An error without a mismatch, a file that cannot be read, ends the run.
unfoldable pub reconcile_verdict :
    {E : Type 0}
    → Bool
    → Naming
    → Answers E
    → Disk E
    → IndexIdentity
    → Verdict E
    → Disk E × Option (MetaError E)
unfolding settle check_name
reconcile_verdict force names a d i (false, m, some e) = (d, some e)
reconcile_verdict force names a d i (false, m, none) =
    settle force names a d i (check_name names i (false, m, none))
reconcile_verdict force names a d i (true, m, e) =
    settle force names a d i (check_name names i (true, m, e))

unfoldable pub meta_present : {E : Type 0} → MetaFile E → Bool
meta_present absent = false
meta_present (unreadable e) = true
meta_present (readable m) = true

unfoldable pub reconcile_index :
    {E : Type 0}
    → Naming
    → Answers E
    → Disk E
    → IndexIdentity
    → Bool
    → Disk E × Option (MetaError E)
unfolding meta_present ensure_index_meta reconcile_verdict index_identity_mismatch
reconcile_index names a d i force =
    if meta_present d.meta
    then reconcile_verdict force names a d i (index_identity_mismatch names d.meta i)
    else ensure_index_meta names a d i
