-- ===== src/Meta.antt =====
-- Whose index it is: index_meta and its checks, internal/store/zvec/meta.go, with
-- IndexIdentityMismatch of reconcile.go.
use mcp_semantic_search_zvec.Prelude.{
  ℤ, pos, is_positive, eq_int, Bool, true, false, not, ◌&&◌, ◌||◌, Option, none, some, String,
  str_eq, if◌then◌else◌,
}
use mcp_semantic_search_zvec.Ids.{Ids}

-- The functions of the path, string and hash libraries that the names are made with:
-- `collection_name_hash` is the hash of an id or root, a profile and dimensions.
pub record Naming : Type 0 where
  pub clean : String → String
  pub normalize_absolute_path : String → String
  pub normalize_workspace_id : String → String → String
  pub collection_name_hash : String → String → ℤ → String

pub record IndexIdentity : Type 0 where
  pub workspace_id : String
  pub workspace_root : String
  pub collection_id : String
  pub profile : String
  pub dimensions : ℤ
  pub chunking_version : ℤ
  pub chunking_strategy : String
  pub chunking_fingerprint : String

pub record IndexMeta : Type 0 where
  pub workspace_id : String
  pub workspace_root : String
  pub collection_id : String
  pub workspace_fingerprint : String
  pub embedding_profile : String
  pub embedding_dimensions : ℤ
  pub collection_name : String
  pub chunking_version : ℤ
  pub chunking_strategy : String
  pub chunking_fingerprint : String
  pub zvec_go_version : String
  pub created_at : String
  pub updated_at : String

pub data Mismatch : Type 0 where
  collection_id_differs workspace_id_differs profile_differs dimensions_differ : Mismatch
  chunking_version_differs chunking_strategy_differs chunking_geometry_changed : Mismatch
  collection_name_differs : Mismatch

pub data MetaError (E : Type 0) : Type 0 where
  io_error : E → MetaError E
  mismatch_error : Mismatch → MetaError E

-- A file that is there may not be read, or not parsed.
pub data MetaFile (E : Type 0) : Type 0 where
  absent : MetaFile E
  unreadable : E → MetaFile E
  readable : IndexMeta → MetaFile E

pub record Disk (E : Type 0) : Type 0 where
  pub meta : MetaFile E
  pub collections : Ids

-- What the time is, and whether writing the file and removing a directory fail.
pub record Answers (E : Type 0) : Type 0 where
  pub now : String
  pub zvec_go_version : String
  pub write : Option E
  pub remove : Option E

abbrev pub is_unset : String → Bool
is_unset s = str_eq s ""

-- Both are given, and they differ.
abbrev pub differ : String → String → Bool
differ a b = not (is_unset a) && not (is_unset b) && not (str_eq a b)

unfoldable pub workspace_ids_equal : Naming → String → String → Bool
workspace_ids_equal names a b =
    str_eq a b || str_eq (names.normalize_absolute_path a) (names.normalize_absolute_path b)

unfoldable pub collection_name : Naming → IndexIdentity → String
collection_name names i =
    if not (is_unset i.collection_id)
    then names.collection_name_hash i.collection_id i.profile i.dimensions
    else names.collection_name_hash (names.normalize_absolute_path (names.clean i.workspace_root))
        i.profile i.dimensions

-- The owner is told by the collection ids where both are given, else by the workspace ids.
unfoldable pub owner_mismatch : Naming → IndexMeta → IndexIdentity → Option Mismatch
unfolding workspace_ids_equal
owner_mismatch names m i =
    if not (is_unset m.collection_id) && not (is_unset i.collection_id)
    then if not (str_eq m.collection_id i.collection_id) then some collection_id_differs else none
    else if not (is_unset m.workspace_id)
        && not (is_unset i.workspace_id)
        && not (workspace_ids_equal names m.workspace_id i.workspace_id)
    then some workspace_id_differs
    else none

unfoldable pub settings_mismatch : IndexMeta → IndexIdentity → Option Mismatch
settings_mismatch m i =
    if differ m.embedding_profile i.profile
    then some profile_differs
    else if is_positive m.embedding_dimensions
        && is_positive i.dimensions
        && not (eq_int m.embedding_dimensions i.dimensions)
    then some dimensions_differ
    else if is_positive i.chunking_version && not (eq_int m.chunking_version i.chunking_version)
    then some chunking_version_differs
    else if not (is_unset i.chunking_strategy)
        && not (str_eq m.chunking_strategy i.chunking_strategy)
    then some chunking_strategy_differs
    else none

-- The first of two checks that fails.
unfoldable pub first_mismatch : Option Mismatch → Option Mismatch → Option Mismatch
first_mismatch (some x) b = some x
first_mismatch none b = b

unfoldable pub validate_meta : Naming → IndexMeta → IndexIdentity → Option Mismatch
unfolding first_mismatch owner_mismatch settings_mismatch
validate_meta names m i = first_mismatch (owner_mismatch names m i) (settings_mismatch m i)

unfoldable pub mismatch_of : {E : Type 0} → Option Mismatch → Option (MetaError E)
mismatch_of none = none
mismatch_of (some x) = some (mismatch_error x)

unfoldable pub validate_index_meta :
    {E : Type 0} → Naming → MetaFile E → IndexIdentity → Option (MetaError E)
unfolding mismatch_of validate_meta
validate_index_meta names absent i = none
validate_index_meta names (unreadable e) i = some (io_error e)
validate_index_meta names (readable m) i = mismatch_of (validate_meta names m i)

-- The flag, the file that was read, and the error.
abbrev pub Verdict : Type 0 → Type 0
Verdict E = Bool × Option IndexMeta × Option (MetaError E)

unfoldable pub check_geometry :
    {E : Type 0} → IndexMeta → IndexIdentity → Option (MetaError E) → Verdict E
check_geometry m i (some e) = (true, some m, some e)
check_geometry m i none =
    if differ m.chunking_fingerprint i.chunking_fingerprint
    then (true, some m, some (mismatch_error chunking_geometry_changed))
    else (false, some m, none)

unfoldable pub index_identity_mismatch :
    {E : Type 0} → Naming → MetaFile E → IndexIdentity → Verdict E
unfolding check_geometry validate_index_meta
index_identity_mismatch names absent i = (false, none, none)
index_identity_mismatch names (unreadable e) i = (false, none, some (io_error e))
index_identity_mismatch names (readable m) i =
    check_geometry m i (validate_index_meta names (readable m) i)

-- The times are filled in when the meta is written.
unfoldable pub index_meta_from_identity : Naming → IndexIdentity → String → IndexMeta
unfolding collection_name
index_meta_from_identity names i zvec_go_version =
    let root = names.normalize_absolute_path i.workspace_root in
    record {
      workspace_id = names.normalize_workspace_id i.workspace_id root;
      workspace_root = root;
      collection_id = i.collection_id;
      workspace_fingerprint = collection_name names i;
      embedding_profile = i.profile;
      embedding_dimensions = i.dimensions;
      collection_name = collection_name names i;
      chunking_version = i.chunking_version;
      chunking_strategy = i.chunking_strategy;
      chunking_fingerprint = i.chunking_fingerprint;
      zvec_go_version = zvec_go_version;
      created_at = "";
      updated_at = "";
    }

unfoldable pub index_meta_incomplete : Option IndexMeta → Bool
index_meta_incomplete none = true
index_meta_incomplete (some m) =
    is_unset m.workspace_root
    || is_unset m.collection_name
    || is_unset m.embedding_profile
    || eq_int m.embedding_dimensions (pos 0)
