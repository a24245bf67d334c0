-- ===== src/WorkspaceSpecs.antt =====
-- The registered collections, and what a reload finds changed: WorkspaceSpec and SpecByID of
-- internal/daemon/config.go, specsEqual and the first loop of ReloadProjects of
-- internal/daemon/reload.go.
use mcp_semantic_search_zvec.Prelude.{
  Bool, true, false, not, ◌&&◌, List, [], ◌∷◌, Option, none, some, String, str_eq, if◌then◌else◌,
}
use mcp_semantic_search_zvec.Ids.{Ids}

pub record WorkspaceSpec : Type 0 where
  pub id : String
  pub root : String
  pub description : String
  pub index_dir : String
  pub config_path : String
  pub from_projects_dir : Bool
  pub project_digest : String

unfoldable pub spec_by_id : List WorkspaceSpec → String → Option WorkspaceSpec
spec_by_id [] id = none
spec_by_id (w ∷ ws) id = let rest = spec_by_id ws id in if str_eq w.id id then some w else rest

unfoldable pub is_known : Option WorkspaceSpec → Bool
is_known none = false
is_known (some w) = true

unfoldable pub eqb : Bool → Bool → Bool
eqb true b = b
eqb false b = not b

unfoldable pub specs_equal : WorkspaceSpec → WorkspaceSpec → Bool
unfolding eqb
specs_equal a b =
    str_eq a.id b.id
    && str_eq a.root b.root
    && str_eq a.index_dir b.index_dir
    && str_eq a.config_path b.config_path
    && str_eq a.project_digest b.project_digest
    && eqb a.from_projects_dir b.from_projects_dir

unfoldable pub is_changed : WorkspaceSpec → Option WorkspaceSpec → Bool
unfolding specs_equal
is_changed a none = true
is_changed a (some b) = not (specs_equal a b)

-- The ids of the old collections that are gone or different.
unfoldable pub changed_ids : List WorkspaceSpec → List WorkspaceSpec → Ids
unfolding is_changed spec_by_id
changed_ids [] new = []
changed_ids (a ∷ old) new =
    let rest = changed_ids old new in
    if is_changed a (spec_by_id new a.id) then a.id ∷ rest else rest
