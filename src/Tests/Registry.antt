-- ===== src/Tests/Registry.antt =====
-- A registry for one open workspace, with two workspaces that take turns.
use mcp_semantic_search_zvec.Prelude.{
  ℕ, ◌+◌, ◌≤◌, ◌<◌, ◌≡◌, refl, true, false, List, [], ◌∷◌, none, some, String, length, arith,
}
use mcp_semantic_search_zvec.Window.Slices.{All}
use mcp_semantic_search_zvec.Ids.{contains}
use mcp_semantic_search_zvec.WorkspaceSpecs.{
  WorkspaceSpec, spec_by_id, is_known, changed_ids, is_changed, specs_equal, eqb,
}
use mcp_semantic_search_zvec.Registry.Reload.{
  reload_projects, apply_reload, busy_ids, is_in_use, detach, detach_one, add_found, put_id, swap,
  remove_ids,
}
use mcp_semantic_search_zvec.Registry.{
  Handle, is_open, new_registry, begin_borrow, borrow_open, find_handle, reserve_open_slot, reserve,
  make_room, evict_oldest_idle, oldest_idle, older_idle, evict, remove_handle, put_handle,
  remove_id, finish_open, after_open, borrow_opened, borrow_handle, release, release_found,
  release_last,
}
use mcp_semantic_search_zvec.Registry.Eviction.{IsOldest, oldest_idle-IsOldest}
use mcp_semantic_search_zvec.Registry.Handles.{IsIn}
use mcp_semantic_search_zvec.Registry.Slots.{Slots}
use mcp_semantic_search_zvec.Registry.Keys.{refs_of}
use mcp_semantic_search_zvec.Registry.System.{
  System, Eviction, Held, count_held, remove_held, is_evicting, new_system, after_begin,
  after_finish, after_release, new_handle, begins, opens, releases, after_reload, reloads, Reach,
  starts, steps,
}
use mcp_semantic_search_zvec.Registry.Done.{Drains}
use mcp_semantic_search_zvec.Registry.Drain.{Reach-Drains}
use mcp_semantic_search_zvec.Registry.Safe.{IsUnused, Reach-IsSafe}

abbrev collection : String → String → WorkspaceSpec
collection id digest = record {
  id = id;
  root = "/srv";
  description = "";
  index_dir = "/index";
  config_path = "";
  from_projects_dir = true;
  project_digest = digest;
}

abbrev names : List WorkspaceSpec
names = collection "a" "1" ∷ collection "b" "1" ∷ []

abbrev fresh : System
fresh = new_system 1 names

abbrev reserved_a : System
reserved_a = after_begin fresh "a" (begin_borrow fresh.registry "a" 1)

abbrev opened_a : System
opened_a =
    after_finish (record reserved_a { next_serial = reserved_a.next_serial + 1 })
      (finish_open reserved_a.registry "a" (some (new_handle reserved_a "a" 2)) 2)

abbrev borrow_a : Held
borrow_a = record { id = "a"; serial = 0 }

abbrev released_a : System
released_a = after_release opened_a borrow_a (release opened_a.registry "a" 0 3)

-- The other workspace takes the place of the first.
abbrev reserved_b : System
reserved_b = after_begin released_a "b" (begin_borrow released_a.registry "b" 4)

a_is_opening : contains reserved_a.registry.opening "a" ≡ true
unfolding new_system new_registry begin_borrow after_begin contains borrow_open find_handle is_known
    spec_by_id is_open reserve_open_slot reserve make_room evict_oldest_idle
a_is_opening = refl

a_evicts_nothing : is_evicting reserved_a.evicted "a" ≡ false
unfolding new_system new_registry begin_borrow after_begin contains borrow_open find_handle is_known
    spec_by_id is_open reserve_open_slot reserve make_room evict_oldest_idle is_evicting
a_evicts_nothing = refl

a_is_not_reserved : contains reserved_a.reservations "a" ≡ false
unfolding new_system new_registry begin_borrow after_begin contains borrow_open find_handle is_known
    spec_by_id is_open reserve_open_slot reserve make_room evict_oldest_idle
a_is_not_reserved = refl

a_is_held : 0 < count_held opened_a.borrows borrow_a
unfolding new_system new_registry begin_borrow after_begin contains borrow_open find_handle is_known
    spec_by_id is_open reserve_open_slot reserve make_room evict_oldest_idle after_finish
    finish_open after_open remove_id borrow_handle put_handle borrow_opened count_held
a_is_held = omega arith

-- The first workspace was evicted, and the second is opened.
b_evicts :
    reserved_b.evicted
    ≡ record { opener = "b"; handle = record { id = "a"; serial = 0; last_used = 3; refs = 0 } }
      ∷ []
unfolding new_system new_registry begin_borrow after_begin contains borrow_open find_handle is_known
    spec_by_id is_open reserve_open_slot reserve make_room evict_oldest_idle after_finish
    finish_open after_open remove_id borrow_handle put_handle borrow_opened after_release release
    release_found release_last remove_held oldest_idle older_idle evict remove_handle
b_evicts = refl

Reach-released_a : Reach 1 names released_a
Reach-released_a =
    steps opened_a released_a
      (steps reserved_a opened_a (steps fresh reserved_a starts (begins fresh "a" 1))
        (opens reserved_a "a" 2 a_is_opening a_evicts_nothing a_is_not_reserved))
      (releases opened_a borrow_a 3 a_is_held)

Reach-reserved_b : Reach 1 names reserved_b
Reach-reserved_b = steps released_a reserved_b Reach-released_a (begins released_a "b" 4)

-- The first workspace is reloaded: its handle is taken out and its id reserved.
abbrev reloaded_a : System
reloaded_a = after_reload released_a (
    reload_projects released_a.registry 1 (collection "a" "2" ∷ collection "b" "1" ∷ [])
      (λ h. false))

a_is_taken_out :
    (reloaded_a.to_reload ≡ record { id = "a"; serial = 0; last_used = 3; refs = 0 } ∷ [])
    × (reloaded_a.registry.opening ≡ "a" ∷ [])
unfolding new_system new_registry begin_borrow after_begin contains borrow_open find_handle is_known
    spec_by_id is_open reserve_open_slot reserve make_room evict_oldest_idle after_finish
    finish_open after_open remove_id borrow_handle put_handle borrow_opened after_release release
    release_found release_last remove_held remove_handle after_reload reload_projects apply_reload
    busy_ids is_in_use detach detach_one add_found put_id swap changed_ids is_changed specs_equal
    eqb
a_is_taken_out = (refl, refl)

none_reserved : (released_a.reservations ≡ []) × (released_a.to_reload ≡ [])
unfolding new_system new_registry begin_borrow after_begin contains borrow_open find_handle is_known
    spec_by_id is_open reserve_open_slot reserve make_room evict_oldest_idle after_finish
    finish_open after_open remove_id borrow_handle put_handle borrow_opened after_release release
    release_found release_last remove_held
none_reserved = (refl, refl)

Reach-reloaded_a : Reach 1 names reloaded_a
Reach-reloaded_a = steps released_a reloaded_a Reach-released_a (
    reloads released_a 1 (collection "a" "2" ∷ collection "b" "1" ∷ []) (λ h. false) none_reserved.0
      none_reserved.1)

Reach-IsSafe_example :
    Slots reloaded_a.registry
    × (length reloaded_a.registry.open_handles
          + length (remove_ids reloaded_a.registry.opening reloaded_a.reservations)
        ≤ reloaded_a.largest_limit)
    × ((k : Held) → count_held reloaded_a.borrows k ≡ refs_of reloaded_a.registry.open_handles k)
    × All (λ (e : Eviction). IsUnused reloaded_a e.handle) reloaded_a.evicted
    × All (IsUnused reloaded_a) reloaded_a.discarding
    × All (IsUnused reloaded_a) reloaded_a.to_reload
    × All (IsUnused reloaded_a) reloaded_a.to_close
Reach-IsSafe_example = Reach-IsSafe reloaded_a Reach-reloaded_a

Reach-Drains_example : Drains reserved_b
Reach-Drains_example = Reach-Drains reserved_b Reach-reserved_b

abbrev idle : String → ℕ → ℕ → Handle
idle id serial last_used = record { id = id; serial = serial; last_used = last_used; refs = 0 }

abbrev three : List Handle
three = record { id = "a"; serial = 0; last_used = 1; refs = 1 } ∷ idle "b" 1 5 ∷ idle "c" 2 3 ∷ []

oldest_is_c : oldest_idle none three ≡ some (idle "c" 2 3)
unfolding oldest_idle older_idle
oldest_is_c = refl

oldest_idle-IsOldest_example : IsOldest (λ y. IsIn y three) (oldest_idle none three)
oldest_idle-IsOldest_example = oldest_idle-IsOldest three
