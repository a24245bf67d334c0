-- ===== src/Tests/Race.antt =====
-- A registry for two open workspaces that is closed while the first of them is discarded.
use mcp_semantic_search_zvec.Prelude.{
  ◌+◌, ◌-◌, ◌<◌, ◌≡◌, refl, true, false, List, [], ◌∷◌, ◌++◌, some, String, length, arith,
}
use mcp_semantic_search_zvec.Ids.{contains}
use mcp_semantic_search_zvec.WorkspaceSpecs.{WorkspaceSpec, spec_by_id, is_known}
use mcp_semantic_search_zvec.Registry.{
  Handle, new_registry, begin_borrow, borrow_open, find_handle, is_open, reserve_open_slot, reserve,
  make_room, evict_oldest_idle, remove_handle, put_handle, remove_id, finish_open, after_open,
  borrow_opened, borrow_handle, release, release_found, release_last, begin_close, end_discard,
  collect_idle, try_shutdown_runtime_after_drain, has_busy_handles,
}
use mcp_semantic_search_zvec.Registry.System.{
  System, Held, count_held, remove_held, is_evicting, draining, new_system, after_begin,
  after_finish, after_release, after_shutdown, after_collect, new_handle, begins, opens, releases,
  begins_close, Reach, starts, steps,
}
use mcp_semantic_search_zvec.Registry.Race.{shutdown_while_closing}

abbrev spec : String → WorkspaceSpec
spec id = record {
  id = id;
  root = "/srv";
  description = "";
  index_dir = "/index";
  config_path = "";
  from_projects_dir = false;
  project_digest = "";
}

abbrev specs : List WorkspaceSpec
specs = spec "a" ∷ spec "b" ∷ []

abbrev two_slots : System
two_slots = new_system 2 specs

abbrev opening_one : System
opening_one = after_begin two_slots "a" (begin_borrow two_slots.registry "a" 1)

abbrev opened_one : System
opened_one =
    after_finish (record opening_one { next_serial = opening_one.next_serial + 1 })
      (finish_open opening_one.registry "a" (some (new_handle opening_one "a" 2)) 2)

abbrev opening_two : System
opening_two = after_begin opened_one "b" (begin_borrow opened_one.registry "b" 3)

abbrev opened_two : System
opened_two =
    after_finish (record opening_two { next_serial = opening_two.next_serial + 1 })
      (finish_open opening_two.registry "b" (some (new_handle opening_two "b" 4)) 4)

abbrev first_borrow : Held
first_borrow = record { id = "a"; serial = 0 }

abbrev second_borrow : Held
second_borrow = record { id = "b"; serial = 1 }

abbrev second_idle : System
second_idle = after_release opened_two second_borrow (release opened_two.registry "b" 1 5)

abbrev closing_two : System
closing_two = record second_idle {
  registry = begin_close second_idle.registry;
  close_phase = draining;
}

-- The last borrow of the first workspace ends, and it is discarded.
abbrev discarding_one : System
discarding_one = after_release closing_two first_borrow (release closing_two.registry "a" 0 6)

abbrev discarded : Handle
discarded = record { id = "a"; serial = 0; last_used = 6; refs = 0 }

can_open_one :
    (contains opening_one.registry.opening "a" ≡ true)
    × (is_evicting opening_one.evicted "a" ≡ false)
    × (contains opening_one.reservations "a" ≡ false)
unfolding new_system new_registry begin_borrow after_begin contains borrow_open find_handle is_known
    spec_by_id is_open reserve_open_slot reserve make_room evict_oldest_idle after_finish
    finish_open after_open remove_id borrow_handle put_handle borrow_opened after_release release
    release_found release_last remove_held remove_handle begin_close is_evicting count_held
    has_busy_handles
can_open_one = (refl, refl, refl)

can_open_two :
    (contains opening_two.registry.opening "b" ≡ true)
    × (is_evicting opening_two.evicted "b" ≡ false)
    × (contains opening_two.reservations "b" ≡ false)
unfolding new_system new_registry begin_borrow after_begin contains borrow_open find_handle is_known
    spec_by_id is_open reserve_open_slot reserve make_room evict_oldest_idle after_finish
    finish_open after_open remove_id borrow_handle put_handle borrow_opened after_release release
    release_found release_last remove_held remove_handle begin_close is_evicting count_held
    has_busy_handles
can_open_two = (refl, refl, refl)

second_is_held : 0 < count_held opened_two.borrows second_borrow
unfolding new_system new_registry begin_borrow after_begin contains borrow_open find_handle is_known
    spec_by_id is_open reserve_open_slot reserve make_room evict_oldest_idle after_finish
    finish_open after_open remove_id borrow_handle put_handle borrow_opened after_release release
    release_found release_last remove_held remove_handle begin_close is_evicting count_held
    has_busy_handles
second_is_held = omega arith

first_is_held : 0 < count_held closing_two.borrows first_borrow
unfolding new_system new_registry begin_borrow after_begin contains borrow_open find_handle is_known
    spec_by_id is_open reserve_open_slot reserve make_room evict_oldest_idle after_finish
    finish_open after_open remove_id borrow_handle put_handle borrow_opened after_release release
    release_found release_last remove_held remove_handle begin_close is_evicting count_held
    has_busy_handles
first_is_held = omega arith

not_closing_yet : second_idle.registry.closing ≡ false
unfolding new_system new_registry begin_borrow after_begin contains borrow_open find_handle is_known
    spec_by_id is_open reserve_open_slot reserve make_room evict_oldest_idle after_finish
    finish_open after_open remove_id borrow_handle put_handle borrow_opened after_release release
    release_found release_last remove_held remove_handle begin_close is_evicting count_held
    has_busy_handles
not_closing_yet = refl

state :
    (discarding_one.close_phase ≡ draining)
    × (discarding_one.registry.closing ≡ true)
    × (discarding_one.registry.runtime_shutdown_done ≡ false)
    × (discarding_one.registry.opening ≡ [])
    × (discarding_one.discarding ≡ discarded ∷ [])
    × (has_busy_handles discarding_one.registry.open_handles ≡ false)
    × (length discarding_one.registry.open_handles ≡ 1)
unfolding new_system new_registry begin_borrow after_begin contains borrow_open find_handle is_known
    spec_by_id is_open reserve_open_slot reserve make_room evict_oldest_idle after_finish
    finish_open after_open remove_id borrow_handle put_handle borrow_opened after_release release
    release_found release_last remove_held remove_handle begin_close is_evicting count_held
    has_busy_handles
state = (refl, refl, refl, refl, refl, refl, refl)

Reach-opened_two : Reach 2 specs opened_two
Reach-opened_two =
    steps opening_two opened_two
      (steps opened_one opening_two
        (steps opening_one opened_one (steps two_slots opening_one starts (begins two_slots "a" 1))
          (opens opening_one "a" 2 can_open_one.0 can_open_one.1 can_open_one.2))
        (begins opened_one "b" 3))
      (opens opening_two "b" 4 can_open_two.0 can_open_two.1 can_open_two.2)

Reach-discarding_one : Reach 2 specs discarding_one
Reach-discarding_one =
    steps closing_two discarding_one
      (steps second_idle closing_two
        (steps opened_two second_idle Reach-opened_two
          (releases opened_two second_borrow 5 second_is_held))
        (begins_close second_idle not_closing_yet))
      (releases closing_two first_borrow 6 first_is_held)

shutdown_while_closing_example :
    let s = discarding_one in
    let t = record s {
      registry = end_discard s.registry;
      discarding = [];
      trying = s.trying + 1;
    } in
    let u = after_collect t (collect_idle t.registry) in
    let w =
      after_shutdown
        (record u { trying = u.trying - 1 })
        (try_shutdown_runtime_after_drain u.registry) in
    Reach 2 specs w
    × (w.shutdowns ≡ s.shutdowns + 1)
    × (w.to_close ≡ s.registry.open_handles ++ s.to_close)
    × (0 < length w.to_close)
shutdown_while_closing_example =
    shutdown_while_closing discarding_one discarded Reach-discarding_one state.0 state.1 state.2
      state.3 state.4 state.5 (omega (arith, state.6))
