-- ===== src/Tests/Lock.antt =====
-- The payload of a lock file, read and written.
use mcp_semantic_search_zvec.Prelude.{
  pos, negsuc, ◌≡◌, refl, true, false, ◌&&◌, none, some, if◌then◌else◌, arith, eq_int,
}
use mcp_semantic_search_zvec.Bytes.{codes}
use mcp_semantic_search_zvec.Lock.{
  Processes, parse_lock_payload, format_lock_payload, live_holder_from_payload,
}
use mcp_semantic_search_zvec.Lock.Payload.{
  parse_lock_payload-format_lock_payload, live_holder_from_payload_lem,
}

old_payload :
    parse_lock_payload (codes " 42  17 x")
    ≡ some (record { pid = pos 42; start_time = pos 0; heartbeat = pos 17; legacy = true })
unfolding parse_lock_payload
old_payload = refl

no_payload : parse_lock_payload (codes "-42 17 18") ≡ none
unfolding parse_lock_payload
no_payload = refl

parse_lock_payload-format_lock_payload_example :
    parse_lock_payload (format_lock_payload (pos 42) (negsuc 6) (pos 1700000000))
    ≡ some
        (record { pid = pos 42; start_time = negsuc 6; heartbeat = pos 1700000000; legacy = false })
parse_lock_payload-format_lock_payload_example =
    parse_lock_payload-format_lock_payload (pos 42) (negsuc 6) (pos 1700000000) refl (omega arith)
      (omega arith) (omega arith)

abbrev system : Processes
system = record {
  process_alive = λ pid. eq_int pid (pos 42);
  process_matches_lock = λ pid start. eq_int start (pos 7);
  is_stale = λ heartbeat. true;
}

live_holder_from_payload_lem_example :
    live_holder_from_payload system (format_lock_payload (pos 42) (pos 7) (pos 9)) ≡ (
      if system.process_alive (pos 42) && system.process_matches_lock (pos 42) (pos 7)
      then some (pos 42)
      else none)
live_holder_from_payload_lem_example =
    live_holder_from_payload_lem system (pos 42) (pos 7) (pos 9) refl (omega arith) (omega arith)
      (omega arith)
