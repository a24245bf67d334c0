-- ===== src/Lock.antt =====
-- The payload of a lock file: internal/lock/lock_payload.go, and who holds the lock according to it
-- (internal/lock/lock.go). Texts are lists of characters, by their numbers. What the system says
-- of a process is an argument.
pub mod Decimal
pub mod Payload
use mcp_semantic_search_zvec.Prelude.{
  ℕ, ◌≡◌, ℤ, pos, negsuc, is_positive, eq_int, Bool, true, false, not, ◌&&◌, ◌||◌, List, [], ◌∷◌,
  ◌++◌, Option, none, some, if◌then◌else◌, leb, ◌==◌,
}
use mcp_semantic_search_zvec.Bytes.{Bytes, is_empty}
use mcp_semantic_search_zvec.Lock.Decimal.{parse_int, format_int}

-- unicode.IsSpace
abbrev pub is_space : ℕ → Bool
is_space c =
    (leb 9 c && leb c 13)
    || c == 32
    || c == 133
    || c == 160
    || c == 5760
    || (leb 8192 c && leb c 8202)
    || c == 8232
    || c == 8233
    || c == 8239
    || c == 8287
    || c == 12288

unfoldable pub trim_left : Bytes → Bytes
trim_left [] = []
trim_left (c ∷ cs) = let rest = trim_left cs in if is_space c then rest else c ∷ cs

unfoldable pub trim_right : Bytes → Bytes
trim_right [] = []
trim_right (c ∷ cs) =
    let rest = trim_right cs in if is_empty rest && is_space c then [] else c ∷ rest

-- strings.TrimSpace
unfoldable pub trim_space : Bytes → Bytes
unfolding trim_left trim_right
trim_space s = trim_left (trim_right s)

-- A word ends, if it has begun.
abbrev pub end_word : Bytes → List Bytes → List Bytes
end_word [] rest = rest
end_word (c ∷ cs) rest = (c ∷ cs) ∷ rest

-- The words of a text, after the word that has begun.
unfoldable pub fields_from : Bytes → Bytes → List Bytes
fields_from word [] = end_word word []
fields_from word (c ∷ cs) =
    let next = fields_from [] cs in
    let on = fields_from (word ++ c ∷ []) cs in if is_space c then end_word word next else on

-- strings.Fields
unfoldable pub fields : Bytes → List Bytes
unfolding fields_from
fields s = fields_from [] s

pub record LockPayload : Type 0 where
  pub pid : ℤ
  pub start_time : ℤ
  pub heartbeat : ℤ
  pub legacy : Bool

-- An old payload has no start time.
unfoldable pub legacy_payload : ℤ → Option ℤ → Option LockPayload
legacy_payload pid none = none
legacy_payload pid (some heartbeat) =
    some (record { pid = pid; start_time = pos 0; heartbeat = heartbeat; legacy = true })

unfoldable pub full_payload : ℤ → Option ℤ → Option ℤ → Option LockPayload
unfolding legacy_payload
full_payload pid (some start) (some heartbeat) =
    some (record { pid = pid; start_time = start; heartbeat = heartbeat; legacy = false })
full_payload pid (some start) none = legacy_payload pid (some start)
full_payload pid none heartbeat = none

-- The fields after that of a positive pid.
unfoldable pub payload_rest : ℤ → Bytes → List Bytes → Option LockPayload
unfolding legacy_payload full_payload parse_int
payload_rest pid second [] = legacy_payload pid (parse_int second)
payload_rest pid second (third ∷ more) = full_payload pid (parse_int second) (parse_int third)

unfoldable pub positive_pid : Option ℤ → Option ℤ
positive_pid none = none
positive_pid (some pid) = if is_positive pid then some pid else none

unfoldable pub payload_of : Option ℤ → Bytes → List Bytes → Option LockPayload
unfolding payload_rest
payload_of none second more = none
payload_of (some pid) second more = payload_rest pid second more

unfoldable pub payload_fields : List Bytes → Option LockPayload
unfolding payload_of positive_pid parse_int
payload_fields [] = none
payload_fields (first ∷ []) = none
payload_fields (first ∷ second ∷ more) = payload_of (positive_pid (parse_int first)) second more

unfoldable pub parse_lock_payload : Bytes → Option LockPayload
unfolding payload_fields fields trim_space
parse_lock_payload text = payload_fields (fields (trim_space text))

unfoldable pub format_lock_payload : ℤ → ℤ → ℤ → Bytes
unfolding trim_space format_int
format_lock_payload pid start heartbeat =
    trim_space (format_int pid ++ 32 ∷ (format_int start ++ 32 ∷ format_int heartbeat)) ++ 10 ∷ []

-- What the system says: processAlive, processMatchesLock, and whether a heartbeat is too old.
pub record Processes : Type 0 where
  pub process_alive : ℤ → Bool
  pub process_matches_lock : ℤ → ℤ → Bool
  pub is_stale : ℤ → Bool

unfoldable pub holder_of_payload : Processes → LockPayload → Option ℤ
holder_of_payload sys p =
    if not (sys.process_alive p.pid)
    then none
    else if p.legacy
    then if sys.is_stale p.heartbeat then none else some p.pid
    else if not (sys.process_matches_lock p.pid p.start_time)
    then none
    else some p.pid

-- A text that is no payload may still begin with a pid.
unfoldable pub bare_pid : Processes → Option ℤ → Option ℤ
bare_pid sys none = none
bare_pid sys (some pid) = if is_positive pid && sys.process_alive pid then some pid else none

unfoldable pub bare_holder : Processes → List Bytes → Option ℤ
unfolding bare_pid parse_int
bare_holder sys [] = none
bare_holder sys (first ∷ more) = bare_pid sys (parse_int first)

unfoldable pub live_holder_of : Processes → Bytes → Option LockPayload → Option ℤ
unfolding holder_of_payload bare_holder fields trim_space
live_holder_of sys text (some p) = holder_of_payload sys p
live_holder_of sys text none = bare_holder sys (fields (trim_space text))

unfoldable pub live_holder_from_payload : Processes → Bytes → Option ℤ
unfolding live_holder_of parse_lock_payload
live_holder_from_payload sys text = live_holder_of sys text (parse_lock_payload text)
