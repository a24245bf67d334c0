-- ===== src/Lock/Payload.antt =====
-- The payload that is written is read again.
use mcp_semantic_search_zvec.Prelude.{
  ℕ, ℤ, is_positive, ◌≡◌, refl, sym, ap, ◌∙◌, inl, inr, true, false, ◌&&◌, [], ◌∷◌, ◌++◌, none,
  some, append_assoc, append-nil, if◌then◌else◌, arith, Bool-cases,
}
use mcp_semantic_search_zvec.Bytes.{Bytes, is_empty}
use mcp_semantic_search_zvec.Window.Slices.{All}
use mcp_semantic_search_zvec.Lock.Decimal.{
  format_int, is_digit, Fits, parse_int-format_int, format_int-IsWord,
}
use mcp_semantic_search_zvec.Lock.{
  is_space, trim_left, trim_right, trim_space, end_word, fields_from, fields, full_payload,
  payload_rest, positive_pid, payload_of, payload_fields, parse_lock_payload, format_lock_payload,
  Processes, holder_of_payload, live_holder_of, live_holder_from_payload,
}

-- White space at the ends does not count.
fields_from-trim_left : (s : Bytes) → fields_from [] (trim_left s) ≡ fields_from [] s
unfolding fields_from trim_left
fields_from-trim_left [] = refl
fields_from-trim_left (c ∷ cs) = elim (Bool-cases (is_space c)) [
  | inl space ↦ rw space (fields_from-trim_left cs)
  | inr other ↦ rw other (rw other refl)
]

empty_of : (s : Bytes) → is_empty s ≡ true → s ≡ []
empty_of [] h = refl
empty_of (c ∷ cs) h = absurd (ground (arith, h))

fields_from-trim_right : (word s : Bytes) → fields_from word (trim_right s) ≡ fields_from word s
unfolding fields_from trim_right
fields_from-trim_right word [] = refl
fields_from-trim_right word (c ∷ cs) = elim (Bool-cases (is_empty (trim_right cs) && is_space c)) [
  | inl gone ↦
      let e : trim_right cs ≡ [] = empty_of (trim_right cs) (ground (arith, gone)) in
      let space : is_space c ≡ true = ground (arith, gone) in
      rw (gone, space)
        (ap (end_word word) (sym (ap (fields_from []) e) ∙ fields_from-trim_right [] cs))
  | inr kept ↦ rw kept (elim (Bool-cases (is_space c)) [
    | inl space ↦ rw space (ap (end_word word) (fields_from-trim_right [] cs))
    | inr other ↦ rw other (fields_from-trim_right (word ++ c ∷ []) cs)
  ])
]

fields-trim_space : (s : Bytes) → fields (trim_space s) ≡ fields s
unfolding fields trim_space
fields-trim_space s = fields_from-trim_left (trim_right s) ∙ fields_from-trim_right [] s

fields_from-line_end : (word s : Bytes) → fields_from word (s ++ 10 ∷ []) ≡ fields_from word s
unfolding fields_from
fields_from-line_end word [] = refl
fields_from-line_end word (c ∷ cs) = elim (Bool-cases (is_space c)) [
  | inl space ↦ rw space (ap (end_word word) (fields_from-line_end [] cs))
  | inr other ↦ rw other (fields_from-line_end (word ++ c ∷ []) cs)
]

-- A word, and the text after it.
abbrev IsInk : ℕ → Type 0
IsInk c = is_space c ≡ false

fields_from-word :
    (word w rest : Bytes)
    → All IsInk w
    → fields_from word (w ++ rest) ≡ fields_from (word ++ w) rest
unfolding fields_from
fields_from-word word [] rest a = ap (λ x. fields_from x rest) (sym (append-nil word))
fields_from-word word (c ∷ cs) rest a = rw a.0 (
    fields_from-word (word ++ c ∷ []) cs rest a.1
    ∙ ap (λ x. fields_from x rest) (append_assoc word (c ∷ []) cs))

digit-IsInk : (c : ℕ) → is_digit c ≡ true → IsInk c
digit-IsInk c d = ground (arith, d)

-- A printed number begins the fields, or is the last of them.
fields-number :
    (x : ℤ) (rest : Bytes)
    → fields_from [] (format_int x ++ 32 ∷ rest) ≡ format_int x ∷ fields_from [] rest
unfolding fields_from
fields-number x rest =
    let (ink, (c, cs, e)) = format_int-IsWord IsInk x digit-IsInk refl in
    fields_from-word [] (format_int x) (32 ∷ rest) ink ∙ rw e refl

fields_last : (x : ℤ) → fields_from [] (format_int x) ≡ format_int x ∷ []
unfolding fields_from
fields_last x =
    let (ink, (c, cs, e)) = format_int-IsWord IsInk x digit-IsInk refl in
    ap (fields_from []) (sym (append-nil (format_int x)))
    ∙ fields_from-word [] (format_int x) [] ink
    ∙ rw e refl

payload-fields :
    (pid start heartbeat : ℤ)
    → fields (trim_space (format_lock_payload pid start heartbeat))
      ≡ format_int pid ∷ format_int start ∷ format_int heartbeat ∷ []
unfolding format_lock_payload fields
payload-fields pid start heartbeat =
    let line = format_int pid ++ 32 ∷ (format_int start ++ 32 ∷ format_int heartbeat) in
    fields-trim_space (trim_space line ++ 10 ∷ [])
    ∙ (fields_from-line_end [] (trim_space line))
    ∙ fields-trim_space line
    ∙ (fields-number pid (format_int start ++ 32 ∷ format_int heartbeat)
        ∙ ap (λ r. format_int pid ∷ r)
            (fields-number start (format_int heartbeat)
              ∙ ap (λ r. format_int start ∷ r) (fields_last heartbeat)))

-- For a positive process id and numbers of 64 bits, parseLockPayload reads back what
-- formatLockPayload wrote, as a payload that is not an old one.
pub parse_lock_payload-format_lock_payload :
    (pid start heartbeat : ℤ)
    → is_positive pid ≡ true
    → Fits pid
    → Fits start
    → Fits heartbeat
    → parse_lock_payload (format_lock_payload pid start heartbeat)
      ≡ some (record { pid = pid; start_time = start; heartbeat = heartbeat; legacy = false })
unfolding parse_lock_payload payload_fields payload_rest payload_of positive_pid full_payload
parse_lock_payload-format_lock_payload pid start heartbeat p f g h = rw payload-fields (
    simp
      (
        parse_int-format_int pid f,
        p,
        parse_int-format_int start g,
        parse_int-format_int heartbeat h,
      )
      refl)

-- Of a lock whose payload this program wrote, liveHolderFromPayload reports the process exactly if it
-- is alive and is the one that wrote it, however old the heartbeat is.
pub live_holder_from_payload_lem :
    (sys : Processes) (pid start heartbeat : ℤ)
    → is_positive pid ≡ true
    → Fits pid
    → Fits start
    → Fits heartbeat
    → live_holder_from_payload sys (format_lock_payload pid start heartbeat)
      ≡ (if sys.process_alive pid && sys.process_matches_lock pid start then some pid else none)
unfolding live_holder_from_payload live_holder_of holder_of_payload
live_holder_from_payload_lem sys pid start heartbeat p f g h =
    rw (parse_lock_payload-format_lock_payload pid start heartbeat p f g h) (ground arith)
