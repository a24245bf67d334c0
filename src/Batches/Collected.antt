-- ===== src/Batches/Collected.antt =====
-- What reaches the callback of ProcessBatches: every chunk once, in order, in full batches.
use mcp_semantic_search_zvec.Prelude.{
  ℕ, suc, ◌+◌, ◌-◌, ◌≤◌, ◌<◌, ◌≡◌, refl, sym, ◌∙◌, ap, false, List, [], ◌∷◌, ◌++◌, Option, none,
  some, String, leb, length, length-append, arith, ℤ, positive_or, positive_or-pos, Bool-cases, inl,
  inr, append_assoc, append-nil,
}
use mathlib.Core.Option
use mcp_semantic_search_zvec.Window.{Chunk}
use mcp_semantic_search_zvec.Window.Slices.{All}
use mcp_semantic_search_zvec.Ids.{IdError, assert_unique}
use mcp_semantic_search_zvec.Batches.{
  ids_of, Collector, new_batch_collector, total_chunks, flush, flush_acc, add, add_all, finish,
  check_ids, process_batches, unless_error, default_batch_size, with_id, push,
}

-- A callback that keeps its batches and never fails.
unfoldable pub keep : {E : Type 0} → List (List Chunk) → List Chunk → List (List Chunk) × Option E
keep batches batch = (batches ++ batch ∷ [], none)

abbrev pub concat {ℓ} : {A : Type ℓ} → List (List A) → List A
concat [] = []
concat (xs ∷ xss) = xs ++ concat xss

concat-append {ℓ} :
    {A : Type ℓ} (xss yss : List (List A)) → concat (xss ++ yss) ≡ concat xss ++ concat yss
concat-append [] yss = refl
concat-append (xs ∷ xss) yss = rw (concat-append xss yss, append_assoc xs (concat xss) (concat yss))

pub All-append {ℓ κ} :
    {A : Type ℓ} (P : A → Type κ) (xs ys : List A) → All P xs → All P ys → All P (xs ++ ys)
All-append P [] ys hx hy = hy
All-append P (x ∷ xs) ys hx hy = (hx.0, All-append P xs ys hx.1 hy)

abbrev pub IsBatch : ℕ → List Chunk → Type 0
IsBatch size batch = (0 < length batch) × (length batch ≤ size)

-- The chunks with their ids, which count on from an ordinal.
abbrev pub stamp : (Chunk → ℕ → String) → ℕ → List Chunk → List Chunk
stamp doc_id_for n [] = []
stamp doc_id_for n (ch ∷ chs) = with_id doc_id_for ch (n + 1) ∷ stamp doc_id_for (n + 1) chs

ids_of-append : (xs ys : List Chunk) → ids_of (xs ++ ys) ≡ ids_of xs ++ ids_of ys
ids_of-append [] ys = refl
ids_of-append (x ∷ xs) ys = rw (ids_of-append xs ys) refl

abbrev Recorder : Type 0
Recorder = Collector (List (List Chunk))

-- What has gone through the collector, with at most `most` chunks in the open batch.
record Holds (size most : ℕ) (out : List Chunk) (c : Recorder) : Type 0 where
  same_size : c.size ≡ size
  contents : concat c.state ++ c.acc ≡ out
  counted : c.total ≡ length (concat c.state)
  ordered : c.ordinal ≡ length out
  marked : c.doc_ids ≡ ids_of out
  room : length c.acc ≤ most
  batches : All (IsBatch size) c.state

Holds-most :
    {size : ℕ} {out : List Chunk} {c : Recorder} (most most' : ℕ)
    → Holds size most out c
    → most ≤ most'
    → Holds size most' out c
Holds-most most most' h le = record {
  same_size = h.same_size;
  contents = h.contents;
  counted = h.counted;
  ordered = h.ordered;
  marked = h.marked;
  room = omega (arith, h.room);
  batches = h.batches;
}

lt_of_leb : (a b : ℕ) → leb a b ≡ false → b < a
lt_of_leb a b h = ground arith

module _ (doc_id_for : Chunk → ℕ → String) (size : ℕ) where
  push-Holds :
      (most : ℕ) (out : List Chunk) (c : Recorder) (ch : Chunk)
      → Holds size most out c
      → Holds size
          (suc most)
          (out ++ with_id doc_id_for ch (length out + 1) ∷ [])
          (push doc_id_for c ch)
  unfolding push
  push-Holds most out c ch h = record {
    same_size = h.same_size;
    contents = rw (
      h.ordered,
      ← append_assoc (concat c.state) c.acc (with_id doc_id_for ch (length out + 1) ∷ []),
      h.contents,
    );
    counted = h.counted;
    ordered =
        omega (arith, h.ordered, length-append out (with_id doc_id_for ch (length out + 1) ∷ []));
    marked =
        rw (h.ordered, h.marked, ids_of-append out (with_id doc_id_for ch (length out + 1) ∷ []))
          refl;
    room = omega (arith, h.room, length-append c.acc (with_id doc_id_for ch (c.ordinal + 1) ∷ []));
    batches = h.batches;
  }

unless_error-none :
    {C E : Type 0} (p : C × Option E) (k : C → C × Option E) → p.1 ≡ none → unless_error p k ≡ k p.0
unfolding unless_error
unless_error-none (c, none) k h = refl
unless_error-none (c, some e) k h = cc

module _ (E : Type 0) (doc_id_for : Chunk → ℕ → String) (size : ℕ) where
  flush_acc-Holds :
      (out acc : List Chunk) (c : Recorder)
      → c.acc ≡ acc
      → Holds size size out c
      → ((flush_acc {E = E} doc_id_for keep c acc).1 ≡ none)
        × Holds size 0 out (flush_acc {E = E} doc_id_for keep c acc).0
        × ((flush_acc {E = E} doc_id_for keep c acc).0.acc ≡ [])
  unfolding flush_acc keep
  flush_acc-Holds out [] c e h = (
    refl,
    record {
      same_size = h.same_size;
      contents = h.contents;
      counted = h.counted;
      ordered = h.ordered;
      marked = h.marked;
      room = rw e (omega arith);
      batches = h.batches;
    },
    e,
  )
  flush_acc-Holds out (ch ∷ chs) c e h = (
    refl,
    record {
      same_size = h.same_size;
      contents = rw (
        append-nil (concat (c.state ++ (ch ∷ chs) ∷ [])),
        concat-append c.state ((ch ∷ chs) ∷ []),
        append-nil (ch ∷ chs),
        ← e,
        h.contents,
      );
      counted =
          rw (concat-append c.state ((ch ∷ chs) ∷ []), append-nil (ch ∷ chs))
            (omega (arith, h.counted, length-append (concat c.state) (ch ∷ chs)));
      ordered = h.ordered;
      marked = h.marked;
      room = omega arith;
      batches =
          All-append (IsBatch size) c.state ((ch ∷ chs) ∷ []) h.batches
            ((omega arith, omega (arith, h.room, ap length e)), tt);
    },
    refl,
  )

  add-Holds :
      (out : List Chunk) (c : Recorder) (ch : Chunk)
      → Holds size (size - 1) out c
      → 0 < size
      → ((add {E = E} doc_id_for keep c ch).1 ≡ none)
        × Holds size
            (size - 1)
            (out ++ with_id doc_id_for ch (length out + 1) ∷ [])
            (add {E = E} doc_id_for keep c ch).0
  unfolding add flush
  add-Holds out c ch h some_room =
      let p = push-Holds doc_id_for size (size - 1) out c ch h in
      let c' : Recorder = push doc_id_for c ch in
      elim (Bool-cases (leb c'.size (length c'.acc))) [
        | inl full ↦
            let f =
              flush_acc-Holds _ c'.acc c' refl (Holds-most (suc (size - 1)) size p (omega arith)) in
            rw full (f.0, Holds-most 0 (size - 1) f.1 (omega arith))
        | inr more ↦ rw more (
          refl,
          record {
            same_size = p.same_size;
            contents = p.contents;
            counted = p.counted;
            ordered = p.ordered;
            marked = p.marked;
            room = omega (arith, p.same_size, lt_of_leb _ _ more);
            batches = p.batches;
          },
        )
      ]

  add_all-Holds :
      (n : ℕ) (chs out : List Chunk) (c : Recorder)
      → n ≡ length out
      → Holds size (size - 1) out c
      → 0 < size
      → ((add_all {E = E} doc_id_for keep chs c).1 ≡ none)
        × Holds size
            (size - 1)
            (out ++ stamp doc_id_for n chs)
            (add_all {E = E} doc_id_for keep chs c).0
  unfolding add_all unless_error
  add_all-Holds n [] out c e h some_room = (refl, rw append-nil h)
  add_all-Holds n (ch ∷ chs) out c e h some_room =
      let a = add-Holds out c ch h some_room in
      let x = with_id doc_id_for ch (n + 1) in
      let filled : Holds size (size - 1) (out ++ x ∷ []) (add {E = E} doc_id_for keep c ch).0 =
        rw e a.1 in
      let rest =
        add_all-Holds (n + 1) chs (out ++ x ∷ []) (add {E = E} doc_id_for keep c ch).0
          (omega (arith, e, length-append out (x ∷ []))) filled some_room in
      let u =
        unless_error-none (add {E = E} doc_id_for keep c ch) (add_all doc_id_for keep chs) a.0 in
      rw u (rw (← append_assoc out (x ∷ []) (stamp doc_id_for (n + 1) chs)) rest)

  new-Holds :
      (b : ℤ)
      → positive_or b default_batch_size ≡ size
      → Holds size (size - 1) [] (new_batch_collector b [])
  unfolding new_batch_collector
  new-Holds b e = record {
    same_size = e;
    contents = refl;
    counted = refl;
    ordered = refl;
    marked = refl;
    room = omega arith;
    batches = tt;
  }

  flush-Holds :
      (out : List Chunk) (c : Recorder)
      → Holds size (size - 1) out c
      → ((flush {E = E} doc_id_for keep c).1 ≡ none)
        × Holds size 0 out (flush {E = E} doc_id_for keep c).0
        × ((flush {E = E} doc_id_for keep c).0.acc ≡ [])
  unfolding flush
  flush-Holds out c h =
      flush_acc-Holds out c.acc c refl (Holds-most (size - 1) size h (omega arith))

length-stamp :
    (doc_id_for : Chunk → ℕ → String) (n : ℕ) (chs : List Chunk)
    → length (stamp doc_id_for n chs) ≡ length chs
length-stamp doc_id_for n [] = refl
length-stamp doc_id_for n (ch ∷ chs) = ap suc (length-stamp doc_id_for (n + 1) chs)

module _ {E : Type 0} (doc_id_for : Chunk → ℕ → String) (id_error : IdError → E) where
  -- The steps after the last chunk.
  finished :
      (c : Recorder)
      → (flush {E = E} doc_id_for keep c).1 ≡ none
      → unless_error (finish doc_id_for keep none c) (check_ids doc_id_for keep id_error)
        ≡ check_ids doc_id_for keep id_error (flush {E = E} doc_id_for keep c).0
  unfolding finish
  finished c h =
      unless_error-none (flush {E = E} doc_id_for keep c) (check_ids doc_id_for keep id_error) h

  -- Where the chunker ends without an error, a callback that does not fail gets every chunk exactly
  -- once, in order and with the id for its ordinal, in batches that are not empty and not larger than
  -- the batch size (32 if that is not positive); the returned count is the number of chunks, and the
  -- error is that of the check of all their ids.
  pub process_batches_lem :
      (batch_size : ℤ) (chunks : List Chunk)
      → let p =
          process_batches doc_id_for keep id_error batch_size
            (record { chunks = chunks; failure = none })
            [] in
        (concat p.state ≡ stamp doc_id_for 0 chunks)
        × All (IsBatch (positive_or batch_size default_batch_size)) p.state
        × (p.count ≡ length chunks)
        × (p.error ≡ Option.map id_error (assert_unique (ids_of (stamp doc_id_for 0 chunks))))
  unfolding process_batches check_ids total_chunks
  process_batches_lem batch_size chunks =
      let size = positive_or batch_size default_batch_size in
      let some_room = positive_or-pos batch_size default_batch_size (omega arith) in
      let new : Recorder = new_batch_collector batch_size [] in
      let out = stamp doc_id_for 0 chunks in
      let a =
        add_all-Holds E doc_id_for size 0 chunks [] new refl
          (new-Holds E doc_id_for size batch_size refl) some_room in
      let filled : Recorder = (add_all {E = E} doc_id_for keep chunks new).0 in
      let f = flush-Holds E doc_id_for size out filled a.1 in
      let last : Recorder = (flush {E = E} doc_id_for keep filled).0 in
      let e =
        unless_error-none (add_all {E = E} doc_id_for keep chunks new)
          (λ c. unless_error (finish doc_id_for keep none c) (check_ids doc_id_for keep id_error))
          a.0
        ∙ finished filled f.0 in
      let whole : concat last.state ≡ out =
        sym (append-nil (concat last.state))
        ∙ ap (λ xs. concat last.state ++ xs) (sym f.2)
        ∙ f.1.contents in
      rw (process_batches, e)
        (
          whole,
          f.1.batches,
          omega (
            arith,
            f.1.counted,
            ap length whole,
            ap length f.2,
            length-stamp doc_id_for 0 chunks,
          ),
          ap (λ ids. Option.map id_error (assert_unique ids)) f.1.marked,
        )
