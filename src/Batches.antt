-- ===== src/Batches.antt =====
-- The batch collector and ProcessBatches of internal/indexer/chunk/batches.go. The chunkers that
-- ProcessBatches chooses among are its argument: the chunks that one hands over and the error that
-- it ends with, if it does. `E` is Go's `error`, and `S` the state of the callback.
pub mod Collected
pub mod Invariants
use mathlib.Core.Option
use mcp_semantic_search_zvec.Prelude.{
  ℕ, zero, suc, ◌+◌, Bool, true, false, List, [], ◌∷◌, ◌++◌, Option, none, some, String, leb,
  if◌then◌else◌, length, ℤ, positive_or,
}
use mcp_semantic_search_zvec.Window.{Chunk}
use mcp_semantic_search_zvec.Ids.{Ids, IdError, assert_unique}

-- The ids of the chunks, in order.
abbrev pub ids_of : List Chunk → Ids
ids_of [] = []
ids_of (ch ∷ chs) = ch.doc_id ∷ ids_of chs

abbrev pub default_batch_size : ℕ
default_batch_size = 32

pub record Collector (S : Type 0) : Type 0 where
  pub size : ℕ
  pub acc : List Chunk
  pub total : ℕ
  pub ordinal : ℕ
  pub doc_ids : Ids
  pub state : S

-- What a chunker hands over, and the error after the last chunk.
pub record Source (E : Type 0) : Type 0 where
  pub chunks : List Chunk
  pub failure : Option E

pub record Processed (S E : Type 0) : Type 0 where
  pub count : ℕ
  pub state : S
  pub error : Option E

unfoldable pub new_batch_collector : {S : Type 0} → ℤ → S → Collector S
new_batch_collector batch_size s = record {
  size = positive_or batch_size default_batch_size;
  acc = [];
  total = 0;
  ordinal = 0;
  doc_ids = [];
  state = s;
}

unfoldable pub total_chunks : {S : Type 0} → Collector S → ℕ
total_chunks c = c.total + length c.acc

unfoldable pub unless_error : {C E : Type 0} → C × Option E → (C → C × Option E) → C × Option E
unless_error (c, none) next = next c
unless_error (c, some e) next = (c, some e)

unfoldable pub with_id : (Chunk → ℕ → String) → Chunk → ℕ → Chunk
with_id doc_id_for ch ordinal = record ch { doc_id = doc_id_for ch ordinal }

-- The copy of the chunk gets its id.
unfoldable pub push : {S : Type 0} → (Chunk → ℕ → String) → Collector S → Chunk → Collector S
push doc_id_for c ch =
    let copy = with_id doc_id_for ch (c.ordinal + 1) in
    record c {
      ordinal = c.ordinal + 1;
      doc_ids = c.doc_ids ++ copy.doc_id ∷ [];
      acc = c.acc ++ copy ∷ [];
    }

-- `doc_id_for ch n` is DocIDForChunk: the hash of the chunk and its ordinal.
module _ {S E : Type 0} (doc_id_for : Chunk → ℕ → String)
    (emit : S → List Chunk → S × Option E) where
  flush_acc : Collector S → List Chunk → Collector S × Option E
  flush_acc c [] = (c, none)
  flush_acc c (ch ∷ chs) =
      let (s, err) = emit c.state (ch ∷ chs) in
      (record c { acc = []; total = c.total + length (ch ∷ chs); state = s }, err)

  unfoldable pub flush : Collector S → Collector S × Option E
  unfolding flush_acc
  flush c = flush_acc c c.acc

  -- A full batch is flushed at once.
  unfoldable pub add : Collector S → Chunk → Collector S × Option E
  unfolding flush push
  add c ch =
      let added = push doc_id_for c ch in
      if leb c.size (length added.acc) then flush added else (added, none)

  -- The chunker hands over its chunks until the callback fails.
  unfoldable pub add_all : List Chunk → Collector S → Collector S × Option E
  unfolding add unless_error
  add_all [] c = (c, none)
  add_all (ch ∷ chs) c = unless_error (add c ch) (add_all chs)

  -- After the chunker: its own error, or the last flush.
  unfoldable pub finish : Option E → Collector S → Collector S × Option E
  unfolding flush
  finish (some e) c = (c, some e)
  finish none c = flush c

  -- The ids are checked when all batches are out.
  check_ids : (IdError → E) → Collector S → Collector S × Option E
  check_ids id_error c = (c, Option.map id_error (assert_unique c.doc_ids))

  unfoldable pub process_batches : (IdError → E) → ℤ → Source E → S → Processed S E
  unfolding add_all finish check_ids new_batch_collector total_chunks unless_error
  process_batches id_error batch_size source s =
      let (c, err) =
        unless_error (add_all source.chunks (new_batch_collector batch_size s))
          λ filled. unless_error (finish source.failure filled) (check_ids id_error) in
      record { count = total_chunks c; state = c.state; error = err }
