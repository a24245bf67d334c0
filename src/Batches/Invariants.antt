-- ===== src/Batches/Invariants.antt =====
-- What a callback keeps through all its batches, ProcessBatches keeps.
use mathlib.Core.Option
use mcp_semantic_search_zvec.Prelude.{
  ℕ, ◌+◌, Bool-cases, inl, inr, List, [], ◌∷◌, Option, none, some, String, leb, length, ℤ,
}
use mcp_semantic_search_zvec.Window.{Chunk}
use mcp_semantic_search_zvec.Window.Slices.{All}
use mcp_semantic_search_zvec.Ids.{IdError, assert_unique}
use mcp_semantic_search_zvec.Batches.{
  Collector, Source, new_batch_collector, flush, flush_acc, add, add_all, finish, check_ids,
  process_batches, unless_error, with_id, push,
}
use mcp_semantic_search_zvec.Batches.Collected.{All-append}

-- `Inv none` holds while there is no error, and `Inv (some e)` once the error `e` ended the run.
module _ {S E : Type 0} (doc_id_for : Chunk → ℕ → String) (emit : S → List Chunk → S × Option E)
    (Inv : Option E → S → Type 0) (P : Chunk → Type 0)
    (emit-Inv : (s : S) (batch : List Chunk)
      → All P batch
      → Inv none s
      → Inv (emit s batch).1 (emit s batch).0)
    (stops : (e : E) (s : S) → Inv none s → Inv (some e) s) where
  abbrev Good : Collector S × Option E → Type 0
  Good p = Inv p.1 p.0.state × All P p.0.acc

  flush_acc-Good :
      (c : Collector S) (acc : List Chunk)
      → All P acc
      → Inv none c.state
      → All P c.acc
      → Good (flush_acc doc_id_for emit c acc)
  unfolding flush_acc
  flush_acc-Good c [] a h b = (h, b)
  flush_acc-Good c (ch ∷ chs) a h b = (emit-Inv c.state (ch ∷ chs) a h, tt)

  flush-Good : (c : Collector S) → Good (c, none) → Good (flush doc_id_for emit c)
  unfolding flush
  flush-Good c h = flush_acc-Good c c.acc h.1 h.0 h.1

  add-Good :
      (c : Collector S) (ch : Chunk)
      → ((n : ℕ) → P (with_id doc_id_for ch n))
      → Good (c, none)
      → Good (add doc_id_for emit c ch)
  unfolding add push
  add-Good c ch p h =
      let pushed : Good (push doc_id_for c ch, none) = (
        h.0,
        All-append P c.acc (with_id doc_id_for ch (c.ordinal + 1) ∷ []) h.1 (p (c.ordinal + 1), tt),
      ) in
      elim (Bool-cases (leb c.size (length (push doc_id_for c ch).acc))) [
        | inl full ↦ rw full (flush-Good (push doc_id_for c ch) pushed)
        | inr more ↦ rw more pushed
      ]

  unless_error-Good :
      (p : Collector S × Option E) (k : Collector S → Collector S × Option E)
      → Good p
      → ((c : Collector S) → Good (c, none) → Good (k c))
      → Good (unless_error p k)
  unfolding unless_error
  unless_error-Good (c, none) k h next = next c h
  unless_error-Good (c, some e) k h next = h

  add_all-Good :
      (chs : List Chunk) (c : Collector S)
      → All (λ ch. (n : ℕ) → P (with_id doc_id_for ch n)) chs
      → Good (c, none)
      → Good (add_all doc_id_for emit chs c)
  unfolding add_all
  add_all-Good [] c a h = h
  add_all-Good (ch ∷ chs) c a h =
      unless_error-Good (add doc_id_for emit c ch) (add_all doc_id_for emit chs)
        (add-Good c ch a.0 h) λ c' h'. add_all-Good chs c' a.1 h'

  finish-Good :
      (failure : Option E) (c : Collector S)
      → Good (c, none)
      → Good (finish doc_id_for emit failure c)
  unfolding finish
  finish-Good none c h = flush-Good c h
  finish-Good (some e) c h = (stops e c.state h.0, h.1)

  checked : (err : Option E) (s : S) → Inv none s → Inv err s
  checked none s h = h
  checked (some e) s h = stops e s h

  pub process_batches-Inv :
      (id_error : IdError → E) (batch_size : ℤ) (source : Source E) (s : S)
      → All (λ ch. (n : ℕ) → P (with_id doc_id_for ch n)) source.chunks
      → Inv none s
      → Inv
          (process_batches doc_id_for emit id_error batch_size source s).error
          (process_batches doc_id_for emit id_error batch_size source s).state
  unfolding process_batches check_ids new_batch_collector
  process_batches-Inv id_error batch_size source s a h =
      let new : Collector S = new_batch_collector batch_size s in
      let g : Good (
          unless_error (add_all doc_id_for emit source.chunks new) (λ filled.
            unless_error (finish doc_id_for emit source.failure filled)
              (check_ids doc_id_for emit id_error))) =
        unless_error-Good _ _ (add_all-Good source.chunks new a (h, tt)) λ c h1.
          unless_error-Good _ _ (finish-Good source.failure c h1) λ c' h2.
            (checked (Option.map id_error (assert_unique c'.doc_ids)) c'.state h2.0, h2.1) in
      g.0
