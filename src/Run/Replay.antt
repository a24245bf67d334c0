-- ===== src/Run/Replay.antt =====
-- The replay of the cleanup journal at the start of a run.
use mcp_semantic_search_zvec.Prelude.{
  ◌≡◌, ◌≢◌, refl, ap, ◌∙◌, Bool, true, false, ◌∷◌, Option, none, some, String, arith,
}
use mcp_semantic_search_zvec.Ids.{Ids, contains}
use mcp_semantic_search_zvec.Vectors.{VectorStore, WriteError, minded}
use mcp_semantic_search_zvec.Vectors.Laws.{IsLawful, Removes}
use mcp_semantic_search_zvec.Index.{World}
use mcp_semantic_search_zvec.Run.{
  RunAnswers, pending, cleared, after_replay, replay, reconcile_cleanup_journal,
}

-- What the replay of the journal does for an id, given how the delete ended.
pub record Replayed {V : Type 0} (has : V → String → Bool) (id : String) (ids : Ids)
    (clear_fails : Bool) (w w' : World V) (err : Option WriteError) : Type 0 where
  pub same_rows : w'.manifest ≡ w.manifest
  pub others : contains ids id ≡ false → has w'.vectors id ≡ has w.vectors id
  pub gone : err ≡ none → contains ids id ≡ true → has w'.vectors id ≡ false
  pub settles : err ≡ none → w'.journal ≡ cleared clear_fails w.journal
  pub keeps : minded err ≢ none → w'.journal ≡ w.journal

after_replay-rows :
    {V : Type 0} (clear_fails : Bool) (w : World V) (p : V × Option WriteError)
    → (after_replay clear_fails w p).manifest ≡ w.manifest
unfolding after_replay
after_replay-rows clear_fails w (v, none) = refl
after_replay-rows clear_fails w (v, some e) = refl

after_replay-vectors :
    {V : Type 0} (clear_fails : Bool) (w : World V) (p : V × Option WriteError)
    → (after_replay clear_fails w p).vectors ≡ p.0
unfolding after_replay
after_replay-vectors clear_fails w (v, none) = refl
after_replay-vectors clear_fails w (v, some e) = refl

pub after_replay-settles :
    {V : Type 0} (clear_fails : Bool) (w : World V) (v : V) (err : Option WriteError)
    → err ≡ none
    → (after_replay clear_fails w (v, minded err)).journal ≡ cleared clear_fails w.journal
unfolding after_replay minded
after_replay-settles clear_fails w v none h = refl
after_replay-settles clear_fails w v (some e) h = absurd (ground (arith, h))

after_replay-keeps :
    {V : Type 0} (clear_fails : Bool) (w : World V) (p : V × Option WriteError)
    → p.1 ≢ none
    → (after_replay clear_fails w p).journal ≡ w.journal
unfolding after_replay
after_replay-keeps clear_fails w (v, none) h = absurd (h refl)
after_replay-keeps clear_fails w (v, some e) h = refl

-- Where the journal can be read and has ids pending, replaying it leaves the manifest as it is, whose
-- rows it does not look at, and the vectors of other ids; if the delete succeeds, every pending id
-- is out of the store and the journal is removed, unless that fails, and if the delete fails with
-- an error that counts, the journal stays for the next run.
pub reconcile_cleanup_journal_lem :
    {V Vec E : Type 0} (store : VectorStore V Vec) (has : V → String → Bool)
    → IsLawful store has
    → Removes store has
    → (a : RunAnswers E) (w : World V) (first : String) (rest : Ids) (id : String)
    → a.pending_fails ≡ false
    → pending w.journal ≡ first ∷ rest
    → Replayed has id
        (first ∷ rest)
        a.clear_fails
        w
        (reconcile_cleanup_journal store a w)
        (store.delete_by_ids w.vectors (first ∷ rest)).1
unfolding reconcile_cleanup_journal replay
reconcile_cleanup_journal_lem {V} store has lawful removes a w first rest id reads e =
    let p = store.delete_by_ids w.vectors (first ∷ rest) in
    let q : V × Option WriteError = (p.0, minded p.1) in
    let vectors = after_replay-vectors a.clear_fails w q in
    rw (reads, e)
      record {
        same_rows = after_replay-rows a.clear_fails w q;
        others =
            λ c. ap (λ v. has v id) vectors ∙ lawful.delete_frame w.vectors (first ∷ rest) id c;
        gone = λ ok c.
            ap (λ v. has v id) vectors ∙ removes.delete_removes w.vectors (first ∷ rest) id ok c;
        settles = λ ok. after_replay-settles a.clear_fails w p.0 p.1 ok;
        keeps = λ failed. after_replay-keeps a.clear_fails w q failed;
      }
