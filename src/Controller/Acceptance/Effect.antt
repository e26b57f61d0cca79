-- ===== src/Controller/Acceptance/Effect.antt =====
-- What an accepted block leaves in the node.
use mathlib.Core.List.{append-nil, append_assoc}
use nodekit_seq.Prelude.{
  ℕ, ◌≡◌, refl, ◌∙◌, sym, ap, Bool, Bool-cases, inl, inr, List, [], ◌∷◌, ◌++◌, arith,
}
use nodekit_seq.Prelude.Int.{ℤ}
use nodekit_seq.Outcome.{Outcome, ok, err, panic, and_then-ok}
use nodekit_seq.Genesis.{Rules, get_epoch_length}
use nodekit_seq.Storage.Transactions.{MetaDb}
use nodekit_seq.Actions.Utils.{epoch}
use nodekit_seq.RollupRegistry.{Lifecycle, update}
use nodekit_seq.Controller.Acceptance.{
  Tx, TxOutcome, Block, Progress, Batches, Node, store_result, collected, accept_txs, written_db,
  conclude, at_epoch, after_loop, accepted,
}
use nodekit_seq.Controller.Acceptance.Summary.{
  performed, successful, infos, infos-append, Counts, uncounted, Counts-append, collect_summary,
}

module _ {B : Type 0} (ops : MetaDb B) (stores : Bool) (timestamp : ℤ) where
  -- Storing a result changes the batch alone.
  store_result-keeps :
      (tx : Tx) (result : TxOutcome) (p : Progress B)
      → ((store_result ops stores timestamp tx result p).1.metrics ≡ p.metrics)
        × ((store_result ops stores timestamp tx result p).1.rollups ≡ p.rollups)
  store_result-keeps tx result p = elim (Bool-cases stores) [
    | inl p₁ ↦ rw p₁ (refl, refl)
    | inr p₁ ↦ rw p₁ (refl, refl)
  ]

  collected_summary :
      (tx : Tx) (result : TxOutcome) (p : Progress B)
      → Counts p.metrics
          (performed tx result)
          (collected ops stores timestamp tx result p).1.metrics
        × ((collected ops stores timestamp tx result p).1.rollups
            ≡ p.rollups ++ infos (performed tx result))
  collected_summary tx result p = elim (Bool-cases result.success) [
    | inr failed ↦ rw failed (uncounted p.metrics, sym (append-nil p.rollups))
    | inl won ↦ let (counts, found, _) = collect_summary tx.actions p in rw won (counts, found)
  ]

  pub accept_txs-summary :
      (txs : List Tx) (results : List TxOutcome) (p p' : Progress B)
      → accept_txs ops stores timestamp txs results p ≡ (ok tt, p')
      → Counts p.metrics (successful txs results) p'.metrics
        × (p'.rollups ≡ p.rollups ++ infos (successful txs results))
  unfolding accept_txs
  accept_txs-summary [] results p p' h =
      let same : p ≡ p' = ap (λ q. q.1) h in
      rw (← same) (uncounted p.metrics, sym (append-nil p.rollups))
  accept_txs-summary (tx ∷ txs) [] p p' h = ground arith
  accept_txs-summary (tx ∷ txs) (result ∷ results) p p' h =
      let (_, stored, h₁) = and_then-ok _ (store_result ops stores timestamp tx result p) h in
      let q = (store_result ops stores timestamp tx result p).1 in
      let (em, er) = store_result-keeps tx result p in
      let r = (collected ops stores timestamp tx result q).1 in
      let acts = performed tx result in
      let rest = successful txs results in
      let (counts₀, found₀) = collected_summary tx result q in
      let (counts, found) = accept_txs-summary txs results r p' h₁ in
      (
        Counts-append acts rest p.metrics r.metrics p'.metrics (rw em at counts₀) counts,
        found
            ∙ ap (λ l. l ++ infos rest) (found₀ ∙ ap (λ l. l ++ infos acts) er)
            ∙ append_assoc p.rollups (infos acts) (infos rest)
            ∙ ap (λ l. p.rollups ++ l) (sym (infos-append acts rest)),
      )

module _ {B D : Type 0} (batches : Batches B D) (life : Lifecycle) (rules : Rules)
    (stores : Bool) where
  after_loop-ok :
      (hght : ℕ) (node : Node D) (m : Outcome (Unit {0}) × Progress B) (node' : Node D)
      → after_loop batches life rules stores hght node m ≡ (ok tt, node')
      → (p : Progress B) × (m ≡ (ok tt, p))
        × (at_epoch batches life rules stores p
              (record node { metrics = p.metrics })
              (epoch hght (get_epoch_length rules))
            ≡ (ok tt, node'))
  after_loop-ok hght node (ok u, p) node' h = (p, refl, h)
  after_loop-ok hght node (err e, p) node' h = ground arith
  after_loop-ok hght node (panic, p) node' h = ground arith

  at_epoch-ok :
      (p : Progress B) (node : Node D) (o : Outcome ℕ) (node' : Node D)
      → at_epoch batches life rules stores p node o ≡ (ok tt, node')
      → (current : ℕ) × (o ≡ ok current)
        × (conclude batches life rules stores current p node ≡ (ok tt, node'))
  at_epoch-ok p node (ok current) node' h = (current, refl, h)
  at_epoch-ok p node (err e) node' h = ground arith
  at_epoch-ok p node panic node' h = ground arith

  written_db-ok :
      (node : Node D) (o : Outcome D) (node' : Node D)
      → written_db batches life rules stores node o ≡ (ok tt, node')
      → (node'.cache ≡ node.cache) × (node.metrics ≡ node'.metrics) × (o ≡ ok node'.db)
  written_db-ok node (ok d) node' h =
      (ap (λ q. q.1.cache) (sym h), ap (λ q. q.1.metrics) h, ap (λ q. ok q.1.db) h)
  written_db-ok node (err e) node' h = ground arith
  written_db-ok node panic node' h = ground arith

  -- After a block that is accepted without error, the cache has been updated, for the block's
  -- epoch, with the records of the registrations of the transactions that succeeded, and every
  -- counter has grown by the number of their actions of its kind.
  pub accepted_summary :
      (blk : Block) (node node' : Node D)
      → accepted batches life rules stores blk node ≡ (ok tt, node')
      → (current : ℕ) × (epoch blk.hght (get_epoch_length rules) ≡ ok current)
        × (node'.cache ≡ update life current (infos (successful blk.txs blk.results)) node.cache)
        × Counts node.metrics (successful blk.txs blk.results) node'.metrics
  unfolding accepted
  accepted_summary blk node node' h =
      let start : Progress B = record {
        metrics = node.metrics;
        rollups = [];
        batch = batches.new_batch;
      } in
      let (p, done, h₁) = after_loop-ok blk.hght node _ node' h in
      let (counts, found) =
        accept_txs-summary batches.ops stores blk.timestamp blk.txs blk.results start p done in
      let (current, at, h₂) = at_epoch-ok p _ (epoch blk.hght (get_epoch_length rules)) node' h₁ in
      let (ec, em, _) = written_db-ok _ (batches.write p.batch node.db) node' h₂ in
      (current, at, ec ∙ ap (λ l. update life current l node.cache) found, rw (← em) counts)

  -- The batch that the loop has made is what is written to the database.
  pub accepted-written :
      (blk : Block) (node node' : Node D)
      → accepted batches life rules stores blk node ≡ (ok tt, node')
      → (p : Progress B) × (accept_txs batches.ops stores blk.timestamp blk.txs blk.results
            (record { metrics = node.metrics; rollups = []; batch = batches.new_batch })
          ≡ (ok tt, p))
        × (batches.write p.batch node.db ≡ ok node'.db)
  unfolding accepted
  accepted-written blk node node' h =
      let (p, done, h₁) = after_loop-ok blk.hght node _ node' h in
      let (current, at, h₂) = at_epoch-ok p _ (epoch blk.hght (get_epoch_length rules)) node' h₁ in
      let (_, _, written) = written_db-ok _ (batches.write p.batch node.db) node' h₂ in
      (p, done, written)
