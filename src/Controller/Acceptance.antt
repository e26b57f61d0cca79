-- ===== src/Controller/Acceptance.antt =====
-- controller/controller.go, `Accepted`: storing the results of an accepted block, counting its
-- actions and handing its rollups to the cache. The insertion into the archive, which runs beside it
-- and only logs an error, is left out.
pub mod Summary
pub mod Effect
pub mod Stored
mod Tests
use nodekit_seq.Prelude.{ℕ, ◌+◌, Bool, true, false, List, [], ◌∷◌, ◌++◌, Bytes, if◌then◌else◌}
use nodekit_seq.Prelude.Int.{ℤ}
use nodekit_seq.Outcome.{Outcome, ok, err, panic, Action, pure, lift, modify, ◌>>=◌, ◌>>◌}
use nodekit_seq.Vm.{RollupInfo}
use nodekit_seq.Genesis.{Dimensions, Rules, get_epoch_length}
use nodekit_seq.Storage.Transactions.{MetaDb, TxResult, store_transaction}
use nodekit_seq.Actions.Utils.{epoch}
use nodekit_seq.Actions.Transfer.{Transfer}
use nodekit_seq.Actions.SequencerMsg.{SequencerMsg}
use nodekit_seq.Actions.Auction.{Auction}
use nodekit_seq.Actions.RollupRegistration.{RollupRegistration}
use nodekit_seq.Actions.EpochExit.{EpochExit}
use nodekit_seq.RollupRegistry.{Lifecycle, Rollups, update}

-- The dynamic type of a `chain.Action`. The `Info` of a registration is what executing it left there.
pub data TxAction : Type 0 where
  transfer : Transfer → TxAction
  sequencer_msg : SequencerMsg → TxAction
  auction : Auction → TxAction
  rollup_register : RollupRegistration → TxAction
  epoch_exit : EpochExit → TxAction
  other : TxAction

-- `chain.Transaction`, `chain.Result` and `chain.StatelessBlock`, by what `Accepted` reads of them.
pub record Tx : Type 0 where
  pub id : Bytes
  pub actions : List TxAction

pub record TxOutcome : Type 0 where
  pub success : Bool
  pub units : Dimensions
  pub fee : ℕ

pub record Block : Type 0 where
  pub timestamp : ℤ
  pub hght : ℕ
  pub txs : List Tx
  pub results : List TxOutcome

-- The counters of controller/metrics.go.
pub record Metrics : Type 0 where
  pub transfers : ℕ
  pub sequencer_msgs : ℕ
  pub auctions : ℕ
  pub rollup_registers : ℕ
  pub epoch_exits : ℕ

-- What the loop changes: the counters, `rollups` and the batch.
pub record Progress (B : Type 0) : Type 0 where
  pub metrics : Metrics
  pub rollups : List RollupInfo
  pub batch : B

abbrev pub tally : TxAction → Metrics → Metrics
tally (transfer t) m = record m { transfers = m.transfers + 1 }
tally (sequencer_msg t) m = record m { sequencer_msgs = m.sequencer_msgs + 1 }
tally (auction t) m = record m { auctions = m.auctions + 1 }
tally (rollup_register t) m = record m { rollup_registers = m.rollup_registers + 1 }
tally (epoch_exit t) m = record m { epoch_exits = m.epoch_exits + 1 }
tally other m = m

abbrev pub added : TxAction → List RollupInfo → List RollupInfo
added (rollup_register reg) rollups = rollups ++ (reg.info ∷ [])
added act rollups = rollups

-- The loop over the actions of a transaction that succeeded.
unfoldable pub collect : {B : Type 0} → List TxAction → Progress B → Progress B
collect [] p = p
collect (act ∷ acts) p =
    collect acts (record p { metrics = tally act p.metrics; rollups = added act p.rollups })

-- A batch of writes to the metadata database of type `D`, and `Write`.
pub record Batches (B D : Type 0) : Type 0 where
  pub ops : MetaDb B
  pub new_batch : B
  pub write : B → D → Outcome D

pub record Node (D : Type 0) : Type 0 where
  pub metrics : Metrics
  pub cache : Rollups
  pub db : D

module _ {B : Type 0} (ops : MetaDb B) (stores : Bool) (timestamp : ℤ) where
  -- A refused write leaves the batch; what was counted stays counted.
  abbrev pub into_batch : Progress B → Outcome (Unit {0}) × B → Outcome (Unit {0}) × Progress B
  into_batch p (r, b) = (r, record p { batch = b })

  abbrev pub store_result : Tx → TxOutcome → Action (Progress B) (Unit {0})
  store_result tx result p =
      if stores
      then into_batch p (
          store_transaction ops tx.id
            (record {
              timestamp = timestamp;
              success = result.success;
              units = result.units;
              fee = result.fee;
            })
            p.batch)
      else (ok tt, p)

  abbrev pub collected : Tx → TxOutcome → Action (Progress B) (Unit {0})
  collected tx result p = (ok tt, if result.success then collect tx.actions p else p)

  -- The loop over the transactions; a missing result is an index out of range.
  unfoldable pub accept_txs : List Tx → List TxOutcome → Action (Progress B) (Unit {0})
  accept_txs [] results = pure tt
  accept_txs (tx ∷ txs) [] = lift panic
  accept_txs (tx ∷ txs) (result ∷ results) = do
    store_result tx result
    collected tx result
    accept_txs txs results

module _ {B D : Type 0} (batches : Batches B D) (life : Lifecycle) (rules : Rules)
    (stores : Bool) where
  abbrev pub written_db : Node D → Outcome D → Outcome (Unit {0}) × Node D
  written_db node (ok d) = (ok tt, record node { db = d })
  written_db node (err e) = (err e, node)
  written_db node panic = (panic, node)

  -- The last part, after the loop: the cache first, and then the batch.
  abbrev pub conclude : ℕ → Progress B → Node D → Outcome (Unit {0}) × Node D
  conclude current_epoch p node =
      written_db (record node { cache = update life current_epoch p.rollups node.cache })
        (batches.write p.batch node.db)

  abbrev pub at_epoch : Progress B → Node D → Outcome ℕ → Outcome (Unit {0}) × Node D
  at_epoch p node (ok current) = conclude current p node
  at_epoch p node (err e) = (err e, node)
  at_epoch p node panic = (panic, node)

  abbrev pub after_loop : ℕ → Node D → Outcome (Unit {0}) × Progress B → Outcome (Unit {0}) × Node D
  after_loop hght node (ok u, p) =
      at_epoch p (record node { metrics = p.metrics }) (epoch hght (get_epoch_length rules))
  after_loop hght node (err e, p) = (err e, record node { metrics = p.metrics })
  after_loop hght node (panic, p) = (panic, record node { metrics = p.metrics })

  unfoldable pub accepted : Block → Action (Node D) (Unit {0})
  accepted blk node = after_loop blk.hght node (
      accept_txs batches.ops stores blk.timestamp blk.txs blk.results
        (record { metrics = node.metrics; rollups = []; batch = batches.new_batch }))
