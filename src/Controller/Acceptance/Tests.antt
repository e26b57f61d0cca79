-- ===== src/Controller/Acceptance/Tests.antt =====
-- A block of two transactions, of which the second failed.
use nodekit_seq.Prelude.{ℕ, ◌≡◌, refl, true, false, [], ◌∷◌, replicate}
use nodekit_seq.Prelude.Int.{pos}
use nodekit_seq.Outcome.{ok}
use nodekit_seq.Vm.Example.{Store, example_vm, read}
use nodekit_seq.Genesis.{default_genesis, get_epoch_length}
use nodekit_seq.Storage.Transactions.{store_transaction}
use nodekit_seq.Actions.Utils.{epoch}
use nodekit_seq.RollupRegistry.{update}
use nodekit_seq.Controller.Acceptance.{
  rollup_register, transfer, Block, Batches, Node, collect, accept_txs, accepted,
}
use nodekit_seq.Controller.Acceptance.Summary.{successful, infos, Counts}
use nodekit_seq.Controller.Acceptance.Effect.{accepted_summary}
use nodekit_seq.Samples.{bob, rules, registration, example_life}

abbrev batches : Batches Store Store
batches = record {
  ops = record {
    get = read;
    put = example_vm.insert;
    dimensions_len = 5;
    dimensions_bytes = λ u. u;
    unpack_dimensions = λ v. ok v;
  };
  new_batch = [];
  write = λ b d. ok b;
}

abbrev block : Block
block = record {
  timestamp = pos 1_700;
  hght = 13;
  txs =
      record {
        id = replicate 32 1;
        actions =
            rollup_register registration
            ∷ transfer (record { to = bob; value = 1; memo = [] })
            ∷ [];
      }
      ∷ record { id = replicate 32 2; actions = rollup_register registration ∷ [] }
      ∷ [];
  results =
      record { success = true; units = replicate 5 1; fee = 9 }
      ∷ record { success = false; units = replicate 5 1; fee = 9 }
      ∷ [];
}

abbrev node : Node Store
node = record {
  metrics = record {
    transfers = 4;
    sequencer_msgs = 0;
    auctions = 0;
    rollup_registers = 0;
    epoch_exits = 0;
  };
  cache = [];
  db = [];
}

abbrev after : Node Store
after = (accepted batches example_life rules true block node).1

accepted_summary_example :
    (current : ℕ) × (epoch 13 (get_epoch_length rules) ≡ ok current)
    × (after.cache ≡ update example_life current (infos (successful block.txs block.results)) [])
    × Counts node.metrics (successful block.txs block.results) after.metrics
unfolding accepted accept_txs collect store_transaction epoch default_genesis
accepted_summary_example = accepted_summary batches example_life rules true block node after refl
