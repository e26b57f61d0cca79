-- ===== src/Rpc/Node.antt =====
-- What the server's interface is on a node: package controller over the last accepted state, the
-- metadata database, the archive and the cache of rollups.
pub mod Registered
use nodekit_seq.Prelude.{ℕ, List, Bytes}
use nodekit_seq.Prelude.Int.{ℤ}
use nodekit_seq.Outcome.{Outcome}
use nodekit_seq.Vm.{Vm}
use nodekit_seq.Genesis.{Genesis, Dimensions}
use nodekit_seq.Storage.ReadState.{ReadState}
use nodekit_seq.Storage.Transactions.{MetaDb}
use nodekit_seq.Controller.Resolutions.{
  resolve_transaction, resolve_balance, resolve_epoch_exits, resolve_builder, resolve_rollup_info,
  resolve_rollup_registry,
}
use nodekit_seq.Archiver.{
  Orm, BlockCodec, headers_by_height, headers_by_id, headers_after_timestamp, block_by_id,
  block_by_height, commitment_blocks,
}
use nodekit_seq.RollupRegistry.{Lifecycle, Rollups, rollups_valid_at_epoch}
use nodekit_seq.Rpc.{Controller}

-- What `Controller` passes on from hypersdk's `vm.VM` and the chain's context.
pub record Inner : Type 0 where
  pub network_id : ℕ
  pub chain_id : Bytes
  pub unit_prices : Outcome Dimensions
  pub name_spaces_price : List Bytes → Outcome (List ℕ)
  pub accepted_block_window : ℤ

-- The parts of a node, with the databases' contents.
pub record Parts (S D B T : Type 0) : Type 0 where
  pub inner : Inner
  pub genesis : Genesis
  pub vm : Vm S
  pub read_state : ReadState
  pub ops : MetaDb D
  pub meta_db : D
  pub orm : Orm B T
  pub archive : B
  pub codec : BlockCodec
  pub keccak : Bytes → Bytes
  pub life : Lifecycle
  pub rollups : Rollups

abbrev pub node : {S D B T : Type 0} → Parts S D B T → Controller
node p = record {
  network_id = p.inner.network_id;
  chain_id = p.inner.chain_id;
  genesis = p.genesis;
  find_transaction = resolve_transaction p.ops p.meta_db;
  balance_from_state = resolve_balance p.read_state;
  epoch_exits_from_state = resolve_epoch_exits p.vm p.read_state;
  builder_from_state = resolve_builder p.vm p.read_state;
  rollup_info_from_state = resolve_rollup_info p.vm p.read_state;
  rollup_registry_from_state = resolve_rollup_registry p.vm p.read_state;
  unit_prices = p.inner.unit_prices;
  name_spaces_price = p.inner.name_spaces_price;
  accepted_block_window = p.inner.accepted_block_window;
  archived_headers_by_height = λ args. headers_by_height p.orm args p.archive;
  archived_headers_by_id = λ args. headers_by_id p.orm args p.archive;
  archived_headers_after = λ args. headers_after_timestamp p.orm args p.archive;
  archived_block_by_id = λ id. block_by_id p.orm p.codec id p.archive;
  archived_block_by_height = λ height. block_by_height p.orm p.codec height p.archive;
  archived_commitment_blocks = λ args. commitment_blocks p.orm p.codec p.keccak args p.archive;
  rollups_valid_at = λ epoch. rollups_valid_at_epoch p.life epoch p.rollups;
}
