-- ===== src/Controller/Resolutions.antt =====
-- controller/resolutions.go: what the RPC server reads, from the last accepted state and from the
-- metadata database.
use nodekit_seq.Prelude.{ℕ, Option, List, Bytes}
use nodekit_seq.Outcome.{Outcome}
use nodekit_seq.Vm.{Vm, Address, RollupInfo, EpochInfo}
use nodekit_seq.Storage.ReadState.{ReadState}
use nodekit_seq.Storage.Balance.{get_balance_from_state as storage_balance}
use nodekit_seq.Storage.Rollups.{
  get_rollup_info_from_state as storage_rollup_info,
  get_rollup_registry_from_state as storage_rollup_registry,
}
use nodekit_seq.Storage.Exits.{get_epoch_exits_from_state as storage_epoch_exits}
use nodekit_seq.Storage.Arcadia.{get_arcadia_builder_from_state}
use nodekit_seq.Storage.Transactions.{MetaDb, TxResult, get_transaction as storage_transaction}

abbrev pub resolve_transaction : {D : Type 0} → MetaDb D → D → Bytes → Outcome (Option TxResult)
resolve_transaction ops meta_db tx_id = storage_transaction ops tx_id meta_db

abbrev pub resolve_balance : ReadState → Address → Outcome ℕ
resolve_balance read_state addr = storage_balance read_state addr

module _ {S : Type 0} (vm : Vm S) (read_state : ReadState) where
  abbrev pub resolve_rollup_registry : Outcome (List Bytes)
  resolve_rollup_registry = storage_rollup_registry vm read_state

  abbrev pub resolve_epoch_exits : ℕ → Outcome (Option (List EpochInfo))
  resolve_epoch_exits epoch = storage_epoch_exits vm read_state epoch

  abbrev pub resolve_rollup_info : Bytes → Outcome (Option RollupInfo)
  resolve_rollup_info namespace = storage_rollup_info vm read_state namespace

  abbrev pub resolve_builder : ℕ → Outcome (Option Bytes)
  resolve_builder epoch = get_arcadia_builder_from_state vm read_state epoch
