-- ===== src/Rpc.antt =====
-- Package rpc: what the JSON-RPC server asks of the node (rpc/dependencies.go), the requests with
-- their replies, the server and its clients.
pub mod Server
pub mod Node
pub mod Fees
pub mod Submission
pub mod Client
mod Tests
use nodekit_seq.Prelude.{ℕ, Option, none, some, List, Bytes}
use nodekit_seq.Prelude.Int.{ℤ}
use nodekit_seq.Outcome.{Error, Outcome}
use nodekit_seq.Vm.{Address, RollupInfo, EpochInfo}
use nodekit_seq.Genesis.{Genesis, Dimensions}
use nodekit_seq.Storage.Transactions.{TxResult}
use nodekit_seq.Archiver.{
  StatefulBlock, BlockHeadersResponse, HeadersByHeightArgs, HeadersIdArgs,
  HeadersByStartTimeStampArgs, CommitmentArgs, SequencerWarpBlock,
}

-- The interface `Controller`, with the calls of the archiver and of the rollup registry that go
-- through it, and the parser that they are given.
pub record Controller : Type 0 where
  pub network_id : ℕ
  pub chain_id : Bytes
  pub genesis : Genesis
  pub find_transaction : Bytes → Outcome (Option TxResult)
  pub balance_from_state : Address → Outcome ℕ
  pub epoch_exits_from_state : ℕ → Outcome (Option (List EpochInfo))
  pub builder_from_state : ℕ → Outcome (Option Bytes)
  pub rollup_info_from_state : Bytes → Outcome (Option RollupInfo)
  pub rollup_registry_from_state : Outcome (List Bytes)
  pub unit_prices : Outcome Dimensions
  pub name_spaces_price : List Bytes → Outcome (List ℕ)
  pub accepted_block_window : ℤ
  pub archived_headers_by_height : HeadersByHeightArgs → Outcome BlockHeadersResponse
  pub archived_headers_by_id : HeadersIdArgs → Outcome BlockHeadersResponse
  pub archived_headers_after : HeadersByStartTimeStampArgs → Outcome BlockHeadersResponse
  pub archived_block_by_id : Bytes → Outcome StatefulBlock
  pub archived_block_by_height : ℕ → Outcome StatefulBlock
  pub archived_commitment_blocks : CommitmentArgs → Outcome (List SequencerWarpBlock)
  pub rollups_valid_at : ℕ → List RollupInfo

-- `TxReply`, filled from the result of a transaction, and `types.SEQTransaction`.
pub record SeqTransaction : Type 0 where
  pub namespace : Bytes
  pub tx_id : Bytes
  pub index : ℕ
  pub transaction : Bytes

pub record SeqTransactionResponse : Type 0 where
  pub txs : List SeqTransaction
  pub block_id : Bytes

pub record NamespaceArgs : Type 0 where
  pub height : ℕ
  pub namespace : Bytes

-- The map from epochs to rollups of `GetAllRollupInfoReply`.
abbrev pub InfosByEpoch : Type 0
InfosByEpoch = List (ℕ × List RollupInfo)

pub record SubmitMsgTxArgs : Type 0 where
  pub chain_id : Bytes
  pub network_id : ℕ
  pub secondary_chain_id : Bytes
  pub payloads : List Bytes

-- The methods of the server, each with its arguments, and the type of its reply.
pub data Request : Type 0 where
  ask_genesis : Request
  ask_tx : Bytes → Request
  ask_balance : Bytes → Request
  ask_headers_by_height : HeadersByHeightArgs → Request
  ask_headers_id : HeadersIdArgs → Request
  ask_headers_after : HeadersByStartTimeStampArgs → Request
  ask_block_transactions : Bytes → Request
  ask_block_transactions_of : NamespaceArgs → Request
  ask_commitment_blocks : CommitmentArgs → Request
  ask_accepted_window : Request
  ask_rollup_registry : Request
  ask_rollup_info : Bytes → Request
  ask_all_rollup_info : Request
  ask_valid_rollups : ℕ → Request
  ask_epoch_exits : ℕ → Request
  ask_builder : ℕ → Request
  ask_submit_msg_tx : SubmitMsgTxArgs → Request

abbrev pub Reply : Request → Type 0
Reply ask_genesis = Option Genesis
Reply (ask_tx id) = TxResult
Reply (ask_balance addr) = ℕ
Reply (ask_headers_by_height args) = BlockHeadersResponse
Reply (ask_headers_id args) = BlockHeadersResponse
Reply (ask_headers_after args) = BlockHeadersResponse
Reply (ask_block_transactions id) = SeqTransactionResponse
Reply (ask_block_transactions_of args) = SeqTransactionResponse
Reply (ask_commitment_blocks args) = List SequencerWarpBlock
Reply ask_accepted_window = ℤ
Reply ask_rollup_registry = List Bytes
Reply (ask_rollup_info namespace) = RollupInfo
Reply ask_all_rollup_info = InfosByEpoch
Reply (ask_valid_rollups epoch) = List RollupInfo
Reply (ask_epoch_exits epoch) = Option (List EpochInfo)
Reply (ask_builder epoch) = Option Bytes
Reply (ask_submit_msg_tx args) = Bytes
