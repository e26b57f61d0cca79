-- ===== src/Rpc/Server.antt =====
-- rpc/jsonrpc_server.go: the handlers that answer queries. A handler gives its reply or its error.
pub mod Namespaces
pub mod Registry
use nodekit_seq.Prelude.{
  ℕ, suc, ◌+◌, ◌/◌, ◌%◌, Bool, true, false, Option, none, some, List, [], ◌∷◌, ◌++◌, Bytes,
  bytes_eq, ltb, ◌==◌, if◌then◌else◌,
}
use nodekit_seq.Prelude.Int.{ℤ}
use nodekit_seq.Outcome.{
  Error, tx_not_found, block_id_not_provided, no_such_rollup, Outcome, ok, err, panic, then_outcome,
}
use nodekit_seq.Vm.{Address, RollupInfo, EpochInfo}
use nodekit_seq.Genesis.{Genesis, Rules}
use nodekit_seq.Storage.Transactions.{TxResult}
use nodekit_seq.Actions.SequencerMsg.{SequencerMsg, nmt_namespace}
use nodekit_seq.Controller.Acceptance.{TxAction, sequencer_msg, Tx}
use nodekit_seq.Archiver.{
  StatefulBlock, BlockHeadersResponse, HeadersByHeightArgs, HeadersIdArgs,
  HeadersByStartTimeStampArgs, CommitmentArgs, SequencerWarpBlock,
}
use nodekit_seq.Rpc.{
  Controller, SeqTransaction, SeqTransactionResponse, NamespaceArgs, InfosByEpoch,
}

-- `hex.EncodeToString`, in ASCII.
abbrev hex_digit : ℕ → ℕ
hex_digit n = if ltb n 10 then 0x30 + n else 0x57 + n

unfoldable pub encode_to_string : Bytes → Bytes
encode_to_string [] = []
encode_to_string (b ∷ bs) = hex_digit (b / 16) ∷ hex_digit (b % 16) ∷ encode_to_string bs

abbrev pub seq_transaction : Bytes → ℕ → SequencerMsg → SeqTransaction
seq_transaction tx_id k msg = record {
  namespace = encode_to_string (nmt_namespace msg);
  tx_id = tx_id;
  index = k;
  transaction = msg.payload;
}

-- The inner loop of `GetBlockTransactions`, from the action at index `k` on.
unfoldable pub list_actions : Bytes → ℕ → List TxAction → List SeqTransaction → List SeqTransaction
list_actions tx_id k [] reply = reply
list_actions tx_id k (sequencer_msg msg ∷ acts) reply =
    list_actions tx_id (suc k) acts (reply ++ (seq_transaction tx_id k msg ∷ []))
list_actions tx_id k (act ∷ acts) reply = list_actions tx_id (suc k) acts reply

unfoldable pub list_txs : List Tx → List SeqTransaction → List SeqTransaction
unfolding list_actions
list_txs [] reply = reply
list_txs (tx ∷ txs) reply = list_txs txs (list_actions tx.id 0 tx.actions reply)

-- The inner loop of `GetBlockTransactionsByNamespace`, which passes over the other namespaces.
unfoldable pub list_actions_of :
    Bytes → Bytes → ℕ → List TxAction → List SeqTransaction → List SeqTransaction
unfolding encode_to_string
list_actions_of ns tx_id k [] reply = reply
list_actions_of ns tx_id k (sequencer_msg msg ∷ acts) reply =
    list_actions_of ns tx_id (suc k) acts (
      if bytes_eq ns (encode_to_string (nmt_namespace msg))
      then reply ++ (seq_transaction tx_id k msg ∷ [])
      else reply)
list_actions_of ns tx_id k (act ∷ acts) reply = list_actions_of ns tx_id (suc k) acts reply

unfoldable pub list_txs_of : Bytes → List Tx → List SeqTransaction → List SeqTransaction
unfolding list_actions_of
list_txs_of ns [] reply = reply
list_txs_of ns (tx ∷ txs) reply = list_txs_of ns txs (list_actions_of ns tx.id 0 tx.actions reply)

-- `reply.Info[epoch]`, no rollups where the epoch is missing, and its assignment.
unfoldable pub infos_at : ℕ → InfosByEpoch → List RollupInfo
infos_at epoch [] = []
infos_at epoch ((e, infos) ∷ rest) = if e == epoch then infos else infos_at epoch rest

unfoldable pub set_infos : ℕ → List RollupInfo → InfosByEpoch → InfosByEpoch
set_infos epoch infos [] = (epoch, infos) ∷ []
set_infos epoch infos ((e, old) ∷ rest) =
    if e == epoch then (e, infos) ∷ rest else (e, old) ∷ set_infos epoch infos rest

abbrev pub add_info : RollupInfo → InfosByEpoch → InfosByEpoch
add_info info reply =
    set_infos info.start_epoch (infos_at info.start_epoch reply ++ (info ∷ [])) reply

-- What a handler takes of a response of the archiver.
abbrev headers_reply : BlockHeadersResponse → BlockHeadersResponse
headers_reply headers = record {
  from = headers.from;
  blocks = headers.blocks;
  prev = headers.prev;
  next = headers.next;
}

-- `ServerParser`.
pub record ServerParser : Type 0 where
  pub network_id : ℕ
  pub chain_id : Bytes
  pub genesis : Genesis

abbrev pub parser_rules : ServerParser → Rules
parser_rules p = record {
  g = p.genesis;
  network_id = p.network_id;
  chain_id = p.chain_id;
  parsed_white_listed_address = [];
}

module _ (c : Controller) where
  open c use {
    find_transaction, balance_from_state, epoch_exits_from_state, builder_from_state,
    rollup_info_from_state, rollup_registry_from_state, archived_headers_by_height,
    archived_headers_by_id, archived_headers_after, archived_block_by_id, archived_block_by_height,
    archived_commitment_blocks, rollups_valid_at,
  }

  abbrev pub genesis_reply : Outcome Genesis
  genesis_reply = ok c.genesis

  unfoldable pub tx_reply : Bytes → Outcome TxResult
  tx_reply tx_id =
      then_outcome (find_transaction tx_id)
        λ found. elim found [ none ↦ err tx_not_found | some result ↦ ok result ]

  -- `codec.ParseAddressBech32` of hypersdk comes in front.
  unfoldable pub balance_reply : (Bytes → Outcome Address) → Bytes → Outcome ℕ
  balance_reply parse_address address =
      then_outcome (parse_address address) λ addr. balance_from_state addr

  unfoldable pub headers_by_height_reply : HeadersByHeightArgs → Outcome BlockHeadersResponse
  headers_by_height_reply args =
      then_outcome (archived_headers_by_height args) λ headers. ok (headers_reply headers)

  unfoldable pub headers_id_reply : HeadersIdArgs → Outcome BlockHeadersResponse
  headers_id_reply args =
      then_outcome (archived_headers_by_id args) λ headers. ok (headers_reply headers)

  unfoldable pub headers_after_reply : HeadersByStartTimeStampArgs → Outcome BlockHeadersResponse
  headers_after_reply args =
      then_outcome (archived_headers_after args) λ headers. ok (headers_reply headers)

  unfoldable pub block_transactions : Bytes → Outcome SeqTransactionResponse
  unfolding list_txs
  block_transactions id =
      if bytes_eq id []
      then err block_id_not_provided
      else then_outcome (archived_block_by_id id)
          λ blk. ok (record { txs = list_txs blk.txs []; block_id = id })

  abbrev pub commitment_blocks_reply : CommitmentArgs → Outcome (List SequencerWarpBlock)
  commitment_blocks_reply args = then_outcome (archived_commitment_blocks args) λ blocks. ok blocks

  -- `StatefulBlock.ID` and `ids.ID.String` are hypersdk's and avalanchego's.
  unfoldable pub block_transactions_by_namespace :
      (StatefulBlock → Outcome Bytes) → NamespaceArgs → Outcome SeqTransactionResponse
  unfolding list_txs_of
  block_transactions_by_namespace block_id args =
      then_outcome (archived_block_by_height args.height) λ blk.
        then_outcome (block_id blk)
          λ id. ok (record { txs = list_txs_of args.namespace blk.txs []; block_id = id })

  abbrev pub epoch_exits_reply : ℕ → Outcome (Option (List EpochInfo))
  epoch_exits_reply epoch = then_outcome (epoch_exits_from_state epoch) λ info. ok info

  abbrev pub builder_reply : ℕ → Outcome (Option Bytes)
  builder_reply epoch = then_outcome (builder_from_state epoch) λ builder. ok builder

  abbrev pub rollup_registry_reply : Outcome (List Bytes)
  rollup_registry_reply = then_outcome rollup_registry_from_state λ namespaces. ok namespaces

  unfoldable pub rollup_info_reply : Bytes → Outcome RollupInfo
  rollup_info_reply namespace =
      then_outcome (rollup_info_from_state namespace)
        λ found. elim found [ none ↦ err no_such_rollup | some info ↦ ok info ]

  -- The loop of `GetAllRollupInfo`; a namespace without a record is a nil pointer that is read.
  unfoldable pub collect_infos : List Bytes → InfosByEpoch → Outcome InfosByEpoch
  unfolding set_infos infos_at
  collect_infos [] reply = ok reply
  collect_infos (ns ∷ namespaces) reply = then_outcome (rollup_info_from_state ns) λ found.
      elim found [ none ↦ panic | some info ↦ collect_infos namespaces (add_info info reply) ]

  unfoldable pub all_rollup_info : Outcome InfosByEpoch
  unfolding collect_infos
  all_rollup_info =
      then_outcome rollup_registry_from_state λ namespaces. collect_infos namespaces []

  abbrev pub valid_rollups_reply : ℕ → Outcome (List RollupInfo)
  valid_rollups_reply epoch = ok (rollups_valid_at epoch)

  abbrev pub server_parser : ℕ → Bytes → ServerParser
  server_parser network_id chain_id = record {
    network_id = network_id;
    chain_id = chain_id;
    genesis = c.genesis;
  }

  abbrev pub accepted_window_reply : Outcome ℤ
  accepted_window_reply = ok c.accepted_block_window
