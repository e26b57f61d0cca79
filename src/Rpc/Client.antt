-- ===== src/Rpc/Client.antt =====
-- rpc/jsonrpc_client.go: the client's methods, over the requester of hypersdk. A method gives what is
-- in its response and the error of its request, as the source returns both.
pub mod Loopback
use nodekit_seq.Prelude.{
  ℕ, suc, Bool, true, false, Option, none, some, List, [], ◌∷◌, ◌||◌, ◌&&◌, Bytes, ◌==◌, leb,
  if◌then◌else◌,
}
use nodekit_seq.Prelude.Int.{ℤ, pos, negsuc}
use nodekit_seq.Outcome.{Error, Outcome, ok, err, panic, Action, map_ok}
use nodekit_seq.Vm.{RollupInfo, EpochInfo}
use nodekit_seq.Genesis.{Genesis, Rules}
use nodekit_seq.Storage.Transactions.{TxResult}
use nodekit_seq.Archiver.{
  BlockHeadersResponse, HeadersByHeightArgs, HeadersIdArgs, HeadersByStartTimeStampArgs,
  CommitmentArgs, SequencerWarpBlock, zero_info,
}
use nodekit_seq.Rpc.{
  NamespaceArgs, SeqTransactionResponse, InfosByEpoch, SubmitMsgTxArgs, Request, ask_genesis,
  ask_tx, ask_balance, ask_headers_by_height, ask_headers_id, ask_headers_after,
  ask_block_transactions, ask_block_transactions_of, ask_commitment_blocks, ask_accepted_window,
  ask_rollup_registry, ask_rollup_info, ask_all_rollup_info, ask_valid_rollups, ask_epoch_exits,
  ask_builder, ask_submit_msg_tx, Reply,
}

-- `SendRequest` decodes into a response; and the text of an error.
pub record Requester : Type 0 where
  pub send_request : (q : Request) → Reply q → Reply q × Option Error
  pub error_text : Error → Bytes

-- `strings.Contains`.
unfoldable pub has_prefix : Bytes → Bytes → Bool
has_prefix s [] = true
has_prefix [] (c ∷ cs) = false
has_prefix (b ∷ s) (c ∷ cs) = b == c && has_prefix s cs

unfoldable pub contains_text : Bytes → Bytes → Bool
unfolding has_prefix
contains_text [] sub = has_prefix [] sub
contains_text (b ∷ s) sub = has_prefix (b ∷ s) sub || contains_text s sub

-- `ErrTxNotFound.Error()`, the text "tx not found" in ASCII.
abbrev pub tx_not_found_text : Bytes
tx_not_found_text =
    0x74 ∷ 0x78 ∷ 0x20 ∷ 0x6E ∷ 0x6F ∷ 0x74 ∷ 0x20 ∷ 0x66 ∷ 0x6F ∷ 0x75 ∷ 0x6E ∷ 0x64 ∷ []

-- The zero values that responses start from.
abbrev pub zero_result : TxResult
zero_result = record { timestamp = pos 0; success = false; units = []; fee = 0 }

abbrev zero_headers : BlockHeadersResponse
zero_headers = record { from = 0; blocks = []; prev = zero_info; next = zero_info }

abbrev zero_transactions : SeqTransactionResponse
zero_transactions = record { txs = []; block_id = [] }

abbrev zero_rollup : RollupInfo
zero_rollup = record {
  namespace = [];
  fee_recipient = [];
  authority_seq_address = [];
  sequencer_public_key = [];
  start_epoch = 0;
  exit_epoch = 0;
}

-- What `Tx` returns: found, success, timestamp and fee.
pub record TxStatus : Type 0 where
  pub found : Bool
  pub success : Bool
  pub timestamp : ℤ
  pub fee : ℕ

abbrev pub missing_status : TxStatus
missing_status = record { found = false; success = false; timestamp = negsuc 0; fee = 0 }

-- The client keeps the genesis that it was told, and knows its network and chain.
pub record Client : Type 0 where
  pub network_id : ℕ
  pub chain_id : Bytes
  pub g : Option Genesis

module _ (requester : Requester) where
  open requester use {send_request, error_text}

  abbrev pub client_submit_msg_tx : SubmitMsgTxArgs → Bytes × Option Error
  client_submit_msg_tx args = send_request (ask_submit_msg_tx args) []

  abbrev remembered : Client → Option Genesis × Option Error → Outcome (Option Genesis) × Client
  remembered cli (g, some e) = (err e, cli)
  remembered cli (g, none) = (ok g, record cli { g = g })

  pub client_genesis : Action Client (Option Genesis)
  client_genesis cli = elim (cli.g) [
    | some g ↦ (ok (some g), cli)
    | none ↦ remembered cli (send_request ask_genesis none)
  ]

  abbrev pub status : TxResult × Option Error → Outcome TxStatus
  status (resp, none) =
      ok (record {
        found = true;
        success = resp.success;
        timestamp = resp.timestamp;
        fee = resp.fee;
      })
  status (resp, some e) =
      if contains_text (error_text e) tx_not_found_text then ok missing_status else err e

  unfoldable pub client_tx : Bytes → Outcome TxStatus
  unfolding contains_text
  client_tx id = status (send_request (ask_tx id) zero_result)

  abbrev pub client_balance : Bytes → ℕ × Option Error
  client_balance addr = send_request (ask_balance addr) 0

  abbrev pub client_headers_by_height : HeadersByHeightArgs → BlockHeadersResponse × Option Error
  client_headers_by_height args = send_request (ask_headers_by_height args) zero_headers

  abbrev pub client_headers_id : HeadersIdArgs → BlockHeadersResponse × Option Error
  client_headers_id args = send_request (ask_headers_id args) zero_headers

  abbrev pub client_headers_after :
      HeadersByStartTimeStampArgs → BlockHeadersResponse × Option Error
  client_headers_after args = send_request (ask_headers_after args) zero_headers

  abbrev pub client_block_transactions : Bytes → SeqTransactionResponse × Option Error
  client_block_transactions id = send_request (ask_block_transactions id) zero_transactions

  abbrev pub client_block_transactions_of : NamespaceArgs → SeqTransactionResponse × Option Error
  client_block_transactions_of args =
      send_request (ask_block_transactions_of args) zero_transactions

  abbrev pub client_commitment_blocks : CommitmentArgs → List SequencerWarpBlock × Option Error
  client_commitment_blocks args = send_request (ask_commitment_blocks args) []

  abbrev pub client_accepted_window : ℤ × Option Error
  client_accepted_window = send_request ask_accepted_window (pos 0)

  -- What the closures of `WaitForBalance` and `WaitForTransaction` give to `rpc.Wait` of hypersdk,
  -- which calls them again until they stop it.
  abbrev pub balance_reached : Bytes → ℕ → Outcome Bool
  balance_reached addr min =
      let (balance, e) = client_balance addr in
      elim e [ some e' ↦ err e' | none ↦ ok (leb min balance) ]

  -- The variables `success` and `fee`.
  abbrev polled : Outcome TxStatus → Bool × ℕ → Outcome Bool × (Bool × ℕ)
  polled (ok s) v = (ok s.found, (s.success, s.fee))
  polled (err e) v = (err e, v)
  polled panic v = (panic, v)

  pub transaction_found : Bytes → Action (Bool × ℕ) Bool
  transaction_found id v = polled (client_tx id) v

  abbrev pub client_rollup_registry : List Bytes × Option Error
  client_rollup_registry = send_request ask_rollup_registry []

  abbrev pub client_rollup_info : Bytes → RollupInfo × Option Error
  client_rollup_info namespace = send_request (ask_rollup_info namespace) zero_rollup

  abbrev pub client_all_rollup_info : InfosByEpoch × Option Error
  client_all_rollup_info = send_request ask_all_rollup_info []

  abbrev pub client_valid_rollups : ℕ → List RollupInfo × Option Error
  client_valid_rollups epoch = send_request (ask_valid_rollups epoch) []

  abbrev pub client_epoch_exits : ℕ → Option (List EpochInfo) × Option Error
  client_epoch_exits epoch = send_request (ask_epoch_exits epoch) none

  abbrev pub client_builder : ℕ → Option Bytes × Option Error
  client_builder epoch = send_request (ask_builder epoch) none
