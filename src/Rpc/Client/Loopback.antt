-- ===== src/Rpc/Client/Loopback.antt =====
-- A client whose requests reach the server of a node.
use nodekit_seq.Prelude.{length, ◌<◌, ◌^◌, ◌≡◌, refl, true, Option, none, some, Bytes}
use nodekit_seq.Outcome.{Error, tx_not_found, Outcome, ok, err, map_ok}
use nodekit_seq.Vm.{Address}
use nodekit_seq.Storage.Transactions.{TxResult, get_transaction}
use nodekit_seq.Genesis.{Rules}
use nodekit_seq.Prelude.Int.{IsInt64}
use nodekit_seq.RollupRegistry.{Lifecycle}
use nodekit_seq.Controller.Acceptance.{Tx, TxOutcome, Block, Batches, Node as NodeState, accepted}
use nodekit_seq.Controller.Acceptance.Stored.{
  tx_result, Listed, OwnKeys, BatchLaws, get_transaction-accepted,
}
use nodekit_seq.Archiver.{StatefulBlock}
use nodekit_seq.Rpc.{
  Controller, SubmitMsgTxArgs, Request, ask_genesis, ask_tx, ask_balance, ask_headers_by_height,
  ask_headers_id, ask_headers_after, ask_block_transactions, ask_block_transactions_of,
  ask_commitment_blocks, ask_accepted_window, ask_rollup_registry, ask_rollup_info,
  ask_all_rollup_info, ask_valid_rollups, ask_epoch_exits, ask_builder, ask_submit_msg_tx, Reply,
}
use nodekit_seq.Rpc.Server.{
  genesis_reply, tx_reply, balance_reply, headers_by_height_reply, headers_id_reply,
  headers_after_reply, block_transactions, block_transactions_by_namespace, commitment_blocks_reply,
  accepted_window_reply, rollup_registry_reply, rollup_info_reply, all_rollup_info,
  valid_rollups_reply, epoch_exits_reply, builder_reply,
}
use nodekit_seq.Rpc.Node.{Parts, node}
use nodekit_seq.Rpc.Client.{
  Requester, TxStatus, missing_status, zero_result, client_tx, contains_text, has_prefix,
  tx_not_found_text,
}

-- The handler of each method, with what handlers take of hypersdk, and the submission.
pub serve :
    Controller
    → (Bytes → Outcome Address)
    → (StatefulBlock → Outcome Bytes)
    → (SubmitMsgTxArgs → Outcome Bytes)
    → (q : Request) → Outcome (Reply q)
serve c parse block_id submit ask_genesis = map_ok some (genesis_reply c)
serve c parse block_id submit (ask_tx id) = tx_reply c id
serve c parse block_id submit (ask_balance addr) = balance_reply c parse addr
serve c parse block_id submit (ask_headers_by_height args) = headers_by_height_reply c args
serve c parse block_id submit (ask_headers_id args) = headers_id_reply c args
serve c parse block_id submit (ask_headers_after args) = headers_after_reply c args
serve c parse block_id submit (ask_block_transactions id) = block_transactions c id
serve c parse block_id submit (ask_block_transactions_of args) =
    block_transactions_by_namespace c block_id args
serve c parse block_id submit (ask_commitment_blocks args) = commitment_blocks_reply c args
serve c parse block_id submit ask_accepted_window = accepted_window_reply c
serve c parse block_id submit ask_rollup_registry = rollup_registry_reply c
serve c parse block_id submit (ask_rollup_info namespace) = rollup_info_reply c namespace
serve c parse block_id submit ask_all_rollup_info = all_rollup_info c
serve c parse block_id submit (ask_valid_rollups epoch) = valid_rollups_reply c epoch
serve c parse block_id submit (ask_epoch_exits epoch) = epoch_exits_reply c epoch
serve c parse block_id submit (ask_builder epoch) = builder_reply c epoch
serve c parse block_id submit (ask_submit_msg_tx args) = submit args

-- JSON-RPC brings a reply back as it was, and an error by its text.
pub record Connected (requester : Requester) (handle : (q : Request) → Outcome (Reply q))
    : Type 0 where
  pub answers :
      (q : Request) (z : Reply q) {r : Reply q}
      → handle q ≡ ok r
      → requester.send_request q z ≡ (r, none)
  pub fails :
      (q : Request) (z : Reply q) {e : Error}
      → handle q ≡ err e
      → (f : Error) × (requester.send_request q z ≡ (z, some f))
        × (requester.error_text f ≡ requester.error_text e)
  pub not_found_text : requester.error_text tx_not_found ≡ tx_not_found_text

-- What a client is told of a result that is found or not.
abbrev pub told : Option TxResult → TxStatus
told none = missing_status
told (some r) = record { found = true; success = r.success; timestamp = r.timestamp; fee = r.fee }

contains_itself : contains_text tx_not_found_text tx_not_found_text ≡ true
unfolding contains_text has_prefix
contains_itself = refl

module _ {S D B T : Type 0} (p : Parts S D B T) (parse : Bytes → Outcome Address)
    (block_id : StatefulBlock → Outcome Bytes) (submit : SubmitMsgTxArgs → Outcome Bytes)
    (requester : Requester)
    (connected : Connected requester (serve (node p) parse block_id submit)) where
  -- A client of a node is told of a transaction what the node's metadata database has: its success,
  -- time and fee, or, without an error, that it is not found.
  pub client_tx-get_transaction :
      (id : Bytes) (found : Option TxResult)
      → get_transaction p.ops id p.meta_db ≡ ok found
      → client_tx requester id ≡ ok (told found)
  unfolding client_tx tx_reply serve
  client_tx-get_transaction id (some r) h =
      let served : tx_reply (node p) id ≡ ok r = rw h refl in
      rw (connected.answers (ask_tx id) zero_result {r = r} served) refl
  client_tx-get_transaction id none h =
      let refused : tx_reply (node p) id ≡ err tx_not_found = rw h refl in
      let (f, failed, text) = connected.fails (ask_tx id) zero_result {e = tx_not_found} refused in
      let recognised : contains_text (requester.error_text f) tx_not_found_text ≡ true =
        rw (text, connected.not_found_text) contains_itself in
      rw (failed, recognised) refl

  module _ {C : Type 0} (batches : Batches C D) (laws : BatchLaws batches p.ops) (life : Lifecycle)
      (rules : Rules) where
    -- After a block is accepted without error by a node that stores results, a client of the node is
    -- told of each of its transactions, all with keys of their own, that it is found, with its
    -- success, the block's time and its fee, for five units, a 64-bit time and a fee below 2^64.
    pub client_tx-accepted :
        (blk : Block) (before after : NodeState D) (t : Tx) (r : TxOutcome)
        → OwnKeys blk.txs
        → Listed t r blk.txs blk.results
        → length r.units ≡ 5
        → IsInt64 blk.timestamp
        → r.fee < 2 ^ 64
        → accepted batches life rules true blk before ≡ (ok tt, after)
        → after.db ≡ p.meta_db
        → client_tx requester t.id
          ≡ ok
              (record { found = true; success = r.success; timestamp = blk.timestamp; fee = r.fee })
    client_tx-accepted blk before after t r own listed five time small h same =
        client_tx-get_transaction t.id (some (tx_result blk.timestamp r)) (
          rw (← same) (
            get_transaction-accepted batches p.ops laws life rules blk before after t r own listed
              five time small h))
