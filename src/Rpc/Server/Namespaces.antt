-- ===== src/Rpc/Server/Namespaces.antt =====
-- The transactions of a namespace are those of the block, picked by their namespace.
use nodekit_seq.Prelude.{
  ℕ, suc, ◌≡◌, ◌≢◌, ne→bytes_eq, refl, Bool-cases, inl, inr, List, [], ◌∷◌, ◌++◌, Bytes, bytes_eq,
  if◌then◌else◌,
}
use mathlib.Core.List.{append-nil}
use nodekit_seq.Outcome.{Outcome, ok}
use nodekit_seq.Controller.Acceptance.{
  TxAction, transfer, sequencer_msg, auction, rollup_register, epoch_exit, other, Tx,
}
use nodekit_seq.Archiver.{StatefulBlock}
use nodekit_seq.Rpc.{Controller, SeqTransaction, SeqTransactionResponse}
use nodekit_seq.Rpc.Server.{
  seq_transaction, list_actions, list_txs, list_actions_of, list_txs_of, block_transactions,
  block_transactions_by_namespace,
}

-- The transactions of a namespace, in order.
unfoldable pub in_namespace : Bytes → List SeqTransaction → List SeqTransaction
in_namespace ns [] = []
in_namespace ns (t ∷ ts) =
    let rest = in_namespace ns ts in if bytes_eq ns t.namespace then t ∷ rest else rest

in_namespace-append :
    (ns : Bytes) (ts us : List SeqTransaction)
    → in_namespace ns (ts ++ us) ≡ in_namespace ns ts ++ in_namespace ns us
unfolding in_namespace
in_namespace-append ns [] us = refl
in_namespace-append ns (t ∷ ts) us = elim (Bool-cases (bytes_eq ns t.namespace)) [
  | inl e ↦ rw (e, in_namespace-append ns ts us) refl
  | inr e ↦ rw (e, in_namespace-append ns ts us) refl
]

in_namespace_one :
    (ns : Bytes) (ts : List SeqTransaction) (t : SeqTransaction)
    → in_namespace ns (ts ++ (t ∷ []))
      ≡ (if bytes_eq ns t.namespace then in_namespace ns ts ++ (t ∷ []) else in_namespace ns ts)
unfolding in_namespace
in_namespace_one ns ts t = elim (Bool-cases (bytes_eq ns t.namespace)) [
  | inl e ↦ rw (in_namespace-append ns ts (t ∷ []), e) refl
  | inr e ↦ rw (in_namespace-append ns ts (t ∷ []), e) (append-nil (in_namespace ns ts))
]

list_actions_of-in_namespace :
    (ns tx_id : Bytes) (k : ℕ) (acts : List TxAction) (reply : List SeqTransaction)
    → list_actions_of ns tx_id k acts (in_namespace ns reply)
      ≡ in_namespace ns (list_actions tx_id k acts reply)
unfolding list_actions_of list_actions
list_actions_of-in_namespace ns tx_id k [] reply = refl
list_actions_of-in_namespace ns tx_id k (sequencer_msg msg ∷ acts) reply =
    rw (← in_namespace_one ns reply (seq_transaction tx_id k msg)) (
      list_actions_of-in_namespace ns tx_id (suc k) acts
        (reply ++ (seq_transaction tx_id k msg ∷ [])))
list_actions_of-in_namespace ns tx_id k (transfer t ∷ acts) reply =
    list_actions_of-in_namespace ns tx_id (suc k) acts reply
list_actions_of-in_namespace ns tx_id k (auction t ∷ acts) reply =
    list_actions_of-in_namespace ns tx_id (suc k) acts reply
list_actions_of-in_namespace ns tx_id k (rollup_register t ∷ acts) reply =
    list_actions_of-in_namespace ns tx_id (suc k) acts reply
list_actions_of-in_namespace ns tx_id k (epoch_exit t ∷ acts) reply =
    list_actions_of-in_namespace ns tx_id (suc k) acts reply
list_actions_of-in_namespace ns tx_id k (other ∷ acts) reply =
    list_actions_of-in_namespace ns tx_id (suc k) acts reply

list_txs_of-in_namespace :
    (ns : Bytes) (txs : List Tx) (reply : List SeqTransaction)
    → list_txs_of ns txs (in_namespace ns reply) ≡ in_namespace ns (list_txs txs reply)
unfolding list_txs_of list_txs
list_txs_of-in_namespace ns [] reply = refl
list_txs_of-in_namespace ns (tx ∷ txs) reply =
    rw (list_actions_of-in_namespace ns tx.id 0 tx.actions reply)
      (list_txs_of-in_namespace ns txs (list_actions tx.id 0 tx.actions reply))

module _ (c : Controller) (block_id : StatefulBlock → Outcome Bytes) where
  -- For a block that the archive has under an identifier and a height, both queries for transactions
  -- succeed, and those of a namespace are the ones of all its transactions whose namespace it is, in
  -- their order.
  pub block_transactions_by_namespace-in_namespace :
      (id ns own_id : Bytes) (height : ℕ) (blk : StatefulBlock)
      → id ≢ []
      → c.archived_block_by_id id ≡ ok blk
      → c.archived_block_by_height height ≡ ok blk
      → block_id blk ≡ ok own_id
      → (all : SeqTransactionResponse) × (block_transactions c id ≡ ok all)
        × (block_transactions_by_namespace c block_id (record { height = height; namespace = ns })
            ≡ ok (record { txs = in_namespace ns all.txs; block_id = own_id }))
  unfolding block_transactions block_transactions_by_namespace in_namespace
  block_transactions_by_namespace-in_namespace id ns own_id height blk named by_id by_height own = (
    record { txs = list_txs blk.txs []; block_id = id },
    rw (ne→bytes_eq id [] named, by_id) refl,
    rw (by_height, own, list_txs_of-in_namespace ns blk.txs []) refl,
  )
