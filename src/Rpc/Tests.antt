-- ===== src/Rpc/Tests.antt =====
-- A node that has accepted a registration, its server and a client of it.
use nodekit_seq.Prelude.{
  ap, sym, ◌∙◌, ℕ, ◌+◌, ◌/◌, ◌≡◌, refl, true, false, inl, inr, Option, none, some, List, [], ◌∷◌,
  Bytes, replicate, bytes_eq, arith,
}
use nodekit_seq.Prelude.Int.{pos}
use nodekit_seq.Outcome.{ok-injective, Error, tx_not_found, external, Outcome, ok, err, panic}
use nodekit_seq.Vm.{RollupInfo}
use nodekit_seq.Vm.Example.{
  Store, example_vm, example-StateLaws, example-CodecLaws, read, encode, decode,
}
use nodekit_seq.Genesis.{default_genesis}
use nodekit_seq.Storage.Keys.{tx_key}
use nodekit_seq.Storage.ReadState.{ReadState}
use nodekit_seq.Storage.Transactions.{MetaDb, store_transaction}
use nodekit_seq.Storage.Rollups.{
  get_rollup_info, set_rollup_info, get_rollup_registry, set_rollup_registry, inner_get_rollup_info,
  inner_get_registry,
}
use nodekit_seq.Actions.Utils.{contains, epoch, authorization_checks}
use nodekit_seq.Actions.RollupRegistration.{execute, create_rollup}
use nodekit_seq.Actions.SequencerMsg.{SequencerMsg}
use nodekit_seq.Controller.Acceptance.{
  sequencer_msg, rollup_register, other, TxOutcome, Block, Batches, Node as NodeState, collect,
  accept_txs, accepted,
}
use nodekit_seq.Controller.Acceptance.Stored.{OwnKeys, BatchLaws}
use nodekit_seq.Storage.View.{get_value-insert_self, insert-OnlyAt}
use nodekit_seq.Chain.{here, next, registered}
use nodekit_seq.Chain.Invariant.{Sound, fresh_Sound}
use nodekit_seq.Archiver.{StatefulBlock, BlockCodec, block_by_id, block_by_height}
use nodekit_seq.Archiver.Example.{Table, example_orm, keep}
use nodekit_seq.Samples.{
  alice, rules, rollup_name, registration, example_bls, example_life, example-KeyLaws,
}
use nodekit_seq.Rpc.{InfosByEpoch, SeqTransactionResponse, Request, Reply}
use nodekit_seq.Rpc.Server.{
  all_rollup_info, infos_at, block_transactions, block_transactions_by_namespace,
}
use nodekit_seq.Rpc.Server.Registry.{Recorded, starting_at}
use nodekit_seq.Rpc.Server.Namespaces.{in_namespace, block_transactions_by_namespace-in_namespace}
use nodekit_seq.Rpc.Node.{Parts, node}
use nodekit_seq.Rpc.Node.Registered.{all_rollup_info-Reaches}
use nodekit_seq.Rpc.Fees.{msg_max_fee, estimated_fee}
use nodekit_seq.Rpc.Fees.Total.{fees_total, estimated_fee-total}
use nodekit_seq.Rpc.Client.{Requester, client_tx, tx_not_found_text}
use nodekit_seq.Rpc.Client.Loopback.{serve, Connected, client_tx-accepted}

-- The state after the registration.
abbrev after : Store
after = (execute example_vm rules 0 alice registration []).1

abbrev served_after : ReadState
served_after (k ∷ []) =
    ((example_vm.get_value k after).0 ∷ [], (example_vm.get_value k after).1 ∷ [])
served_after keys = ([], [])

abbrev example_db : MetaDb Store
example_db = record {
  get = read;
  put = example_vm.insert;
  dimensions_len = 5;
  dimensions_bytes = λ u. u;
  unpack_dimensions = λ v. ok v;
}

-- A batch is written as it is.
abbrev example_batches : Batches Store Store
example_batches = record { ops = example_db; new_batch = []; write = λ b d. ok b }

example-BatchLaws : BatchLaws example_batches example_db
example-BatchLaws = record {
  ops_laws = record {
    get-put = λ k v d h. get_value-insert_self example_vm example-StateLaws k v d h;
    length-bytes = λ u h. h;
    unpack-bytes = λ u h. refl;
  };
  get-put_other = λ k v j b ne h. insert-OnlyAt example_vm example-StateLaws k v b h j ne;
  get-write = λ k v b d h found. rw (← ok-injective h) found;
  decodes = λ v. refl;
}

abbrev failed : TxOutcome
failed = record { success = false; units = replicate 5 1; fee = 9 }

-- A block of two transactions, of which the second failed.
abbrev example_block : Block
example_block = record {
  timestamp = pos 1_700;
  hght = 13;
  txs =
      record { id = replicate 32 1; actions = [] }
      ∷ record { id = replicate 32 2; actions = rollup_register registration ∷ [] }
      ∷ [];
  results = record { success = true; units = replicate 5 1; fee = 8 } ∷ failed ∷ [];
}

abbrev example_node : NodeState Store
example_node = record {
  metrics = record {
    transfers = 0;
    sequencer_msgs = 0;
    auctions = 0;
    rollup_registers = 0;
    epoch_exits = 0;
  };
  cache = [];
  db = [];
}

abbrev node_after : NodeState Store
node_after = (accepted example_batches example_life rules true example_block example_node).1

abbrev message : Bytes → SequencerMsg
message ns = record { chain_id = ns; payload = 5 ∷ []; from_address = alice; relayer_id = pos 0 }

-- One block of two transactions, in three namespaces.
abbrev stored_block : StatefulBlock
stored_block = record {
  prnt = [];
  txs =
      record { id = 1 ∷ []; actions = sequencer_msg (message (0xAB ∷ [])) ∷ other ∷ [] }
      ∷ record {
        id = 2 ∷ [];
        actions =
            other ∷ sequencer_msg (message (0xCD ∷ [])) ∷ sequencer_msg (message (0xAB ∷ [])) ∷ [];
      }
      ∷ [];
}

abbrev example_codec : BlockCodec
example_codec = record {
  unmarshal_block = λ bs. ok stored_block;
  block_id = λ blk. ok (9 ∷ []);
  id_from_string = λ id. ok id;
}

abbrev archive : Table
archive =
    record {
      block_id = 9 ∷ [];
      parent = [];
      timestamp = pos 30;
      height = 3;
      l1_head = pos 0;
      bytes = [];
    }
    ∷ []

abbrev parts : Parts Store Store Table (Table × Table)
parts = record {
  inner = record {
    network_id = 1;
    chain_id = [];
    unit_prices = ok [];
    name_spaces_price = λ nss. ok [];
    accepted_block_window = pos 0;
  };
  genesis = default_genesis;
  vm = example_vm;
  read_state = served_after;
  ops = example_db;
  meta_db = node_after.db;
  orm = example_orm;
  archive = archive;
  codec = example_codec;
  keccak = λ bs. replicate 32 7;
  life = example_life;
  rollups = [];
}

fresh : Sound example_vm []
unfolding read
fresh = fresh_Sound example_vm [] refl (λ d. refl)

all_rollup_info-Reaches_example :
    (infos : List RollupInfo) × Recorded (node parts) (rollup_name ∷ []) infos
    × ((out : InfosByEpoch) × (all_rollup_info (node parts) ≡ ok out)
        × ((d : ℕ) → infos_at d out ≡ starting_at d infos))
unfolding execute create_rollup authorization_checks contains epoch get_rollup_info set_rollup_info
    get_rollup_registry set_rollup_registry inner_get_rollup_info inner_get_registry read encode
    decode bytes_eq default_genesis
all_rollup_info-Reaches_example =
    all_rollup_info-Reaches parts after (λ k. refl) example-StateLaws example-KeyLaws
      example-CodecLaws example_bls rules (rollup_name ∷ []) fresh
      (next here (registered registration 0 alice)) refl

-- The namespace "ab" in hexadecimal has the first and the last message.
block_transactions_by_namespace-in_namespace_example :
    (all : SeqTransactionResponse) × (block_transactions (node parts) (9 ∷ []) ≡ ok all)
    × (block_transactions_by_namespace
          (node parts)
          example_codec.block_id
          (record { height = 3; namespace = 0x61 ∷ 0x62 ∷ [] })
        ≡ ok (record { txs = in_namespace (0x61 ∷ 0x62 ∷ []) all.txs; block_id = 9 ∷ [] }))
unfolding block_by_id block_by_height keep bytes_eq
block_transactions_by_namespace-in_namespace_example =
    block_transactions_by_namespace-in_namespace (node parts) example_codec.block_id (9 ∷ [])
      (0x61 ∷ 0x62 ∷ []) (9 ∷ []) 3 stored_block (λ p. ground arith) refl refl refl

estimated_fee-total_example :
    (msg_max_fee (ok 100) ((1 ∷ [], 7) ∷ []) (ok (3 ∷ [])) ≡ ok ((100 + 21) + (100 + 21) / 5))
    × (estimated_fee (ok 100) ((1 ∷ [], 7) ∷ []) (ok (3 ∷ [])) 4
        ≡ ok ((100 + 21 + 4) + (100 + 21 + 4) / 5))
unfolding fees_total
estimated_fee-total_example =
    estimated_fee-total 100 4 ((1 ∷ [], 7) ∷ []) (3 ∷ []) refl (omega arith)

-- A requester that calls the handlers.
abbrev text : Error → Bytes
text tx_not_found = tx_not_found_text
text e = []

abbrev handle : (q : Request) → Outcome (Reply q)
handle q = serve (node parts) (λ addr. ok addr) example_codec.block_id (λ args. ok []) q

abbrev passed_on : {A : Type 0} → A → Outcome A → A × Option Error
passed_on z (ok r) = (r, none)
passed_on z (err e) = (z, some e)
passed_on z panic = (z, some (external 0))

abbrev direct : Requester
direct = record { send_request = λ q z. passed_on z (handle q); error_text = text }

direct-Connected : Connected direct handle
direct-Connected = record {
  answers = λ q z h. rw h refl;
  fails = λ q z {e} h. (e, rw h refl, refl);
  not_found_text = refl;
}

own_keys : OwnKeys example_block.txs
unfolding tx_key
own_keys = (
  λ t m e. elim m [
    | inl s ↦
        let clash : tx_key (replicate 32 1) ≡ tx_key (replicate 32 2) =
          e ∙ ap (λ u. tx_key u.id) (sym s) in
        ground arith
    | inr n ↦ elim n [ ]
  ],
  (λ t m e. elim m [ ], tt),
)

client_tx-accepted_example :
    client_tx direct (replicate 32 2)
    ≡ ok (record { found = true; success = false; timestamp = pos 1_700; fee = 9 })
unfolding accepted accept_txs store_transaction collect epoch default_genesis
client_tx-accepted_example =
    client_tx-accepted parts (λ addr. ok addr) example_codec.block_id (λ args. ok []) direct
      direct-Connected example_batches example-BatchLaws example_life rules example_block
      example_node node_after
      (record { id = replicate 32 2; actions = rollup_register registration ∷ [] }) failed own_keys
      (inr (inl (refl, refl))) refl (omega arith) (omega arith) refl refl
