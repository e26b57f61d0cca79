-- ===== src/Actions/Auction/Tests.antt =====
-- Bob's bid for epoch 1, submitted by Carol.
use nodekit_seq.Prelude.{
  ◌+◌, ◌^◌, ◌≤◌, ◌<◌, ◌≡◌, refl, ◌≢◌, some, [], ◌∷◌, ◌++◌, bytes_eq, bytes_eq→ne, put_be, from_be,
  replicate, arith,
}
use nodekit_seq.Outcome.{ok}
use nodekit_seq.Vm.{Address}
use nodekit_seq.Vm.Example.{Store, example_vm, example-StateLaws, example-MathLaws, read}
use nodekit_seq.Encoding.{uint64, append_uint64, copy_at}
use nodekit_seq.Genesis.{default_genesis}
use nodekit_seq.Storage.Keys.{balance_key}
use nodekit_seq.Storage.ReadState.{ReadState}
use nodekit_seq.Storage.Balance.{get_balance, sub_balance, add_balance}
use nodekit_seq.Storage.Arcadia.{
  store_arcadia_bid_info, get_arcadia_bid_value, get_arcadia_builder_info_and_signature,
  get_arcadia_builder_from_state,
}
use nodekit_seq.Actions.Utils.{
  contains, contains_address, arcadia_fund_address, is_white_listed, epoch,
}
use nodekit_seq.Actions.Auction.{Auction, auction_message, state_keys, checks, settle_bid, execute}
use nodekit_seq.Actions.Auction.Effect.{Valid, execute-Valid}
use nodekit_seq.Actions.Auction.Settlement.{BlsLaws, execute_pays, execute_records}
use nodekit_seq.Actions.Auction.Frame.{auction_frame}
use nodekit_seq.Samples.{carol, rules, example_bls, example-KeyLaws}

-- The account of the key, which holds 50.
abbrev builder : Address
builder = replicate 33 1

abbrev bid : Auction
bid = record {
  auction_info = record { epoch_number = 1; bid_price = 30; builder_seq_address = builder };
  builder_public_key = replicate 48 1;
  builder_signature = put_be 8 1 ++ (put_be 8 30 ++ replicate 80 0);
}

abbrev before : Store
before = (balance_key builder, some (put_be 8 50)) ∷ []

abbrev after : Store
after = (execute example_bls example_vm rules 0 bid carol before).1

example-BlsLaws : BlsLaws example_bls
example-BlsLaws = record {
  length-public_key = λ b k h. ground arith;
  length-signature = λ b s h. ground arith;
}

serve : ReadState
serve (k ∷ []) = ((example_vm.get_value k after).0 ∷ [], (example_vm.get_value k after).1 ∷ [])
serve keys = ([], [])

builder-ne-fund : builder ≢ arcadia_fund_address
unfolding bytes_eq
builder-ne-fund = bytes_eq→ne builder arcadia_fund_address refl

execute_pays_example :
    (30 ≤ 50)
    × (0 + 30 < 2 ^ 64)
    × (get_balance example_vm builder after ≡ ok 20)
    × (get_balance example_vm arcadia_fund_address after ≡ ok 30)
    × ((b : Address)
        → b ≢ builder
        → b ≢ arcadia_fund_address
        → get_balance example_vm b after ≡ get_balance example_vm b before)
unfolding execute checks settle_bid auction_message is_white_listed contains_address epoch
    get_balance sub_balance add_balance store_arcadia_bid_info copy_at uint64 append_uint64 read
    bytes_eq put_be from_be balance_key default_genesis
execute_pays_example =
    execute_pays example_bls example_vm example-StateLaws rules 0 example-MathLaws example-KeyLaws
      bid carol 50 0 before after builder-ne-fund refl refl refl

execute_records_example :
    (get_arcadia_bid_value example_vm 1 after ≡ ok 30)
    × (get_arcadia_builder_info_and_signature example_vm 1 after
        ≡ ok (bid.builder_public_key, bid.builder_signature))
    × (get_arcadia_builder_from_state example_vm serve 1 ≡ ok (some (bid.builder_public_key)))
unfolding execute checks settle_bid auction_message is_white_listed contains_address epoch
    get_balance sub_balance add_balance store_arcadia_bid_info copy_at uint64 append_uint64 read
    bytes_eq put_be from_be balance_key default_genesis serve
execute_records_example =
    execute_records example_bls example_vm example-StateLaws rules 0 bid carol serve before after
      example-BlsLaws (omega arith) (λ k. refl) refl

execute-Valid_example :
    Valid example_bls example_vm rules 0 bid carol
    × (settle_bid example_bls example_vm bid before ≡ (ok tt, after))
unfolding execute checks settle_bid auction_message is_white_listed contains_address epoch
    get_balance sub_balance add_balance store_arcadia_bid_info copy_at uint64 append_uint64 read
    bytes_eq put_be from_be balance_key default_genesis
execute-Valid_example = execute-Valid example_bls example_vm rules 0 bid carol before after refl

auction_frame_example :
    example_vm.get_value (balance_key carol) after ≡ example_vm.get_value (balance_key carol) before
unfolding contains state_keys bytes_eq balance_key put_be
auction_frame_example =
    auction_frame example_bls example_vm rules 0 example-StateLaws bid carol before
      (balance_key carol) refl
