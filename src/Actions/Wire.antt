-- ===== src/Actions/Wire.antt =====
-- The wire form of the actions: `Marshal` and the `Unmarshal` functions of package actions, over the
-- packer of hypersdk/codec.
pub mod Fields
pub mod RoundTrip
pub mod Tape
use nodekit_seq.Prelude.{
  ℕ, ◌≡◌, ◌≢◌, ◌≤◌, Bool, true, false, Option, none, some, List, [], ◌∷◌, ◌++◌, Bytes, length,
}
use nodekit_seq.Prelude.Int.{ℤ, pos, negsuc}
use nodekit_seq.Outcome.{Error, Outcome, ok, err, panic, from_pair}
use nodekit_seq.Vm.{Address, EpochInfo, RollupInfo}
use nodekit_seq.Actions.Transfer.{Transfer, max_memo_size}
use nodekit_seq.Actions.SequencerMsg.{SequencerMsg}
use nodekit_seq.Actions.Auction.{AuctionInfo, Auction}
use nodekit_seq.Actions.EpochExit.{EpochExit}
use nodekit_seq.Actions.RollupRegistration.{RollupRegistration}

-- `codec.Packer`, which keeps its first error; a read after an error gives a zero value. A write that
-- would go over the limit of the writer is an error.
pub record Packer (P : Type 0) : Type 0 where
  pub pack_address : Address → P → P
  pub pack_uint64 : ℕ → P → P
  pub pack_bytes : Bytes → P → P
  pub pack_int : ℤ → P → P
  pub unpack_address : P → Address × P
  pub unpack_uint64 : Bool → P → ℕ × P
  pub unpack_bytes : ℤ → Bool → P → Bytes × P
  pub unpack_int : Bool → P → ℤ × P
  pub packer_err : P → Option Error
  -- `NewWriter` of an initial size and a limit, and `NewReader` of a limit on the `Bytes` of a packer.
  pub new_writer : ℕ → ℕ → P
  pub new_reader : ℕ → P → P
  -- `consts.NetworkSizeLimit`.
  pub network_size_limit : ℕ
  -- The parts of hypersdk/actions.
  pub marshal_epoch_info : EpochInfo → P → P
  pub unmarshal_epoch_info : P → Outcome EpochInfo × P
  pub marshal_rollup_info : RollupInfo → P → P
  pub unmarshal_rollup_info : P → Outcome RollupInfo × P

module _ {P : Type 0} (packer : Packer P) where
  open packer use {
    pack_address, pack_uint64, pack_bytes, pack_int, unpack_address, unpack_uint64, unpack_bytes,
    unpack_int, packer_err, marshal_epoch_info, unmarshal_epoch_info, marshal_rollup_info,
    unmarshal_rollup_info,
  }

  unfoldable pub marshal_transfer : Transfer → P → P
  marshal_transfer t p = pack_bytes t.memo (pack_uint64 t.value (pack_address t.to p))

  unfoldable pub unmarshal_transfer : P → Outcome Transfer × P
  unmarshal_transfer p =
      let (to, p₁) = unpack_address p in
      let (value, p₂) = unpack_uint64 true p₁ in
      let (memo, p₃) = unpack_bytes (pos max_memo_size) false p₂ in
      (from_pair (record { to = to; value = value; memo = memo }) (packer_err p₃), p₃)

  unfoldable pub marshal_msg : SequencerMsg → P → P
  marshal_msg msg p =
      pack_int msg.relayer_id
        (pack_bytes msg.chain_id (pack_bytes msg.payload (pack_address msg.from_address p)))

  unfoldable pub unmarshal_msg : P → Outcome SequencerMsg × P
  unmarshal_msg p =
      let (from, p₁) = unpack_address p in
      let (payload, p₂) = unpack_bytes (negsuc 0) true p₁ in
      let (chain, p₃) = unpack_bytes (negsuc 0) true p₂ in
      let (relayer, p₄) = unpack_int false p₃ in
      (
        from_pair
            (record {
              chain_id = chain;
              payload = payload;
              from_address = from;
              relayer_id = relayer;
            })
            (packer_err p₄),
        p₄,
      )

  unfoldable pub marshal_auction_info : AuctionInfo → P → P
  marshal_auction_info info p =
      pack_address info.builder_seq_address
        (pack_uint64 info.bid_price (pack_uint64 info.epoch_number p))

  unfoldable pub unmarshal_auction_info : P → Outcome AuctionInfo × P
  unmarshal_auction_info p =
      let (epoch, p₁) = unpack_uint64 true p in
      let (price, p₂) = unpack_uint64 true p₁ in
      let (builder, p₃) = unpack_address p₂ in
      (
        from_pair
            (record { epoch_number = epoch; bid_price = price; builder_seq_address = builder })
            (packer_err p₃),
        p₃,
      )

  unfoldable pub marshal_auction : Auction → P → P
  marshal_auction a p =
      pack_bytes a.builder_signature
        (pack_bytes a.builder_public_key (marshal_auction_info a.auction_info p))

  -- What follows an `AuctionInfo`, or an error of it.
  abbrev pub auction_rest : Outcome AuctionInfo × P → Outcome Auction × P
  auction_rest (ok info, p) =
      let (key, p₁) = unpack_bytes (pos 48) true p in
      let (sig, p₂) = unpack_bytes (pos 96) true p₁ in
      (
        from_pair
            (record { auction_info = info; builder_public_key = key; builder_signature = sig })
            (packer_err p₂),
        p₂,
      )
  auction_rest (err e, p) = (err e, p)
  auction_rest (panic, p) = (panic, p)

  unfoldable pub unmarshal_auction : P → Outcome Auction × P
  unmarshal_auction p = auction_rest (unmarshal_auction_info p)

  unfoldable pub marshal_epoch_exit : EpochExit → P → P
  marshal_epoch_exit e p = pack_int e.op_code (pack_uint64 e.epoch (marshal_epoch_info e.info p))

  -- The error of the packer is not looked at.
  abbrev epoch_exit_rest : Outcome EpochInfo × P → Outcome EpochExit × P
  epoch_exit_rest (ok info, p) =
      let (epoch, p₁) = unpack_uint64 true p in
      let (op, p₂) = unpack_int false p₁ in
      (ok (record { info = info; epoch = epoch; op_code = op }), p₂)
  epoch_exit_rest (err e, p) = (err e, p)
  epoch_exit_rest (panic, p) = (panic, p)

  unfoldable pub unmarshal_epoch_exit : P → Outcome EpochExit × P
  unmarshal_epoch_exit p = epoch_exit_rest (unmarshal_epoch_info p)

  unfoldable pub marshal_rollup_register : RollupRegistration → P → P
  marshal_rollup_register r p =
      pack_int r.op_code (pack_bytes r.namespace (marshal_rollup_info r.info p))

  -- Here too.
  abbrev rollup_register_rest : Outcome RollupInfo × P → Outcome RollupRegistration × P
  rollup_register_rest (ok info, p) =
      let (namespace, p₁) = unpack_bytes (negsuc 0) false p in
      let (op, p₂) = unpack_int false p₁ in
      (ok (record { info = info; namespace = namespace; op_code = op }), p₂)
  rollup_register_rest (err e, p) = (err e, p)
  rollup_register_rest (panic, p) = (panic, p)

  unfoldable pub unmarshal_rollup_register : P → Outcome RollupRegistration × P
  unmarshal_rollup_register p = rollup_register_rest (unmarshal_rollup_info p)
