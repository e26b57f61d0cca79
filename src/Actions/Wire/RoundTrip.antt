-- ===== src/Actions/Wire/RoundTrip.antt =====
-- What was packed is unpacked.
use nodekit_seq.Prelude.{◌≡◌, refl, ◌≢◌, ◌≤◌, true, false, [], ◌∷◌, List, replicate, length}
use nodekit_seq.Prelude.Int.{pos, negsuc}
use nodekit_seq.Outcome.{ok}
use nodekit_seq.Actions.Transfer.{Transfer, max_memo_size}
use nodekit_seq.Actions.SequencerMsg.{SequencerMsg}
use nodekit_seq.Actions.Auction.{Auction}
use nodekit_seq.Actions.EpochExit.{EpochExit}
use nodekit_seq.Actions.RollupRegistration.{RollupRegistration}
use nodekit_seq.Actions.Wire.{
  Packer, unmarshal_transfer, unmarshal_msg, unmarshal_auction, unmarshal_auction_info,
  unmarshal_epoch_exit, unmarshal_rollup_register,
}
use nodekit_seq.Actions.Wire.Fields.{
  Field, address, word, bytes, int, epoch_info, rollup_info, Formats, Under, Present, PackerLaws,
}

-- The fields of each action, in the order of its `Marshal`.
abbrev pub transfer_fields : Transfer → List Field
transfer_fields t = address t.to ∷ word t.value ∷ bytes t.memo ∷ []

abbrev pub msg_fields : SequencerMsg → List Field
msg_fields m = address m.from_address ∷ bytes m.payload ∷ bytes m.chain_id ∷ int m.relayer_id ∷ []

abbrev pub auction_fields : Auction → List Field
auction_fields a =
    word a.auction_info.epoch_number
    ∷ word a.auction_info.bid_price
    ∷ address a.auction_info.builder_seq_address
    ∷ bytes a.builder_public_key
    ∷ bytes a.builder_signature
    ∷ []

abbrev pub exit_fields : EpochExit → List Field
exit_fields e = epoch_info e.info ∷ word e.epoch ∷ int e.op_code ∷ []

abbrev pub registration_fields : RollupRegistration → List Field
registration_fields r = rollup_info r.info ∷ bytes r.namespace ∷ int r.op_code ∷ []

module _ {P : Type 0} (packer : Packer P) (formats : Formats)
    (laws : PackerLaws packer formats) where
  -- Each `Unmarshal` gives the action back whose fields are in front of the reader, if its required
  -- fields are there.
  pub unmarshal_transfer-Reads :
      (t : Transfer) (r : P)
      → t.to ≢ replicate 33 0
      → t.value ≢ 0
      → length t.memo ≤ max_memo_size
      → laws.Reads (transfer_fields t) r
      → (unmarshal_transfer packer r).0 ≡ ok t
  unfolding unmarshal_transfer
  unmarshal_transfer-Reads t r some_to positive fits reads =
      let (to, r₁) = laws.read_address _ _ t.to some_to reads in
      let (value, r₂) = laws.read_uint64 _ _ t.value positive r₁ in
      let (memo, r₃) = laws.read_bytes _ _ t.memo (pos max_memo_size) false fits tt r₂ in
      rw (laws.read_none _ _ r₃, to, value, memo) refl

  pub unmarshal_msg-Reads :
      (m : SequencerMsg) (r : P)
      → m.from_address ≢ replicate 33 0
      → m.payload ≢ []
      → m.chain_id ≢ []
      → laws.Reads (msg_fields m) r
      → (unmarshal_msg packer r).0 ≡ ok m
  unfolding unmarshal_msg
  unmarshal_msg-Reads m r some_from some_payload some_chain reads =
      let (from, r₁) = laws.read_address _ _ m.from_address some_from reads in
      let (payload, r₂) = laws.read_bytes _ _ m.payload (negsuc 0) true tt some_payload r₁ in
      let (chain, r₃) = laws.read_bytes _ _ m.chain_id (negsuc 0) true tt some_chain r₂ in
      let (relayer, r₄) = laws.read_int _ _ m.relayer_id r₃ in
      rw (laws.read_none _ _ r₄, from, payload, chain, relayer) refl

  pub unmarshal_auction-Reads :
      (a : Auction) (r : P)
      → a.auction_info.epoch_number ≢ 0
      → a.auction_info.bid_price ≢ 0
      → a.auction_info.builder_seq_address ≢ replicate 33 0
      → Under (pos 48) a.builder_public_key
      → Present true a.builder_public_key
      → Under (pos 96) a.builder_signature
      → Present true a.builder_signature
      → laws.Reads (auction_fields a) r
      → (unmarshal_auction packer r).0 ≡ ok a
  unfolding unmarshal_auction unmarshal_auction_info
  unmarshal_auction-Reads a r epoch_ne price_ne some_builder key_short some_key sig_short some_sig
        reads =
      let info = a.auction_info in
      let (epoch, r₁) = laws.read_uint64 _ _ info.epoch_number epoch_ne reads in
      let (price, r₂) = laws.read_uint64 _ _ info.bid_price price_ne r₁ in
      let (builder, r₃) = laws.read_address _ _ info.builder_seq_address some_builder r₂ in
      let (key, r₄) =
        laws.read_bytes _ _ a.builder_public_key (pos 48) true key_short some_key r₃ in
      let (sig, r₅) = laws.read_bytes _ _ a.builder_signature (pos 96) true sig_short some_sig r₄ in
      rw (laws.read_none _ _ r₃, laws.read_none _ _ r₅, epoch, price, builder, key, sig) refl

  pub unmarshal_epoch_exit-Reads :
      (e : EpochExit) (r : P)
      → e.epoch ≢ 0
      → laws.Reads (exit_fields e) r
      → (unmarshal_epoch_exit packer r).0 ≡ ok e
  unfolding unmarshal_epoch_exit
  unmarshal_epoch_exit-Reads e r epoch_ne reads =
      let (info, r₁) = laws.read_epoch_info _ _ e.info reads in
      let (epoch, r₂) = laws.read_uint64 _ _ e.epoch epoch_ne r₁ in
      let (op, r₃) = laws.read_int _ _ e.op_code r₂ in rw (info, epoch, op) refl

  pub unmarshal_rollup_register-Reads :
      (g : RollupRegistration) (r : P)
      → laws.Reads (registration_fields g) r
      → (unmarshal_rollup_register packer r).0 ≡ ok g
  unfolding unmarshal_rollup_register
  unmarshal_rollup_register-Reads g r reads =
      let (info, r₁) = laws.read_rollup_info _ _ g.info reads in
      let (namespace, r₂) = laws.read_bytes _ _ g.namespace (negsuc 0) false tt tt r₁ in
      let (op, r₃) = laws.read_int _ _ g.op_code r₂ in rw (info, namespace, op) refl
