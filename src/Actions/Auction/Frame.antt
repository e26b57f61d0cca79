-- ===== src/Actions/Auction/Frame.antt =====
-- What a bid can touch.
use nodekit_seq.Prelude.{
  ℕ, ◌+◌, ◌%◌, ◌^◌, ◌≡◌, ◌≢◌, refl, ◌∙◌, ap, Bool, true, false, not, Bytes, bytes_eq, ◌==◌,
}
use nodekit_seq.Outcome.{
  failed_to_parse_public_key, failed_to_parse_signature, not_white_listed, bid_epoch_not_valid,
  invalid_bidder_signature, parsed_builder_seq_address_mismatch, wrap, raise_if,
}
use nodekit_seq.Outcome.Chains.{raise_if-keeps, and_then-keeps}
use nodekit_seq.Vm.{Vm, Address, StateLaws}
use nodekit_seq.Genesis.{Rules, get_epoch_length}
use nodekit_seq.Storage.Keys.{balance_key}
use nodekit_seq.Storage.View.{and_then-same}
use nodekit_seq.Storage.Balance.{sub_balance, add_balance}
use nodekit_seq.Storage.Balance.Frame.{sub_balance-OnlyAt, add_balance-OnlyAt}
use nodekit_seq.Storage.Arcadia.ReadBack.{store_arcadia_bid_info-OnlyAt}
use nodekit_seq.Actions.Utils.{contains, is_white_listed, arcadia_fund_address, epoch}
use nodekit_seq.Actions.Utils.Members.{contains_triple}
use nodekit_seq.Actions.Auction.{
  Bls, Auction, hash_auction_info, builder_address, state_keys, checks, settle_bid, execute,
}
use nodekit_seq.Actions.Auction.Effect.{checks-Valid}

module _ (bls : Bls) {S : Type 0} (vm : Vm S) (rules : Rules) (hght : ℕ) where
  open bls use {public_key_from_bytes, signature_from_bytes, verify}

  raise_if-state : (b : Bool) (s : S) → (raise_if b parsed_builder_seq_address_mismatch s).1 ≡ s
  raise_if-state true s = refl
  raise_if-state false s = refl

  -- The checks write nothing.
  checks_read_only :
      (a : Auction) (actor : Address) (s : S) → (checks bls vm rules hght a actor s).1 ≡ s
  unfolding checks
  checks_read_only a actor s =
      let P : S → Type 0 = λ t. t ≡ s in
      and_then-keeps P _ (is_white_listed rules actor, s) refl
        λ listed _. raise_if-keeps _ P (not listed) not_white_listed s refl λ _.
          and_then-keeps P _ (epoch hght (get_epoch_length rules), s) refl
            λ current _.
              raise_if-keeps _ P (not (a.auction_info.epoch_number == (current + 1) % 2 ^ 64))
                bid_epoch_not_valid s refl
                λ _.
                  and_then-keeps P _
                    (
                      wrap failed_to_parse_public_key (public_key_from_bytes a.builder_public_key),
                      s,
                    )
                    refl
                    λ key _.
                      and_then-keeps P _
                        (
                          wrap failed_to_parse_signature (signature_from_bytes a.builder_signature),
                          s,
                        )
                        refl
                        λ sig _.
                          raise_if-keeps _ P
                            (not (verify (hash_auction_info bls a.auction_info) key sig))
                            invalid_bidder_signature s refl
                            λ _.
                              raise_if-state
                                (not (
                                  bytes_eq (builder_address bls a)
                                    a.auction_info.builder_seq_address))
                                s

  module _ (laws : StateLaws vm) where
    settle_bid-same :
        (a : Auction) (s : S) (j : Bytes)
        → balance_key (builder_address bls a) ≢ j
        → balance_key arcadia_fund_address ≢ j
        → vm.arcadia_bid_key a.auction_info.epoch_number ≢ j
        → vm.get_value j (settle_bid bls vm a s).1 ≡ vm.get_value j s
    unfolding settle_bid
    settle_bid-same a s j nb nf ne =
        let price = a.auction_info.bid_price in
        and_then-same vm j s _ (sub_balance vm (builder_address bls a) price s)
          (sub_balance-OnlyAt vm laws (builder_address bls a) price s j nb)
          λ _ u.
            and_then-same vm j u _ (add_balance vm arcadia_fund_address price true u)
              (add_balance-OnlyAt vm laws arcadia_fund_address price u j nf)
              λ _ w.
                store_arcadia_bid_info-OnlyAt vm laws a.auction_info.epoch_number price
                  a.builder_public_key a.builder_signature w j ne

    -- However it ends, a bid changes the view at its state keys alone.
    pub auction_frame :
        (a : Auction) (actor : Address) (s : S) (j : Bytes)
        → contains (state_keys vm a) j ≡ false
        → vm.get_value j (execute bls vm rules hght a actor s).1 ≡ vm.get_value j s
    unfolding execute state_keys
    auction_frame a actor s j h =
        let (nb, nf, ne) = contains_triple _ _ _ j h in
        let kept = checks_read_only a actor s in
        let m = checks bls vm rules hght a actor s in
        and_then-keeps (λ t. vm.get_value j t ≡ vm.get_value j s) _ m (ap (vm.get_value j) kept)
          λ _ done.
            let (valid, same) = checks-Valid bls vm rules hght a actor s m.1 done in
            settle_bid-same a m.1 j (rw valid.own_account nb) nf ne ∙ ap (vm.get_value j) kept
