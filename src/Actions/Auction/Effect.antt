-- ===== src/Actions/Auction/Effect.antt =====
-- What a bid that is accepted has passed, and that a refused one changes nothing.
use nodekit_seq.Prelude.{
  ℕ, ◌+◌, ◌%◌, ◌^◌, ◌≡◌, refl, ◌∙◌, ap, Bool, true, false, not, bytes_eq, bytes_eq→eq, ◌==◌, arith,
}
use nodekit_seq.Outcome.{
  failed_to_parse_public_key, failed_to_parse_signature, not_white_listed, bid_epoch_not_valid,
  invalid_bidder_signature, parsed_builder_seq_address_mismatch, ok, wrap, and_then-ok, raise_if,
}
use nodekit_seq.Outcome.Chains.{wrap-ok, lift-then, raise_if-then}
use nodekit_seq.Vm.{Vm, Address}
use nodekit_seq.Genesis.{Rules, get_epoch_length}
use nodekit_seq.Actions.Utils.{is_white_listed, epoch}
use nodekit_seq.Actions.Auction.{
  Bls, Auction, hash_auction_info, builder_address, checks, settle_bid, execute,
}

module _ (bls : Bls) {S : Type 0} (vm : Vm S) (rules : Rules) (hght : ℕ) where
  open bls use {PublicKey, Signature, public_key_from_bytes, signature_from_bytes, verify}

  -- A bid that passes the checks: the submitter is whitelisted, the bid is for the next epoch, the
  -- builder's key signed it, and the builder's account is the one of that key.
  pub record Valid (a : Auction) (actor : Address) : Type 0 where
    pub listed : is_white_listed rules actor ≡ ok true
    pub current : ℕ
    pub current_epoch : epoch hght (get_epoch_length rules) ≡ ok current
    pub next_epoch : a.auction_info.epoch_number ≡ (current + 1) % 2 ^ 64
    pub key : PublicKey
    pub key_parsed : public_key_from_bytes a.builder_public_key ≡ ok key
    pub signature : Signature
    pub signature_parsed : signature_from_bytes a.builder_signature ≡ ok signature
    pub signed : verify (hash_auction_info bls a.auction_info) key signature ≡ true
    pub own_account : builder_address bls a ≡ a.auction_info.builder_seq_address

  unnegate : (b : Bool) → not b ≡ false → b ≡ true
  unnegate true h = refl
  unnegate false h = ground arith

  last_check :
      (b : Bool) (s s' : S)
      → raise_if b parsed_builder_seq_address_mismatch s ≡ (ok tt, s')
      → (b ≡ false) × (s ≡ s')
  last_check true s s' h = ground arith
  last_check false s s' h = (refl, ap (λ p. p.1) h)

  pub checks-Valid :
      (a : Auction) (actor : Address) (s u : S)
      → checks bls vm rules hght a actor s ≡ (ok tt, u)
      → Valid a actor × (s ≡ u)
  unfolding checks
  checks-Valid a actor s u h =
      let (listed, p₁, h₁) = lift-then _ (is_white_listed rules actor) s h in
      let (p₂, h₂) = raise_if-then _ (not listed) not_white_listed s h₁ in
      let (current, p₃, h₃) = lift-then _ (epoch hght (get_epoch_length rules)) s h₂ in
      let (p₄, h₄) =
        raise_if-then _ (not (a.auction_info.epoch_number == (current + 1) % 2 ^ 64))
          bid_epoch_not_valid s h₃ in
      let (key, p₅, h₅) =
        lift-then _ (wrap failed_to_parse_public_key (public_key_from_bytes a.builder_public_key)) s
          h₄ in
      let (sig, p₆, h₆) =
        lift-then _ (wrap failed_to_parse_signature (signature_from_bytes a.builder_signature)) s
          h₅ in
      let (p₇, h₇) =
        raise_if-then _ (not (verify (hash_auction_info bls a.auction_info) key sig))
          invalid_bidder_signature s h₆ in
      let (p₈, same) =
        last_check (not (bytes_eq (builder_address bls a) a.auction_info.builder_seq_address)) s u
          h₇ in
      (
        record {
          listed = p₁ ∙ ap ok (unnegate listed p₂);
          current = current;
          current_epoch = p₃;
          next_epoch = ground arith;
          key = key;
          key_parsed = wrap-ok failed_to_parse_public_key _ p₅;
          signature = sig;
          signature_parsed = wrap-ok failed_to_parse_signature _ p₆;
          signed = unnegate _ p₇;
          own_account =
              bytes_eq→eq (builder_address bls a) a.auction_info.builder_seq_address
                (unnegate _ p₈);
        },
        same,
      )

  -- No bid is paid for or recorded unless it is valid.
  pub execute-Valid :
      (a : Auction) (actor : Address) (s s' : S)
      → execute bls vm rules hght a actor s ≡ (ok tt, s')
      → Valid a actor × (settle_bid bls vm a s ≡ (ok tt, s'))
  unfolding execute
  execute-Valid a actor s s' h =
      let (u, p₁, h₁) = and_then-ok _ (checks bls vm rules hght a actor s) h in
      let (valid, same) = checks-Valid a actor s _ p₁ in (valid, rw (← same) at h₁)
