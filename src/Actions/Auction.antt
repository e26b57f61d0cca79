-- ===== src/Actions/Auction.antt =====
-- actions/auction.go: a whitelisted relay submits the winning bid of the next epoch.
pub mod Effect
pub mod Settlement
pub mod Frame
mod Tests
use nodekit_seq.Prelude.Int.{ℤ}
use nodekit_seq.Actions.Utils.{default_nmt_namespace, always}
use nodekit_seq.Prelude.{
  ℕ, ◌+◌, ◌%◌, ◌^◌, Bool, true, false, not, List, [], ◌∷◌, ◌++◌, Bytes, bytes_eq, ◌==◌,
  if◌then◌else◌,
}
use nodekit_seq.Outcome.{
  failed_to_parse_public_key, failed_to_parse_signature, not_white_listed, bid_epoch_not_valid,
  invalid_bidder_signature, parsed_builder_seq_address_mismatch, Outcome, Action, lift, wrap,
  raise_if, ◌>>=◌, ◌>>◌,
}
use nodekit_seq.Vm.{Vm, Address}
use nodekit_seq.Genesis.{Rules, get_epoch_length}
use nodekit_seq.Encoding.{append_uint64}
use nodekit_seq.Storage.Keys.{balance_key}
use nodekit_seq.Storage.Balance.{sub_balance, add_balance}
use nodekit_seq.Storage.Arcadia.{store_arcadia_bid_info}
use nodekit_seq.Actions.Utils.{is_white_listed, arcadia_fund_address, epoch}

-- hypersdk/crypto/bls, `codec.CreateAddress(auth.BLSID, utils.ToID(key))` and SHA-256.
pub record Bls : Type 1 where
  pub PublicKey : Type 0
  pub Signature : Type 0
  pub public_key_from_bytes : Bytes → Outcome PublicKey
  pub signature_from_bytes : Bytes → Outcome Signature
  pub verify : Bytes → PublicKey → Signature → Bool
  pub create_address : ℕ → Bytes → Address
  pub to_id : Bytes → Bytes
  pub sum256 : Bytes → Bytes

pub record AuctionInfo : Type 0 where
  pub epoch_number : ℕ
  pub bid_price : ℕ
  pub builder_seq_address : Address

pub record Auction : Type 0 where
  pub auction_info : AuctionInfo
  pub builder_public_key : Bytes
  pub builder_signature : Bytes

-- `BLSID` of auth/consts.go.
abbrev pub bls_id : ℕ
bls_id = 1

unfoldable pub auction_message : AuctionInfo → Bytes
auction_message info =
    append_uint64 info.epoch_number ++ (append_uint64 info.bid_price ++ info.builder_seq_address)

-- `StateKeys`.
unfoldable pub state_keys : {S : Type 0} → Vm S → Auction → List Bytes
state_keys vm a =
    balance_key a.auction_info.builder_seq_address
    ∷ balance_key arcadia_fund_address
    ∷ vm.arcadia_bid_key a.auction_info.epoch_number
    ∷ []

module _ (bls : Bls) where
  open bls use {public_key_from_bytes, signature_from_bytes, verify, create_address, to_id, sum256}

  -- Its error is always nil.
  pub hash_auction_info : AuctionInfo → Bytes
  hash_auction_info info = sum256 (auction_message info)

  -- `builderSEQAddress`.
  pub builder_address : Auction → Address
  builder_address a = create_address bls_id (to_id a.builder_public_key)

  module _ {S : Type 0} (vm : Vm S) where
    -- The checks, before anything is written.
    unfoldable pub checks : Rules → ℕ → Auction → Address → Action S (Unit {0})
    unfolding hash_auction_info builder_address
    checks rules hght a actor = do
      listed ← lift (is_white_listed rules actor)
      raise_if (not listed) not_white_listed
      current ← lift (epoch hght (get_epoch_length rules))
      raise_if (not (a.auction_info.epoch_number == (current + 1) % 2 ^ 64)) bid_epoch_not_valid
      pubkey ← lift (wrap failed_to_parse_public_key (public_key_from_bytes a.builder_public_key))
      sig ← lift (wrap failed_to_parse_signature (signature_from_bytes a.builder_signature))
      raise_if (not (verify (hash_auction_info a.auction_info) pubkey sig)) invalid_bidder_signature
      raise_if (not (bytes_eq (builder_address a) a.auction_info.builder_seq_address))
          parsed_builder_seq_address_mismatch

    -- The payment, and the record of the bid.
    unfoldable pub settle_bid : Auction → Action S (Unit {0})
    unfolding builder_address
    settle_bid a = do
      sub_balance vm (builder_address a) a.auction_info.bid_price
      add_balance vm arcadia_fund_address a.auction_info.bid_price true
      store_arcadia_bid_info vm a.auction_info.epoch_number a.auction_info.bid_price
          a.builder_public_key a.builder_signature

    unfoldable pub execute : Rules → ℕ → Auction → Address → Action S (Unit {0})
    execute rules hght a actor = do checks rules hght a actor; settle_bid a

-- What hypersdk asks of the action beside its execution.
abbrev pub compute_units : Auction → ℕ
compute_units action = 4

abbrev pub valid_range : Auction → ℤ × ℤ
valid_range action = always

abbrev pub nmt_namespace : Auction → Bytes
nmt_namespace action = default_nmt_namespace

abbrev pub use_fee_market : Auction → Bool
use_fee_market action = false
