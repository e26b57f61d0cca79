-- ===== src/Storage/Arcadia.antt =====
-- storage/arcadia.go: the winning bid of an epoch, 8 bytes of price, 48 of the builder's public
-- key and 96 of its signature.
pub mod ReadBack
use nodekit_seq.Prelude.{ℕ, ◌+◌, Option, none, some, List, [], ◌∷◌, Bytes, replicate, if◌then◌else◌}
use nodekit_seq.Outcome.{
  Error, equals_not_found, Outcome, ok, err, from_pair, map_ok, then_outcome, Action, modify,
}
use nodekit_seq.Vm.{Vm}
use nodekit_seq.Encoding.{copy_at, append_uint64, uint64, slice, slice_from}
use nodekit_seq.Storage.ReadState.{ReadState, first}

-- The buffer `v`, by the order of its writes.
pub bid_value : ℕ → Bytes → Bytes → Bytes
bid_value bid_price bidder_public_key bidder_signature =
    let v = copy_at 0 (append_uint64 bid_price) (replicate (8 + 48 + 96) 0) in
    let v' = copy_at 8 bidder_public_key v in copy_at (8 + 48) bidder_signature v'

-- A missing bid is no error.
pub inner_get_builder : Bytes → Option Error → Outcome (Option Bytes)
inner_get_builder v (some e) = if equals_not_found e then ok none else err e
inner_get_builder v none = map_ok some (slice 8 (8 + 48) v)

module _ {S : Type 0} (vm : Vm S) where
  open vm use {get_value, insert, arcadia_bid_key}

  unfoldable pub store_arcadia_bid_info : ℕ → ℕ → Bytes → Bytes → Action S (Unit {0})
  unfolding bid_value
  store_arcadia_bid_info epoch bid_price bidder_public_key bidder_signature =
      modify
        (insert (arcadia_bid_key epoch) (bid_value bid_price bidder_public_key bidder_signature))

  unfoldable pub get_arcadia_bid_value : ℕ → S → Outcome ℕ
  get_arcadia_bid_value epoch s =
      let (v, e) = get_value (arcadia_bid_key epoch) s in then_outcome (from_pair v e) uint64

  unfoldable pub get_arcadia_builder_info_and_signature : ℕ → S → Outcome (Bytes × Bytes)
  get_arcadia_builder_info_and_signature epoch s =
      let (v, e) = get_value (arcadia_bid_key epoch) s in
      then_outcome (from_pair v e) λ w.
        then_outcome (slice 8 (8 + 48) w)
          λ builder. map_ok (λ signature. (builder, signature)) (slice_from (8 + 48) w)

  unfoldable pub get_arcadia_builder_from_state : ReadState → ℕ → Outcome (Option Bytes)
  unfolding inner_get_builder
  get_arcadia_builder_from_state f epoch =
      then_outcome (first (f (arcadia_bid_key epoch ∷ [])))
        λ entry. inner_get_builder entry.0 entry.1
