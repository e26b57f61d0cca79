-- ===== src/Storage/Arcadia/ReadBack.antt =====
-- A stored bid is read back whole, if the key and the signature have their lengths.
use mathlib.Core.List.{append-nil, append_assoc}
use nodekit_seq.Prelude.{
  ℕ, ◌^◌, ◌<◌, ◌≡◌, refl, none, some, [], ◌++◌, Bytes, length, length-append, replicate,
  take-append, drop-append, leb, true, arith,
}
use nodekit_seq.Outcome.{ok}
use nodekit_seq.Vm.{Vm, StateLaws}
use nodekit_seq.Encoding.{append_uint64, slice, slice_from, copy_at}
use nodekit_seq.Encoding.Buffers.{copy_at-append, uint64-append_uint64, length-append_uint64}
use nodekit_seq.Storage.ReadState.{ReadState}
use nodekit_seq.Storage.View.{
  OnlyAt, Serves, get_value-insert_self, written-ok, modify_insert-OnlyAt,
}
use nodekit_seq.Storage.Arcadia.{
  bid_value, store_arcadia_bid_info, get_arcadia_bid_value, get_arcadia_builder_info_and_signature,
  get_arcadia_builder_from_state,
}

-- With both lengths right the three parts stand one after the other.
bid_value-parts :
    (price : ℕ) (key sig : Bytes)
    → length key ≡ 48
    → length sig ≡ 96
    → bid_value price key sig ≡ append_uint64 price ++ (key ++ sig)
unfolding bid_value
bid_value-parts price key sig hk hs =
    let p : Bytes = append_uint64 price in
    let hp : length p ≡ 8 = length-append_uint64 price in
    let first : copy_at 0 p (replicate 152 0) ≡ p ++ replicate 144 0 =
      copy_at-append [] p 152 144 0 0 refl (omega arith) in
    let second : copy_at 8 key (p ++ replicate 144 0) ≡ p ++ (key ++ replicate 96 0) =
      copy_at-append p key 144 96 0 8 hp (omega arith) in
    let both : length (p ++ key) ≡ 56 = omega (arith, length-append p key) in
    let third : copy_at 56 sig ((p ++ key) ++ replicate 96 0) ≡ (p ++ key) ++ (sig ++ []) =
      copy_at-append (p ++ key) sig 96 0 0 56 both (omega arith) in
    rw (first, second, ← append_assoc p key (replicate 96 0), third, append-nil sig)
      (append_assoc p key sig)

bid_slices :
    (price : ℕ) (key sig : Bytes)
    → length key ≡ 48
    → length sig ≡ 96
    → (slice 8 56 (bid_value price key sig) ≡ ok key)
      × (slice_from 56 (bid_value price key sig) ≡ ok sig)
unfolding slice slice_from
bid_slices price key sig hk hs =
    let p : Bytes = append_uint64 price in
    let hp : length p ≡ 8 = length-append_uint64 price in
    let whole : length (p ++ (key ++ sig)) ≡ 152 =
      omega (arith, length-append p (key ++ sig), length-append key sig) in
    let long : leb 56 (length (p ++ (key ++ sig))) ≡ true = ground arith in
    let both : length (p ++ key) ≡ 56 = omega (arith, length-append p key) in
    rw (bid_value-parts price key sig hk hs) (
      rw (long, drop-append 8 p (key ++ sig) hp, take-append 48 key sig hk),
      rw (long, ← append_assoc p key sig, drop-append 56 (p ++ key) sig both),
    )

module _ {S : Type 0} (vm : Vm S) (laws : StateLaws vm) where
  open vm use {arcadia_bid_key}

  pub store_arcadia_bid_info-OnlyAt :
      (epoch price : ℕ) (key sig : Bytes) (s : S)
      → OnlyAt vm (arcadia_bid_key epoch) s (store_arcadia_bid_info vm epoch price key sig s).1
  unfolding store_arcadia_bid_info
  store_arcadia_bid_info-OnlyAt epoch price key sig s =
      modify_insert-OnlyAt vm laws (arcadia_bid_key epoch) (bid_value price key sig) s

  stored_bid :
      (epoch price : ℕ) (key sig : Bytes) (s s' : S)
      → store_arcadia_bid_info vm epoch price key sig s ≡ (ok tt, s')
      → vm.get_value (arcadia_bid_key epoch) s' ≡ (bid_value price key sig, none)
  unfolding store_arcadia_bid_info
  stored_bid epoch price key sig s s' h =
      get_value-insert_self vm laws (arcadia_bid_key epoch) (bid_value price key sig) s
        (written-ok s (vm.insert (arcadia_bid_key epoch) (bid_value price key sig) s) h)

  -- The price, the builder's key and its signature come back, also through a batch read.
  pub get-store_arcadia_bid :
      (epoch price : ℕ) (key sig : Bytes) (f : ReadState) (s s' : S)
      → price < 2 ^ 64
      → length key ≡ 48
      → length sig ≡ 96
      → Serves vm f s'
      → store_arcadia_bid_info vm epoch price key sig s ≡ (ok tt, s')
      → (get_arcadia_bid_value vm epoch s' ≡ ok price)
        × (get_arcadia_builder_info_and_signature vm epoch s' ≡ ok (key, sig))
        × (get_arcadia_builder_from_state vm f epoch ≡ ok (some key))
  unfolding get_arcadia_bid_value get_arcadia_builder_info_and_signature
      get_arcadia_builder_from_state
  get-store_arcadia_bid epoch price key sig f s s' small hk hs served h =
      let e = stored_bid epoch price key sig s s' h in
      let (mid, end) = bid_slices price key sig hk hs in
      (
        rw (e, bid_value-parts price key sig hk hs) (uint64-append_uint64 price (key ++ sig) small),
        rw (e, mid, end),
        rw (served (arcadia_bid_key epoch), e, mid),
      )
