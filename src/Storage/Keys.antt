-- ===== src/Storage/Keys.antt =====
-- storage/storage.go, storage/balance.go and storage/transaction.go: the keys that the
-- repository builds itself. An `ids.ID` is 32 bytes, an address 33.
pub mod Blocks
mod Tests
use mathlib.Core.List.{append_cancel_right, tail-eq_of_cons-eq}
use nodekit_seq.Prelude.{ℕ, ◌≡◌, ◌+◌, ◌*◌, [], ◌∷◌, ◌++◌, Bytes, put_be, replicate}
use nodekit_seq.Outcome.{Outcome, then_outcome, ok}
use nodekit_seq.Encoding.{copy_at, put_uint16_at}
use nodekit_seq.Vm.{Address}

abbrev pub balance_chunks : ℕ
balance_chunks = 1

-- Every byte of the pooled buffer is written, so what it held before does not matter.
unfoldable pub balance_key : Address → Bytes
balance_key pk = 0 ∷ (pk ++ put_be 2 balance_chunks)

unfoldable pub tx_key : Bytes → Bytes
tx_key id = 0 ∷ id

-- The buffer `k`, by the order of its writes.
pub prefix_block_key : Bytes → Bytes → Outcome Bytes
prefix_block_key block parent =
    let k = copy_at 0 (0x9 ∷ []) (replicate (1 + 32 * 2) 0) in
    let k' = copy_at 1 block k in
    then_outcome (put_uint16_at (1 + 32 * 2) balance_chunks k')
      λ k''. ok (copy_at (1 + 32) parent k'')

abbrev pub height_key : Bytes
height_key = 0x4 ∷ []

abbrev pub timestamp_key : Bytes
timestamp_key = 0x5 ∷ []

abbrev pub fee_key : Bytes
fee_key = 0x6 ∷ []

abbrev pub fee_market_key : Bytes
fee_market_key = 0xa ∷ []

-- Two accounts have two keys.
pub balance_key-injective : (a b : Address) → balance_key a ≡ balance_key b → a ≡ b
unfolding balance_key
balance_key-injective a b e =
    append_cancel_right a b (put_be 2 balance_chunks) (tail-eq_of_cons-eq e)
