-- ===== src/Rpc/Fees.antt =====
-- The largest fee that a transaction is sent with: the sums of `SubmitMsgTx` (rpc/jsonrpc_server.go)
-- and `GenerateAndSubmitTx` (rpc/multi_jsonrpc_client.go), on 64-bit words that wrap around.
pub mod Total
use nodekit_seq.Prelude.{ℕ, ◌+◌, ◌*◌, ◌/◌, ◌%◌, ◌^◌, List, [], ◌∷◌, map, Bytes}
use nodekit_seq.Outcome.{Outcome, ok, panic, then_outcome}

-- `feeMarketUnits`, the units of each namespace. The order stands for that of the loop which makes `nss`.
abbrev pub MarketUnits : Type 0
MarketUnits = List (Bytes × ℕ)

abbrev pub namespaces : MarketUnits → List Bytes
namespaces units = map (λ entry. entry.0) units

-- The loop over `nss`; a namespace without a price is an index out of range.
unfoldable pub add_namespace_fees : MarketUnits → List ℕ → ℕ → Outcome ℕ
add_namespace_fees [] prices fee = ok fee
add_namespace_fees ((ns, units) ∷ rest) [] fee = panic
add_namespace_fees ((ns, units) ∷ rest) (price ∷ prices) fee =
    add_namespace_fees rest prices ((fee + price * units) % 2 ^ 64)

-- 20% more.
abbrev pub with_margin : ℕ → ℕ
with_margin fee = (fee + fee / 5) % 2 ^ 64

-- `maxFee` of `SubmitMsgTx`, from the checked sum of the units.
unfoldable pub msg_max_fee : Outcome ℕ → MarketUnits → Outcome (List ℕ) → Outcome ℕ
unfolding add_namespace_fees
msg_max_fee mul_sum units ns_prices = then_outcome mul_sum λ fee.
    then_outcome ns_prices
      λ prices. then_outcome (add_namespace_fees units prices fee) λ sum. ok (with_margin sum)

-- `fee` of `GenerateAndSubmitTx`, which adds the priority fee in front of the margin.
unfoldable pub estimated_fee : Outcome ℕ → MarketUnits → Outcome (List ℕ) → ℕ → Outcome ℕ
unfolding add_namespace_fees
estimated_fee mul_sum units ns_prices priority_fee = then_outcome mul_sum λ fee.
    then_outcome ns_prices λ prices.
      then_outcome (add_namespace_fees units prices fee)
        λ sum. ok (with_margin ((sum + priority_fee) % 2 ^ 64))
