-- ===== src/Rpc/Fees/Total.antt =====
-- What the sums come to.
use nodekit_seq.Prelude.{
  ℕ, ◌+◌, ◌*◌, ◌/◌, ◌%◌, ◌^◌, ◌<◌, ◌≡◌, ap, ◌∙◌, List, [], ◌∷◌, length, arith,
}
use nodekit_seq.Outcome.{ok}
use nodekit_seq.Rpc.Fees.{MarketUnits, add_namespace_fees, msg_max_fee, estimated_fee}

-- The fees of all namespaces, on numbers that do not wrap.
unfoldable pub fees_total : MarketUnits → List ℕ → ℕ
fees_total [] prices = 0
fees_total (entry ∷ rest) [] = 0
fees_total ((ns, units) ∷ rest) (price ∷ prices) = price * units + fees_total rest prices

add_namespace_fees-total :
    (units : MarketUnits) (prices : List ℕ) (fee : ℕ)
    → length units ≡ length prices
    → fee + fees_total units prices < 2 ^ 64
    → add_namespace_fees units prices fee ≡ ok (fee + fees_total units prices)
unfolding add_namespace_fees fees_total
add_namespace_fees-total [] [] fee e h = ap ok (omega arith)
add_namespace_fees-total [] (p ∷ ps) fee e h = absurd (omega arith)
add_namespace_fees-total (u ∷ us) [] fee e h = absurd (omega arith)
add_namespace_fees-total ((ns, u) ∷ us) (p ∷ ps) fee e h =
    let exact : (fee + p * u) % 2 ^ 64 ≡ fee + p * u = omega arith in
    rw exact (
      add_namespace_fees-total us ps (fee + p * u) (omega arith) (omega arith)
      ∙ ap ok (omega arith))

-- There is one price for each namespace, and the fee of the units, the fees of the namespaces and the
-- priority fee, with a fifth more, fit in 64 bits. Then the largest fee of `SubmitMsgTx` is the first
-- two with a fifth more, and that of `GenerateAndSubmitTx` is all three with a fifth more, without a
-- wrap.
pub estimated_fee-total :
    (base priority : ℕ) (units : MarketUnits) (prices : List ℕ)
    → length units ≡ length prices
    → (base + fees_total units prices + priority) + (base + fees_total units prices + priority) / 5
      < 2 ^ 64
    → (msg_max_fee (ok base) units (ok prices)
        ≡ ok ((base + fees_total units prices) + (base + fees_total units prices) / 5))
      × (estimated_fee (ok base) units (ok prices) priority
          ≡ ok (
              (base + fees_total units prices + priority)
              + (base + fees_total units prices + priority) / 5))
unfolding msg_max_fee estimated_fee
estimated_fee-total base priority units prices e h =
    let summed = add_namespace_fees-total units prices base e (omega arith) in
    rw summed (ap ok (omega arith), ap ok (omega arith))
