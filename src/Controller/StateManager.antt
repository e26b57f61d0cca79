-- ===== src/Controller/StateManager.antt =====
-- controller/state_manager.go: the chain's own keys, and the fees that it takes from a sponsor.
pub mod Fees
mod Tests
use nodekit_seq.Prelude.{ℕ, ltb, List, [], ◌∷◌, Bytes, if◌then◌else◌}
use nodekit_seq.Outcome.{invalid_balance, Outcome, ok, err, then_outcome, Action}
use nodekit_seq.Vm.{Vm, Address}
use nodekit_seq.Storage.Keys.{balance_key, height_key, timestamp_key, fee_key, fee_market_key}
use nodekit_seq.Storage.Balance.{get_balance, sub_balance}

-- `HeightKey`, `TimestampKey`, `FeeKey` and `FeeMarketKey`.
abbrev pub chain_keys : List Bytes
chain_keys = height_key ∷ timestamp_key ∷ fee_key ∷ fee_market_key ∷ []

unfoldable pub sponsor_state_keys : Address → List Bytes
sponsor_state_keys addr = balance_key addr ∷ []

module _ {S : Type 0} (vm : Vm S) where
  unfoldable pub can_deduct : Address → ℕ → S → Outcome (Unit {0})
  can_deduct addr amount im =
      then_outcome (get_balance vm addr im)
        λ bal. if ltb bal amount then err invalid_balance else ok tt

  unfoldable pub deduct : Address → ℕ → Action S (Unit {0})
  deduct addr amount = sub_balance vm addr amount
