-- ===== src/Actions/Transfer.antt =====
-- actions/transfer.go: moving a value from the signer to another account.
pub mod Funds
pub mod Ends
mod Tests
use nodekit_seq.Prelude.Int.{ℤ}
use nodekit_seq.Actions.Utils.{default_nmt_namespace, always}
use nodekit_seq.Prelude.{ℕ, ltb, List, [], ◌∷◌, Bytes, length, ◌==◌, Bool, false}
use nodekit_seq.Prelude.{true}
use nodekit_seq.Outcome.{output_value_zero, output_memo_too_large, Action, raise_if, ◌>>◌}
use nodekit_seq.Vm.{Vm, Address}
use nodekit_seq.Storage.Keys.{balance_key}
use nodekit_seq.Storage.Balance.{sub_balance, add_balance}

abbrev pub max_memo_size : ℕ
max_memo_size = 256

pub record Transfer : Type 0 where
  pub to : Address
  pub value : ℕ
  pub memo : Bytes

-- `StateKeys`: the keys that an execution may touch.
unfoldable pub state_keys : Transfer → Address → List Bytes
state_keys t actor = balance_key actor ∷ balance_key t.to ∷ []

module _ {S : Type 0} (vm : Vm S) where
  unfoldable pub execute : Transfer → Address → Action S (Unit {0})
  execute t actor = do
    raise_if (t.value == 0) output_value_zero
    raise_if (ltb max_memo_size (length t.memo)) output_memo_too_large
    sub_balance vm actor t.value
    add_balance vm t.to t.value true

-- What hypersdk asks of the action beside its execution.
abbrev pub compute_units : Transfer → ℕ
compute_units action = 1

abbrev pub valid_range : Transfer → ℤ × ℤ
valid_range action = always

abbrev pub nmt_namespace : Transfer → Bytes
nmt_namespace action = default_nmt_namespace

abbrev pub use_fee_market : Transfer → Bool
use_fee_market action = false
