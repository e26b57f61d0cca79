-- ===== src/Actions/SequencerMsg.antt =====
-- actions/msg.go: a rollup's transaction, which the chain orders and does not execute.
use nodekit_seq.Actions.Utils.{always}
use nodekit_seq.Prelude.{List, [], Bytes, Bool, true, ℕ}
use nodekit_seq.Prelude.Int.{ℤ}
use nodekit_seq.Outcome.{Action, pure}
use nodekit_seq.Vm.{Address}

pub record SequencerMsg : Type 0 where
  pub chain_id : Bytes
  pub payload : Bytes
  pub from_address : Address
  pub relayer_id : ℤ

-- `StateKeys`: none.
abbrev pub state_keys : SequencerMsg → List Bytes
state_keys msg = []

abbrev pub execute : {S : Type 0} → SequencerMsg → Action S (Unit {0})
execute msg = pure tt

-- `NMTNamespace`.
abbrev pub nmt_namespace : SequencerMsg → Bytes
nmt_namespace msg = msg.chain_id

-- What hypersdk asks of the action beside its execution.
abbrev pub compute_units : SequencerMsg → ℕ
compute_units action = 15

abbrev pub valid_range : SequencerMsg → ℤ × ℤ
valid_range action = always

abbrev pub use_fee_market : SequencerMsg → Bool
use_fee_market action = true
