-- ===== src/Controller/StateManager/Tests.antt =====
-- A fee of 30 from Alice.
use nodekit_seq.Prelude.{ℕ, ◌-◌, ◌≤◌, ◌≡◌, ◌≢◌, refl, put_be, from_be, bytes_eq}
use nodekit_seq.Outcome.{ok}
use nodekit_seq.Vm.{Address}
use nodekit_seq.Vm.Example.{
  Store, example_vm, example-StateLaws, example-MathLaws, example-AcceptsWrites, read,
}
use nodekit_seq.Encoding.{uint64, append_uint64}
use nodekit_seq.Storage.Keys.{balance_key}
use nodekit_seq.Storage.Balance.{get_balance}
use nodekit_seq.Controller.StateManager.{can_deduct, deduct}
use nodekit_seq.Controller.StateManager.Fees.{deduct_allowed}
use nodekit_seq.Samples.{alice, start}

deduct_allowed_example :
    (s' : Store) × (m : ℕ) × (deduct example_vm alice 30 start ≡ (ok tt, s'))
    × (get_balance example_vm alice start ≡ ok m)
    × (30 ≤ m)
    × (get_balance example_vm alice s' ≡ ok (m - 30))
    × ((b : Address) → b ≢ alice → get_balance example_vm b s' ≡ get_balance example_vm b start)
unfolding can_deduct get_balance uint64 append_uint64 read bytes_eq put_be from_be balance_key
deduct_allowed_example =
    deduct_allowed example_vm example-MathLaws example-StateLaws alice 30 start
      example-AcceptsWrites refl
