-- ===== src/Actions/Transfer/Tests.antt =====
-- Transfers between concrete accounts.
use nodekit_seq.Prelude.{
  ◌+◌, ◌^◌, ◌≤◌, ◌<◌, ◌≡◌, refl, ◌≢◌, List, [], ◌∷◌, bytes_eq, bytes_eq→ne, put_be, from_be,
}
use nodekit_seq.Outcome.{ok}
use nodekit_seq.Vm.{Address}
use nodekit_seq.Vm.Example.{
  Store, example_vm, example-StateLaws, example-MathLaws, example-AcceptsWrites, read,
}
use nodekit_seq.Encoding.{uint64, append_uint64}
use nodekit_seq.Storage.Keys.{balance_key}
use nodekit_seq.Storage.Balance.{get_balance, sub_balance, add_balance}
use nodekit_seq.Actions.Utils.{contains_address, contains}
use nodekit_seq.Actions.Transfer.{Transfer, state_keys, execute}
use nodekit_seq.Actions.Transfer.Funds.{execute_moves, total-execute}
use nodekit_seq.Actions.Transfer.Ends.{expected, execute-expected, execute_frame}
use nodekit_seq.Ledger.{total}
use nodekit_seq.Samples.{alice, bob, carol, start}

abbrev to_bob : Transfer
to_bob = record { to = bob; value = 30; memo = [] }

abbrev everything : Transfer
everything = record { to = alice; value = 100; memo = [] }

abbrev accounts : List Address
accounts = alice ∷ bob ∷ carol ∷ []

abbrev after : Store
after = (execute example_vm to_bob alice start).1

-- The account is removed before it is written again.
self_after : get_balance example_vm alice (execute example_vm everything alice start).1 ≡ ok 100
unfolding execute get_balance sub_balance add_balance uint64 append_uint64 read bytes_eq put_be
    from_be balance_key
self_after = refl

alice-ne-bob : alice ≢ bob
unfolding bytes_eq
alice-ne-bob = bytes_eq→ne alice bob refl

execute_moves_example :
    (30 ≤ 100)
    × (7 + 30 < 2 ^ 64)
    × (get_balance example_vm alice after ≡ ok 70)
    × (get_balance example_vm bob after ≡ ok 37)
    × ((b : Address)
        → b ≢ alice
        → b ≢ bob
        → get_balance example_vm b after ≡ get_balance example_vm b start)
unfolding execute get_balance sub_balance add_balance uint64 append_uint64 read bytes_eq put_be
    from_be balance_key
execute_moves_example =
    execute_moves example_vm example-StateLaws example-MathLaws to_bob alice 100 7 start after
      alice-ne-bob refl refl refl

total-execute_example : total example_vm accounts after ≡ total example_vm accounts start
unfolding execute get_balance sub_balance add_balance uint64 append_uint64 read bytes_eq put_be
    from_be balance_key contains_address
total-execute_example =
    total-execute example_vm example-StateLaws example-MathLaws to_bob alice accounts start after
      (refl, (refl, (refl, tt))) refl refl refl

execute-expected_example : (execute example_vm to_bob carol start).0 ≡ expected to_bob carol 0 7
unfolding get_balance uint64 append_uint64 read bytes_eq put_be from_be balance_key
execute-expected_example =
    execute-expected example_vm example-StateLaws example-MathLaws example-AcceptsWrites to_bob
      carol 0 7 start refl refl

execute_frame_example :
    example_vm.get_value (balance_key carol) (execute example_vm to_bob alice start).1
    ≡ example_vm.get_value (balance_key carol) start
unfolding contains state_keys bytes_eq balance_key put_be
execute_frame_example =
    execute_frame example_vm example-StateLaws to_bob alice start (balance_key carol) refl
