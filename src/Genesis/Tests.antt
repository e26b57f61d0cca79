-- ===== src/Genesis/Tests.antt =====
-- A document that allocates twice to Alice.
use text.Mathlib.Text.{◌==◌ as str_eq}
use nodekit_seq.Prelude.{◌^◌, ◌<◌, ◌≡◌, refl, [], ◌∷◌, bytes_eq, put_be, from_be, if◌then◌else◌}
use nodekit_seq.Outcome.{ok, err, external}
use nodekit_seq.Vm.{Address}
use nodekit_seq.Vm.Example.{Store, example_vm, example-StateLaws, example-MathLaws, read}
use nodekit_seq.Encoding.{uint64, append_uint64}
use nodekit_seq.Storage.Keys.{balance_key}
use nodekit_seq.Storage.Balance.{get_balance, set_balance}
use nodekit_seq.Genesis.{Genesis, GenesisLibrary, default_genesis, load}
use nodekit_seq.Genesis.Supply.{allocated, last_allocation, load_allocates}
use nodekit_seq.Samples.{alice, bob}

abbrev library : GenesisLibrary
library = record {
  parse_address = λ a.
      if str_eq a "alice" then ok alice else if str_eq a "bob" then ok bob else err (external 7);
  branch_factor_valid = λ n. ok tt;
}

abbrev document : Genesis
document = record default_genesis {
  custom_allocation =
      record { address = "alice"; balance = 5 }
      ∷ record { address = "bob"; balance = 7 }
      ∷ record { address = "alice"; balance = 11 }
      ∷ [];
}

abbrev loaded : Store
loaded = (load example_vm library document []).1

-- The later allocation takes the place of the earlier one, while both count towards the supply.
later_allocation : get_balance example_vm alice loaded ≡ ok 11
unfolding load set_balance default_genesis get_balance uint64 append_uint64 read bytes_eq put_be
    from_be balance_key
later_allocation = refl

load_allocates_example :
    (allocated document.custom_allocation < 2 ^ 64)
    × ((a : Address)
        → get_balance example_vm a loaded
          ≡ last_allocation library document.custom_allocation a (get_balance example_vm a []))
unfolding load set_balance default_genesis bytes_eq append_uint64 put_be balance_key
load_allocates_example =
    load_allocates example_vm library example-StateLaws example-MathLaws document [] loaded refl
