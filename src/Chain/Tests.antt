-- ===== src/Chain/Tests.antt =====
-- A chain that starts empty, and on which a rollup registers and announces an exit.
use nodekit_seq.Prelude.{ℕ, refl, []}
use nodekit_seq.Outcome.Chains.{Returns}
use nodekit_seq.Vm.{Address}
use nodekit_seq.Vm.Example.{
  Store, example_vm, example-StateLaws, example-CodecLaws, example-NoPanics, read,
}
use nodekit_seq.Genesis.{default_genesis}
use nodekit_seq.Actions.EpochExit.{EpochExit, execute as epoch_exit_execute}
use nodekit_seq.Actions.RollupRegistration.{RollupRegistration, execute as registration_execute}
use nodekit_seq.Chain.{Reaches, here, next, registered, exited}
use nodekit_seq.Chain.Invariant.{Sound, fresh_Sound, Reaches-Sound, Reaches-Returns}
use nodekit_seq.Samples.{alice, rules, registration, announce, example_bls, example-KeyLaws}

abbrev first : Store
first = (registration_execute example_vm rules 0 alice registration []).1

abbrev second : Store
second = (epoch_exit_execute example_vm announce alice first).1

abbrev path : Reaches example_bls example_vm rules [] second
path = next (next here (registered registration 0 alice)) (exited announce alice)

empty_Sound : Sound example_vm []
unfolding read
empty_Sound = fresh_Sound example_vm [] refl (λ d. refl)

Reaches-Sound_example : Sound example_vm second
Reaches-Sound_example =
    Reaches-Sound example_vm example-StateLaws example-KeyLaws example-CodecLaws example_bls rules
      path empty_Sound

Reaches-Returns_example :
    ((e : EpochExit) (actor : Address) → Returns (epoch_exit_execute example_vm e actor second).0)
    × ((r : RollupRegistration) (hght : ℕ) (actor : Address)
        → Returns (registration_execute example_vm rules hght actor r second).0)
unfolding default_genesis
Reaches-Returns_example =
    Reaches-Returns example_vm example-StateLaws example-KeyLaws example-CodecLaws example_bls rules
      example-NoPanics refl empty_Sound path
