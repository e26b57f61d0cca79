-- ===== src/Actions/EpochExit/Tests.antt =====
-- One exit that is announced and taken back.
use nodekit_seq.Prelude.{◌≡◌, refl, false, none, some, List, [], ◌∷◌, ◌++◌, bytes_eq}
use nodekit_seq.Prelude.Int.{pos}
use nodekit_seq.Outcome.{ok}
use nodekit_seq.Outcome.Chains.{Atomic}
use nodekit_seq.Vm.{EpochInfo}
use nodekit_seq.Vm.Example.{
  Store, example_vm, example-StateLaws, example-CodecLaws, read, encode, decode,
}
use nodekit_seq.Genesis.{default_genesis}
use nodekit_seq.Storage.View.{OnlyAt}
use nodekit_seq.Storage.Rollups.{
  get_rollup_info, set_rollup_info, get_rollup_registry, set_rollup_registry, inner_get_rollup_info,
  inner_get_registry,
}
use nodekit_seq.Storage.Exits.{get_epoch_exits, set_epoch_exits, inner_get_epoch_exits}
use nodekit_seq.Actions.Utils.{contains, epoch, authorization_checks}
use nodekit_seq.Actions.RollupRegistration.{create_rollup, execute as registration_execute}
use nodekit_seq.Actions.EpochExit.{
  EpochExit, exit_index, delete_at, has_exit, create_exit, delete_exit, execute,
}
use nodekit_seq.Actions.EpochExit.Effect.{
  execute-Atomic, execute-OnlyAt, execute_announces, execute_withdraws, execute_announce_withdraw,
}
use nodekit_seq.Samples.{alice, rules, rollup_name, registration, announce}

abbrev before : Store
before = (registration_execute example_vm rules 0 alice registration []).1

abbrev take_back : EpochExit
take_back = record { info = announce.info; epoch = 5; op_code = pos 1 }

abbrev announced : Store
announced = (execute example_vm announce alice before).1

abbrev taken_back : Store
taken_back = (execute example_vm take_back alice announced).1

execute_announces_example :
    (has_exit rollup_name [] ≡ false)
    × (announce.epoch ≡ announce.info.epoch)
    × (get_epoch_exits example_vm 5 announced ≡ ok (some ([] ++ (announce.info ∷ []))))
unfolding execute create_exit get_epoch_exits set_epoch_exits inner_get_epoch_exits
    registration_execute create_rollup authorization_checks contains epoch get_rollup_info
    set_rollup_info get_rollup_registry set_rollup_registry inner_get_rollup_info inner_get_registry
    read encode decode bytes_eq default_genesis
execute_announces_example =
    execute_announces example_vm example-StateLaws example-CodecLaws announce alice none before
      announced refl refl refl

execute_withdraws_example :
    (pre : List EpochInfo) × (exit : EpochInfo) × (post : List EpochInfo) × (announce.info ∷ []
      ≡ pre ++ (exit ∷ post))
    × (exit.namespace ≡ rollup_name)
    × (has_exit rollup_name pre ≡ false)
    × (get_epoch_exits example_vm 5 taken_back ≡ ok (some (pre ++ post)))
unfolding execute create_exit delete_exit exit_index delete_at get_epoch_exits set_epoch_exits
    inner_get_epoch_exits registration_execute create_rollup authorization_checks contains epoch
    get_rollup_info set_rollup_info get_rollup_registry set_rollup_registry inner_get_rollup_info
    inner_get_registry read encode decode bytes_eq default_genesis
execute_withdraws_example =
    execute_withdraws example_vm example-StateLaws example-CodecLaws take_back alice
      (some (announce.info ∷ [])) announced taken_back refl refl refl

execute_announce_withdraw_example : get_epoch_exits example_vm 5 taken_back ≡ ok (some [])
unfolding execute create_exit delete_exit exit_index delete_at get_epoch_exits set_epoch_exits
    inner_get_epoch_exits registration_execute create_rollup authorization_checks contains epoch
    get_rollup_info set_rollup_info get_rollup_registry set_rollup_registry inner_get_rollup_info
    inner_get_registry read encode decode bytes_eq default_genesis
execute_announce_withdraw_example =
    execute_announce_withdraw example_vm example-StateLaws example-CodecLaws announce take_back
      alice alice none before announced taken_back refl refl refl refl refl refl refl

execute-OnlyAt_example : OnlyAt example_vm (0xf1 ∷ 5 ∷ []) before announced
execute-OnlyAt_example = execute-OnlyAt example_vm example-StateLaws announce alice before

execute-Atomic_example : Atomic before (execute example_vm announce alice before)
execute-Atomic_example = execute-Atomic example_vm announce alice before
