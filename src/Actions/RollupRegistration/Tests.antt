-- ===== src/Actions/RollupRegistration/Tests.antt =====
-- One rollup that is registered, updated and exited.
use nodekit_seq.Prelude.{ℕ, ◌≤◌, ◌≡◌, refl, some, [], ◌∷◌, ◌++◌, bytes_eq, if◌then◌else◌, put_be}
use nodekit_seq.Prelude.Int.{pos}
use nodekit_seq.Outcome.{ok}
use nodekit_seq.Vm.{RollupInfo}
use nodekit_seq.Vm.Example.{
  Store, example_vm, example-StateLaws, example-CodecLaws, read, encode, decode,
}
use nodekit_seq.Genesis.{default_genesis, get_epoch_length}
use nodekit_seq.Storage.Keys.{balance_key}
use nodekit_seq.Storage.Rollups.{
  get_rollup_info, set_rollup_info, get_rollup_registry, set_rollup_registry, inner_get_rollup_info,
  inner_get_registry,
}
use nodekit_seq.Actions.Utils.{contains, epoch, authorization_checks}
use nodekit_seq.Actions.RollupRegistration.{
  RollupRegistration, with_epochs, earliest, create_rollup, update_rollup, exit_rollup, execute,
  state_keys,
}
use nodekit_seq.Actions.RollupRegistration.Contract.{
  execute_authority, execute_creates, execute_updates, execute_exits,
}
use nodekit_seq.Actions.RollupRegistration.Frame.{registration_frame}
use nodekit_seq.Samples.{alice, bob, rules, rollup, rollup_name, registration, example-KeyLaws}

abbrev after : Store
after = (execute example_vm rules 0 alice registration []).1

-- Another fee recipient, and epochs that an update does not take.
abbrev update : RollupRegistration
update = record {
  info = record {
    namespace = rollup_name;
    fee_recipient = alice;
    authority_seq_address = bob;
    sequencer_public_key = [];
    start_epoch = 9;
    exit_epoch = 9;
  };
  namespace = rollup_name;
  op_code = pos 2;
}

abbrev updated : RollupInfo
updated = with_epochs 3 0 (update.info)

abbrev exit : RollupRegistration
exit = record { info = with_epochs 0 20 rollup; namespace = rollup_name; op_code = pos 1 }

execute_creates_example :
    (get_rollup_info example_vm rollup_name after ≡ ok (some rollup))
    × (rollup.exit_epoch ≡ 0)
    × ((current : ℕ) × (epoch 0 (get_epoch_length rules) ≡ ok current) × (earliest current ≤ 3))
    × (get_rollup_registry example_vm after
        ≡ ok (if contains [] rollup_name then [] else [] ++ (rollup_name ∷ [])))
unfolding execute create_rollup authorization_checks contains epoch get_rollup_info set_rollup_info
    get_rollup_registry set_rollup_registry inner_get_rollup_info inner_get_registry read encode
    decode bytes_eq default_genesis
execute_creates_example =
    execute_creates example_vm rules 0 alice example-StateLaws example-CodecLaws example-KeyLaws
      registration [] [] after rollup refl refl refl

execute_updates_example :
    (existing : RollupInfo) × (get_rollup_info example_vm rollup_name after ≡ ok (some existing))
    × (existing.authority_seq_address ≡ alice)
    × (updated ≡ with_epochs existing.start_epoch existing.exit_epoch (update.info))
    × (get_rollup_info example_vm rollup_name (execute example_vm rules 0 alice update after).1
        ≡ ok (some updated))
    × (get_rollup_registry example_vm (execute example_vm rules 0 alice update after).1
        ≡ ok (rollup_name ∷ []))
unfolding execute create_rollup update_rollup authorization_checks contains epoch get_rollup_info
    set_rollup_info get_rollup_registry set_rollup_registry inner_get_rollup_info inner_get_registry
    read encode decode bytes_eq default_genesis
execute_updates_example =
    execute_updates example_vm rules 0 alice example-StateLaws example-CodecLaws example-KeyLaws
      update (rollup_name ∷ []) after (execute example_vm rules 0 alice update after).1 updated refl
      refl refl

execute_exits_example :
    (existing : RollupInfo) × (get_rollup_info example_vm rollup_name after ≡ ok (some existing))
    × (existing.authority_seq_address ≡ alice)
    × (existing.start_epoch ≤ 20)
    × ((current : ℕ) × (epoch 12 (get_epoch_length rules) ≡ ok current) × (earliest current ≤ 20))
    × (with_epochs 3 20 rollup ≡ with_epochs existing.start_epoch 20 (exit.info))
    × (get_rollup_info example_vm rollup_name (execute example_vm rules 12 alice exit after).1
        ≡ ok (some (with_epochs 3 20 rollup)))
    × (get_rollup_registry example_vm (execute example_vm rules 12 alice exit after).1
        ≡ ok (rollup_name ∷ []))
unfolding execute create_rollup exit_rollup authorization_checks contains epoch get_rollup_info
    set_rollup_info get_rollup_registry set_rollup_registry inner_get_rollup_info inner_get_registry
    read encode decode bytes_eq default_genesis
execute_exits_example =
    execute_exits example_vm rules 12 alice example-StateLaws example-CodecLaws example-KeyLaws exit
      (rollup_name ∷ []) after (execute example_vm rules 12 alice exit after).1
      (with_epochs 3 20 rollup) refl refl refl

execute_authority_example :
    (existing : RollupInfo) × (get_rollup_info example_vm rollup_name after ≡ ok (some existing))
    × (existing.authority_seq_address ≡ alice)
unfolding execute create_rollup update_rollup authorization_checks contains epoch get_rollup_info
    set_rollup_info get_rollup_registry set_rollup_registry inner_get_rollup_info inner_get_registry
    read encode decode bytes_eq default_genesis
execute_authority_example =
    execute_authority example_vm rules 0 alice update (rollup_name ∷ []) after
      (execute example_vm rules 0 alice update after).1 updated refl refl refl

registration_frame_example :
    example_vm.get_value (balance_key bob) after ≡ example_vm.get_value (balance_key bob) []
unfolding contains state_keys bytes_eq balance_key put_be
registration_frame_example =
    registration_frame example_vm example-StateLaws rules 0 alice registration [] (balance_key bob)
      refl
