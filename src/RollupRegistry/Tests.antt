-- ===== src/RollupRegistry/Tests.antt =====
-- Two rollups of one name, of which the later one stays.
use nodekit_seq.Prelude.{In, ◌≡◌, refl, ◌↔◌, true, some, [], ◌∷◌, Bytes, bytes_eq}
use nodekit_seq.Vm.{RollupInfo}
use nodekit_seq.Actions.RollupRegistration.{with_epochs}
use nodekit_seq.RollupRegistry.{
  Rollups, lookup, assign, delete_func, assign_all, update, rollups_valid_at_epoch,
}
use nodekit_seq.RollupRegistry.Cache.{Keyed, kept, newest, lookup-update}
use nodekit_seq.RollupRegistry.Queries.{rollups_valid_at_epoch-In}
use nodekit_seq.Samples.{rollup, example_life}

abbrev exiting : RollupInfo
exiting = with_epochs 3 20 rollup

abbrev cache : Rollups
cache = update example_life 4 (rollup ∷ exiting ∷ []) []

-- At its exit epoch the rollup is dropped.
dropped : update example_life 20 [] cache ≡ []
unfolding update assign_all assign delete_func bytes_eq
dropped = refl

lookup-update_example :
    ((j : Bytes)
      → lookup j (update example_life 4 (rollup ∷ exiting ∷ []) [])
        ≡ kept
            (λ r. example_life.exited r 4)
            (newest example_life (rollup ∷ exiting ∷ []) j (lookup j [])))
    × Keyed cache
lookup-update_example = lookup-update example_life 4 (rollup ∷ exiting ∷ []) [] tt

rollups_valid_at_epoch-In_example : In exiting (rollups_valid_at_epoch example_life 5 cache) ↔ (
    (j : Bytes) × (lookup j cache ≡ some exiting) × (example_life.valid_at_epoch exiting 5 ≡ true))
unfolding update assign_all assign delete_func lookup bytes_eq
rollups_valid_at_epoch-In_example =
    rollups_valid_at_epoch-In example_life 5 exiting cache (refl, tt)
