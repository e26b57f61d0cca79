-- ===== src/RollupRegistry.antt =====
-- rollup_registry/registry.go: a node's cache of the rollups, filled at each accepted block and asked
-- for those that are valid in an epoch. Its lock makes every call one step.
pub mod Cache
pub mod Queries
mod Tests
use nodekit_seq.Prelude.{ℕ, Bool, Option, none, some, List, [], ◌∷◌, Bytes, bytes_eq, if◌then◌else◌}
use nodekit_seq.Vm.{RollupInfo}

-- What the cache asks of an `hactions.RollupInfo`.
pub record Lifecycle : Type 0 where
  pub id : RollupInfo → Bytes
  pub valid_at_epoch : RollupInfo → ℕ → Bool
  pub exited : RollupInfo → ℕ → Bool

-- The map `rollups`; Go gives no order to its entries, and no theorem depends on the order here.
abbrev pub Rollups : Type 0
Rollups = List (Bytes × RollupInfo)

abbrev pub new_rollup_registry : Rollups
new_rollup_registry = []

unfoldable pub lookup : Bytes → Rollups → Option RollupInfo
lookup key [] = none
lookup key ((k, rollup) ∷ rollups) = if bytes_eq k key then some rollup else lookup key rollups

-- `r.rollups[key] = rollup`.
unfoldable pub assign : Bytes → RollupInfo → Rollups → Rollups
assign key rollup [] = (key, rollup) ∷ []
assign key rollup ((k, old) ∷ rollups) =
    if bytes_eq k key then (k, rollup) ∷ rollups else (k, old) ∷ assign key rollup rollups

-- `maps.DeleteFunc`.
unfoldable pub delete_func : (RollupInfo → Bool) → Rollups → Rollups
delete_func del [] = []
delete_func del ((k, rollup) ∷ rollups) =
    let rest = delete_func del rollups in if del rollup then rest else (k, rollup) ∷ rest

module _ (life : Lifecycle) where
  open life use {id, valid_at_epoch, exited}

  -- The loop of `Update`.
  unfoldable pub assign_all : List RollupInfo → Rollups → Rollups
  assign_all [] rollups = rollups
  assign_all (rollup ∷ rest) rollups = assign_all rest (assign (id rollup) rollup rollups)

  unfoldable pub update : ℕ → List RollupInfo → Rollups → Rollups
  update current_epoch new rollups =
      delete_func (λ rollup. exited rollup current_epoch) (assign_all new rollups)

  unfoldable pub rollups_valid_at_epoch : ℕ → Rollups → List RollupInfo
  rollups_valid_at_epoch epoch [] = []
  rollups_valid_at_epoch epoch ((k, rollup) ∷ rollups) =
      let rest = rollups_valid_at_epoch epoch rollups in
      if valid_at_epoch rollup epoch then rollup ∷ rest else rest
