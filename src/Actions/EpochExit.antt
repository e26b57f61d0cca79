-- ===== src/Actions/EpochExit.antt =====
-- actions/epoch_exit.go: a rollup's authority announces, or takes back, an exit in an epoch.
pub mod Exits
pub mod Effect
pub mod Sound
pub mod Panics
mod Tests
use nodekit_seq.Actions.Utils.{default_nmt_namespace, always}
use nodekit_seq.Prelude.{
  ℕ, zero, suc, Bool, true, false, not, Option, none, some, List, [], ◌∷◌, ◌++◌, Bytes, bytes_eq,
  ◌==◌, if◌then◌else◌,
}
use mathlib.Core.Option.{map as option_map}
use nodekit_seq.Prelude.Int.{ℤ, pos}
use nodekit_seq.Outcome.{
  epoch_mismatch, exit_namespace_not_registered, exit_already_exists, exit_not_found,
  exit_op_code_not_supported, Outcome, ok, err, then_outcome, Action, lift, gets, raise_if, ◌>>=◌,
  ◌>>◌,
}
use nodekit_seq.Vm.{Vm, Address, EpochInfo}
use nodekit_seq.Storage.Rollups.{get_rollup_info, get_rollup_registry}
use nodekit_seq.Storage.Exits.{get_epoch_exits, set_epoch_exits}
use nodekit_seq.Actions.Utils.{contains, deref, check_authority}

pub record EpochExit : Type 0 where
  pub info : EpochInfo
  pub epoch : ℕ
  pub op_code : ℤ

-- The search loop of `DeleteExit`; `none` is the index -1.
unfoldable pub exit_index : Bytes → List EpochInfo → Option ℕ
exit_index ns [] = none
exit_index ns (es ∷ exits) =
    if bytes_eq ns es.namespace then some 0 else option_map suc (exit_index ns exits)

-- `slices.Delete(exits, idx, idx+1)`.
unfoldable pub delete_at : ℕ → List EpochInfo → List EpochInfo
delete_at idx [] = []
delete_at zero (es ∷ exits) = exits
delete_at (suc idx) (es ∷ exits) = es ∷ delete_at idx exits

-- The search loop of `CreateExit`.
unfoldable pub has_exit : Bytes → List EpochInfo → Bool
has_exit ns [] = false
has_exit ns (es ∷ exits) = if bytes_eq ns es.namespace then true else has_exit ns exits

-- The new exits under `CreateExit`, where a nil record is made an empty one.
unfoldable pub create_exit : EpochInfo → Option (List EpochInfo) → Outcome (List EpochInfo)
create_exit info none = ok (info ∷ [])
create_exit info (some exits) =
    if has_exit info.namespace exits then err exit_already_exists else ok (exits ++ (info ∷ []))

abbrev deleted : List EpochInfo → Option ℕ → Outcome (List EpochInfo)
deleted exits none = err exit_not_found
deleted exits (some idx) = ok (delete_at idx exits)

unfoldable pub delete_exit : EpochInfo → Option (List EpochInfo) → Outcome (List EpochInfo)
delete_exit info none = err exit_not_found
delete_exit info (some exits) = deleted exits (exit_index info.namespace exits)

-- The switch on the op code: `CreateExit` is 0 and `DeleteExit` 1.
abbrev pub by_op_code : ℤ → EpochInfo → Option (List EpochInfo) → Outcome (List EpochInfo)
by_op_code (pos zero) info exits = create_exit info exits
by_op_code (pos (suc zero)) info exits = delete_exit info exits
by_op_code op info exits = err exit_op_code_not_supported

abbrev pub changed_exits : EpochExit → Option (List EpochInfo) → Outcome (List EpochInfo)
changed_exits e epoch_exits = by_op_code e.op_code e.info epoch_exits

module _ {S : Type 0} (vm : Vm S) where
  unfoldable pub execute : EpochExit → Address → Action S (Unit {0})
  execute e actor = do
    raise_if (not (e.epoch == e.info.epoch)) epoch_mismatch
    nss ← gets (get_rollup_registry vm)
    raise_if (not (contains nss e.info.namespace)) exit_namespace_not_registered
    rollup_info ← gets (get_rollup_info vm e.info.namespace)
    lift (then_outcome (deref rollup_info) (check_authority actor))
    epoch_exits ← gets (get_epoch_exits vm e.epoch)
    exits ← lift (changed_exits e epoch_exits)
    set_epoch_exits vm e.epoch exits

  -- `StateKeys`.
  pub state_keys : EpochExit → List Bytes
  state_keys e =
      vm.epoch_exits_key e.epoch ∷ vm.rollup_info_key e.info.namespace ∷ vm.rollup_registry_key ∷ []

-- What hypersdk asks of the action beside its execution.
abbrev pub compute_units : EpochExit → ℕ
compute_units action = 10

abbrev pub valid_range : EpochExit → ℤ × ℤ
valid_range action = always

abbrev pub nmt_namespace : EpochExit → Bytes
nmt_namespace action = default_nmt_namespace

abbrev pub use_fee_market : EpochExit → Bool
use_fee_market action = false
