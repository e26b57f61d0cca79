-- ===== src/Actions/RollupRegistration.antt =====
-- actions/rollup_register.go: creating, updating and exiting a rollup.
pub mod Effect
pub mod Operations
pub mod Contract
pub mod Keeps
pub mod Frame
pub mod Registered
pub mod Invariant
pub mod Panics
mod Tests
use nodekit_seq.Actions.Utils.{default_nmt_namespace, always}
use nodekit_seq.Prelude.{
  ℕ, zero, suc, ◌+◌, ◌%◌, ◌^◌, Bool, true, false, not, ◌||◌, ltb, List, [], ◌∷◌, ◌++◌, Bytes,
  bytes_eq, length, ◌==◌, if◌then◌else◌,
}
use nodekit_seq.Prelude.Int.{ℤ, pos}
use nodekit_seq.Outcome.{
  Context, unable_to_get_namespaces, authorization_failed, authorization_failed_update,
  unable_to_set_info_create, unable_to_set_info_update, unable_to_set_info_exit,
  unable_to_get_existing_info, namespace_mismatch, namespace_too_long, create_epoch_not_valid,
  exit_epoch_not_zero, exit_epoch_not_valid, rollup_op_code_not_supported, Outcome, ok, err, wrap,
  Action, pure, raise, lift, gets, wrap_errors, raise_if, then_outcome, ◌>>=◌, ◌>>◌,
}
use nodekit_seq.Vm.{Vm, Address, RollupInfo}
use nodekit_seq.Genesis.{Rules, get_epoch_length}
use nodekit_seq.Storage.Rollups.{
  get_rollup_info, set_rollup_info, get_rollup_registry, set_rollup_registry,
}
use nodekit_seq.Actions.Utils.{contains, deref, authorization_checks, epoch}

pub record RollupRegistration : Type 0 where
  pub info : RollupInfo
  pub namespace : Bytes
  pub op_code : ℤ

-- The assignments to `r.Info.StartEpoch` and `r.Info.ExitEpoch`.
abbrev pub with_epochs : ℕ → ℕ → RollupInfo → RollupInfo
with_epochs start exit info = record {
  namespace = info.namespace;
  fee_recipient = info.fee_recipient;
  authority_seq_address = info.authority_seq_address;
  sequencer_public_key = info.sequencer_public_key;
  start_epoch = start;
  exit_epoch = exit;
}

-- `Epoch(hght, rules.GetEpochLength())+2`, on a word.
abbrev pub earliest : ℕ → ℕ
earliest current = (current + 2) % 2 ^ 64

-- The two guards of `CreateRollup`, of which the second cannot fire.
abbrev pub create_guards : ℕ → RollupInfo → Outcome (Unit {0})
create_guards current info =
    if ltb info.start_epoch (earliest current) || not (info.exit_epoch == 0)
    then err create_epoch_not_valid
    else if not (info.exit_epoch == 0)
    then err exit_epoch_not_zero
    else ok tt

module _ {S : Type 0} (vm : Vm S) (rules : Rules) (hght : ℕ) (actor : Address) where
  -- What is left of `r.Info` and of the list of namespaces.
  abbrev pub Kept : Type 0
  Kept = RollupInfo × List Bytes

  abbrev pub joined : RollupRegistration → List Bytes → S → Outcome (List Bytes)
  joined r namespaces s =
      if contains namespaces r.namespace
      then (then_outcome
          (wrap authorization_failed (authorization_checks vm actor namespaces r.namespace s))
          (λ _. ok namespaces))
      else ok (namespaces ++ (r.namespace ∷ []))

  unfoldable pub create_rollup : RollupRegistration → List Bytes → Action S Kept
  create_rollup r namespaces = do
    namespaces' ← gets (joined r namespaces)
    current ← lift (epoch hght (get_epoch_length rules))
    lift (create_guards current r.info)
    wrap_errors unable_to_set_info_create (set_rollup_info vm r.namespace r.info)
    pure (r.info, namespaces')

  unfoldable pub update_rollup : RollupRegistration → List Bytes → Action S Kept
  update_rollup r namespaces = do
    wrap_errors authorization_failed_update
        (gets (authorization_checks vm actor namespaces r.namespace))
    found ← wrap_errors unable_to_get_existing_info (gets (get_rollup_info vm r.namespace))
    existing ← lift (deref found)
    let info = with_epochs existing.start_epoch existing.exit_epoch r.info
    wrap_errors unable_to_set_info_update (set_rollup_info vm r.namespace info)
    pure (info, namespaces)

  unfoldable pub exit_rollup : RollupRegistration → List Bytes → Action S Kept
  exit_rollup r namespaces = do
    wrap_errors unable_to_set_info_exit
        (gets (authorization_checks vm actor namespaces r.namespace))
    found ← wrap_errors unable_to_get_existing_info (gets (get_rollup_info vm r.namespace))
    existing ← lift (deref found)
    current ← lift (epoch hght (get_epoch_length rules))
    raise_if
        (ltb r.info.exit_epoch existing.start_epoch || ltb r.info.exit_epoch (earliest current))
        exit_epoch_not_valid
    let info = with_epochs existing.start_epoch r.info.exit_epoch r.info
    wrap_errors unable_to_set_info_exit (set_rollup_info vm r.namespace info)
    pure (info, namespaces)

  -- The switch: `CreateRollup` is 0, `ExitRollup` 1 and `UpdateRollup` 2.
  abbrev pub by_op_code : ℤ → RollupRegistration → List Bytes → Action S Kept
  by_op_code (pos zero) r namespaces = create_rollup r namespaces
  by_op_code (pos (suc zero)) r namespaces = exit_rollup r namespaces
  by_op_code (pos (suc (suc zero))) r namespaces = update_rollup r namespaces
  by_op_code op r namespaces = raise rollup_op_code_not_supported

  -- The value is what the call leaves in `r.Info`, the field that it rewrites.
  unfoldable pub execute : RollupRegistration → Action S RollupInfo
  execute r = do
    raise_if (not (bytes_eq r.namespace r.info.namespace)) namespace_mismatch
    raise_if (ltb vm.max_namespace_len (length r.namespace)) namespace_too_long
    namespaces ← wrap_errors unable_to_get_namespaces (gets (get_rollup_registry vm))
    kept ← by_op_code r.op_code r namespaces
    set_rollup_registry vm kept.1
    pure kept.0

-- `StateKeys`.
unfoldable pub state_keys : {S : Type 0} → Vm S → RollupRegistration → List Bytes
state_keys vm r = vm.rollup_info_key r.namespace ∷ vm.rollup_registry_key ∷ []

-- What hypersdk asks of the action beside its execution.
abbrev pub valid_range : RollupRegistration → ℤ × ℤ
valid_range action = always

abbrev pub nmt_namespace : RollupRegistration → Bytes
nmt_namespace action = default_nmt_namespace

abbrev pub use_fee_market : RollupRegistration → Bool
use_fee_market action = false
