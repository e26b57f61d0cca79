-- ===== src/Actions/EpochExit/Panics.antt =====
-- An exit action dereferences the record of a registered namespace without testing it for nil.
use nodekit_seq.Prelude.{
  zero, suc, ◌≡◌, ◌∙◌, sym, not, Bool-cases, inl, inr, none, some, Option, Option-cases, List, ap,
  ◌==◌, arith,
}
use nodekit_seq.Prelude.Int.{ℤ, pos, negsuc}
use nodekit_seq.Outcome.{
  epoch_mismatch, exit_namespace_not_registered, exit_already_exists, exit_not_found,
  exit_op_code_not_supported, ok-injective, then_outcome,
}
use nodekit_seq.Outcome.Chains.{
  Returns, ok-Returns, err-Returns, and_then-Returns, raise_if-Returns,
}
use nodekit_seq.Vm.{Vm, Address, EpochInfo, NoPanics}
use nodekit_seq.Storage.Rollups.{get_rollup_info, get_rollup_registry}
use nodekit_seq.Storage.Exits.{get_epoch_exits}
use nodekit_seq.Storage.Returning.{
  get_rollup_info-Returns, get_rollup_registry-Returns, get_epoch_exits-Returns,
  set_epoch_exits-Returns,
}
use nodekit_seq.Actions.Utils.{contains, deref, check_authority}
use nodekit_seq.Actions.Utils.Authority.{check_authority-Returns}
use nodekit_seq.Actions.RollupRegistration.Registered.{Registered}
use nodekit_seq.Actions.EpochExit.{
  EpochExit, exit_index, has_exit, create_exit, delete_exit, by_op_code, changed_exits, execute,
}

by_op_code-Returns :
    (op : ℤ) (info : EpochInfo) (before : Option (List EpochInfo))
    → Returns (by_op_code op info before)
unfolding create_exit delete_exit
by_op_code-Returns (pos zero) info none = ok-Returns _
by_op_code-Returns (pos zero) info (some exits) =
    elim (Bool-cases (has_exit info.namespace exits)) [
      | inl p ↦ rw p (err-Returns exit_already_exists)
      | inr p ↦ rw p (ok-Returns _)
    ]
by_op_code-Returns (pos (suc zero)) info none = err-Returns exit_not_found
by_op_code-Returns (pos (suc zero)) info (some exits) =
    elim (Option-cases (exit_index info.namespace exits)) [
      | inl p ↦ rw p (err-Returns exit_not_found)
      | inr (i, p) ↦ rw p (ok-Returns _)
    ]
by_op_code-Returns (pos (suc (suc n))) info before = err-Returns exit_op_code_not_supported
by_op_code-Returns (negsuc n) info before = err-Returns exit_op_code_not_supported

module _ {S : Type 0} (vm : Vm S) where
  -- Where every namespace of the registry has a record, an exit action does not panic.
  pub execute-Returns :
      (e : EpochExit) (actor : Address) (s : S)
      → NoPanics vm
      → Registered vm s
      → Returns (execute vm e actor s).0
  unfolding execute Registered
  execute-Returns e actor s safe have =
      raise_if-Returns _ (not (e.epoch == e.info.epoch)) epoch_mismatch s λ _.
        and_then-Returns _ (get_rollup_registry vm s, s) (get_rollup_registry-Returns vm safe s)
          λ nss read.
            raise_if-Returns _ (not (contains nss e.info.namespace)) exit_namespace_not_registered s
              λ there.
                let (info, found) = have nss e.info.namespace (ap (λ p. p.0) read) (ground arith) in
                and_then-Returns _ (get_rollup_info vm e.info.namespace s, s)
                  (get_rollup_info-Returns vm safe e.info.namespace s)
                  λ o seen.
                    let known : some info ≡ o = ok-injective (sym found ∙ ap (λ p. p.0) seen) in
                    and_then-Returns _ (then_outcome (deref o) (check_authority actor), s)
                      (rw (← known) (check_authority-Returns actor info))
                      λ _ _.
                        and_then-Returns _ (get_epoch_exits vm e.epoch s, s)
                          (get_epoch_exits-Returns vm safe e.epoch s)
                          λ before _.
                            and_then-Returns _ (changed_exits e before, s)
                              (by_op_code-Returns e.op_code e.info before)
                              λ after _. set_epoch_exits-Returns vm safe e.epoch after s
