-- ===== src/Actions/RollupRegistration/Keeps.antt =====
-- A property that the read parts of an operation and its one write keep, an operation keeps, however
-- it ends.
use nodekit_seq.Prelude.{ℕ, zero, suc, List, Bytes, ltb, ◌||◌}
use nodekit_seq.Prelude.Int.{ℤ, pos, negsuc}
use nodekit_seq.Outcome.{
  Context, wrap, wrap_errors, and_then, pure, unable_to_set_info_create, unable_to_set_info_update,
  unable_to_set_info_exit, authorization_failed_update, unable_to_get_existing_info,
  exit_epoch_not_valid,
}
use nodekit_seq.Outcome.Chains.{and_then-keeps, raise_if-keeps}
use nodekit_seq.Vm.{Vm, Address, RollupInfo}
use nodekit_seq.Genesis.{Rules, get_epoch_length}
use nodekit_seq.Storage.Rollups.{get_rollup_info, set_rollup_info}
use nodekit_seq.Actions.Utils.{epoch, deref, authorization_checks}
use nodekit_seq.Actions.RollupRegistration.{
  RollupRegistration, with_epochs, earliest, joined, create_guards, by_op_code, create_rollup,
  update_rollup, exit_rollup,
}

module _ {S : Type 0} (vm : Vm S) (rules : Rules) (hght : ℕ) (actor : Address) where
  module _ (P : S → Type 0) (s : S) (now : P s) where
    -- The write that ends each operation.
    stored :
        {A : Type 0} (c : Context) (n : Bytes) (info : RollupInfo) (x : A)
        → P (set_rollup_info vm n info s).1
        → P (and_then (λ _. pure x) (wrap_errors c (set_rollup_info vm n info) s)).1
    stored c n info x h =
        and_then-keeps P _ (wrap_errors c (set_rollup_info vm n info) s) h λ _ _. h

    pub by_op_code-keeps :
        (op : ℤ) (r : RollupRegistration) (namespaces : List Bytes)
        → ((info : RollupInfo) → P (set_rollup_info vm r.namespace info s).1)
        → P (by_op_code vm rules hght actor op r namespaces s).1
    unfolding create_rollup update_rollup exit_rollup
    by_op_code-keeps (pos zero) r namespaces write =
        and_then-keeps P _ (joined vm rules hght actor r namespaces s, s) now
          λ nss _.
            and_then-keeps P _ (epoch hght (get_epoch_length rules), s) now
              λ current _.
                and_then-keeps P _ (create_guards current r.info, s) now
                  λ _ _. stored unable_to_set_info_create r.namespace r.info _ (write r.info)
    by_op_code-keeps (pos (suc zero)) r namespaces write =
        and_then-keeps P _
          (wrap unable_to_set_info_exit (authorization_checks vm actor namespaces r.namespace s), s)
          now
          λ _ _.
            and_then-keeps P _
              (wrap unable_to_get_existing_info (get_rollup_info vm r.namespace s), s) now
              λ o _.
                and_then-keeps P _ (deref o, s) now
                  λ existing _.
                    and_then-keeps P _ (epoch hght (get_epoch_length rules), s) now
                      λ current _.
                        raise_if-keeps _ P
                          (ltb r.info.exit_epoch existing.start_epoch
                            || ltb r.info.exit_epoch (earliest current))
                          exit_epoch_not_valid s now
                          λ _.
                            stored unable_to_set_info_exit r.namespace
                              (with_epochs existing.start_epoch r.info.exit_epoch r.info) _
                              (write (with_epochs existing.start_epoch r.info.exit_epoch r.info))
    by_op_code-keeps (pos (suc (suc zero))) r namespaces write =
        and_then-keeps P _
          (
            wrap authorization_failed_update
                (authorization_checks vm actor namespaces r.namespace s),
            s,
          )
          now
          λ _ _.
            and_then-keeps P _
              (wrap unable_to_get_existing_info (get_rollup_info vm r.namespace s), s) now
              λ o _.
                and_then-keeps P _ (deref o, s) now
                  λ existing _.
                    stored unable_to_set_info_update r.namespace
                      (with_epochs existing.start_epoch existing.exit_epoch r.info) _
                      (write (with_epochs existing.start_epoch existing.exit_epoch r.info))
    by_op_code-keeps (pos (suc (suc (suc n)))) r namespaces write = now
    by_op_code-keeps (negsuc n) r namespaces write = now
