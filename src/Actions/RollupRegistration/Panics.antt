-- ===== src/Actions/RollupRegistration/Panics.antt =====
-- A registration dereferences the record of a registered namespace without testing it for nil, and
-- divides by the epoch length.
use nodekit_seq.Prelude.{
  ℕ, zero, suc, ◌≡◌, ◌∙◌, sym, ap, true, false, not, ◌||◌, ltb, Bool-cases, inl, inr, some, Option,
  List, Bytes, bytes_eq, ◌==◌, length,
}
use nodekit_seq.Prelude.Int.{ℤ, pos, negsuc, to_uint64}
use nodekit_seq.Outcome.{
  Context, namespace_not_registered, unable_to_get_namespaces, authorization_failed,
  authorization_failed_update, unable_to_set_info_create, unable_to_set_info_update,
  unable_to_set_info_exit, unable_to_get_existing_info, namespace_mismatch, namespace_too_long,
  create_epoch_not_valid, exit_epoch_not_zero, exit_epoch_not_valid, rollup_op_code_not_supported,
  ok-injective, wrap, wrap_errors, and_then, pure, Action, gets, lift, ◌>>=◌, ◌>>◌,
}
use nodekit_seq.Outcome.Chains.{
  Returns, ok-Returns, err-Returns, wrap-ok, wrap-Returns, then_outcome-Returns, and_then-Returns,
  raise_if-Returns,
}
use nodekit_seq.Vm.{Vm, Address, RollupInfo, NoPanics}
use nodekit_seq.Genesis.{Rules, get_epoch_length}
use nodekit_seq.Storage.Rollups.{
  get_rollup_info, set_rollup_info, get_rollup_registry, set_rollup_registry,
}
use nodekit_seq.Storage.Returning.{
  get_rollup_info-Returns, get_rollup_registry-Returns, set_rollup_info-Returns,
  set_rollup_registry-Returns,
}
use nodekit_seq.Actions.Utils.{contains, deref, authorization_checks, epoch}
use nodekit_seq.Actions.Utils.Authority.{check_authority-Returns}
use nodekit_seq.Actions.RollupRegistration.{
  RollupRegistration, with_epochs, earliest, create_guards, joined, create_rollup, update_rollup,
  exit_rollup, by_op_code, execute,
}
use nodekit_seq.Actions.RollupRegistration.Effect.{authorization_checks-Authorized}
use nodekit_seq.Actions.RollupRegistration.Registered.{HasInfo, Registered}

pub epoch-Returns : (hght : ℕ) (len : ℤ) → (to_uint64 len == 0) ≡ false → Returns (epoch hght len)
unfolding epoch
epoch-Returns hght len h = rw h (ok-Returns _)

create_guards-Returns : (current : ℕ) (info : RollupInfo) → Returns (create_guards current info)
create_guards-Returns current info =
    elim (Bool-cases (ltb info.start_epoch (earliest current) || not (info.exit_epoch == 0))) [
      | inl p ↦ rw p (err-Returns create_epoch_not_valid)
      | inr p ↦ rw p (elim (Bool-cases (not (info.exit_epoch == 0))) [
        | inl q ↦ rw q (err-Returns exit_epoch_not_zero)
        | inr q ↦ rw q (ok-Returns tt)
      ])
    ]

deref-Returns : {A : Type 0} (o : Option A) (a : A) → o ≡ some a → Returns (deref o)
deref-Returns o a h = rw h (ok-Returns a)

module _ {S : Type 0} (vm : Vm S) (safe : NoPanics vm) (actor : Address) where
  authorization_checks-Returns :
      (namespaces : List Bytes) (n : Bytes) (s : S)
      → (contains namespaces n ≡ true → HasInfo vm n s)
      → Returns (authorization_checks vm actor namespaces n s)
  unfolding authorization_checks
  authorization_checks-Returns namespaces n s have = elim (Bool-cases (contains namespaces n)) [
    | inr out ↦ rw out (err-Returns namespace_not_registered)
    | inl there ↦
        let (info, found) = have there in rw (there, found) (check_authority-Returns actor info)
  ]

  stored_Returns :
      {A : Type 0} (c : Context) (n : Bytes) (info : RollupInfo) (s : S) (x : A)
      → Returns (and_then (λ _. pure x) (wrap_errors c (set_rollup_info vm n info) s)).0
  stored_Returns c n info s x =
      and_then-Returns _ (wrap_errors c (set_rollup_info vm n info) s)
        (wrap-Returns c (set_rollup_info vm n info s).0 (set_rollup_info-Returns vm safe n info s))
        λ _ _. ok-Returns x

  module _ (rules : Rules) (hght : ℕ) where
    -- The authorization and the read of the record, in front of an update or an exit.
    checked_Returns :
        {A : Type 0} (c : Context) (namespaces : List Bytes) (n : Bytes) (s : S)
        (k : RollupInfo → Action S A)
        → (contains namespaces n ≡ true → HasInfo vm n s)
        → ((existing : RollupInfo) → Returns (k existing s).0)
        → Returns
            ((wrap_errors c (gets (authorization_checks vm actor namespaces n))
                >> (wrap_errors unable_to_get_existing_info (gets (get_rollup_info vm n)) >>= λ o.
                    lift (deref o) >>= k))
              s).0
    checked_Returns c namespaces n s k have rest =
        let checks = authorization_checks vm actor namespaces n s in
        let read = get_rollup_info vm n s in
        and_then-Returns _ (wrap c checks, s)
          (wrap-Returns c checks (authorization_checks-Returns namespaces n s have))
          λ _ passed.
            let a =
              authorization_checks-Authorized vm rules hght actor n namespaces s
                (wrap-ok c checks (ap (λ p. p.0) passed)) in
            and_then-Returns _ (wrap unable_to_get_existing_info read, s)
              (wrap-Returns unable_to_get_existing_info read (get_rollup_info-Returns vm safe n s))
              λ o seen.
                let found = wrap-ok unable_to_get_existing_info read (ap (λ p. p.0) seen) in
                let known : o ≡ some a.existing = ok-injective (sym found ∙ a.read_info) in
                and_then-Returns _ (deref o, s) (deref-Returns o a.existing known)
                  λ existing _. rest existing

    joined-Returns :
        (r : RollupRegistration) (namespaces : List Bytes) (s : S)
        → (contains namespaces r.namespace ≡ true → HasInfo vm r.namespace s)
        → Returns (joined vm rules hght actor r namespaces s)
    joined-Returns r namespaces s have =
        let checks = authorization_checks vm actor namespaces r.namespace s in
        elim (Bool-cases (contains namespaces r.namespace)) [
          | inr out ↦ rw out (ok-Returns _)
          | inl there ↦ rw there (
              then_outcome-Returns _ (wrap authorization_failed checks)
                (wrap-Returns authorization_failed checks
                  (authorization_checks-Returns namespaces r.namespace s have))
                λ _ _. ok-Returns namespaces)
        ]

    module _ (length_nonzero : (to_uint64 (get_epoch_length rules) == 0) ≡ false) where
      by_op_code-Returns :
          (op : ℤ) (r : RollupRegistration) (namespaces : List Bytes) (s : S)
          → (contains namespaces r.namespace ≡ true → HasInfo vm r.namespace s)
          → Returns (by_op_code vm rules hght actor op r namespaces s).0
      unfolding create_rollup update_rollup exit_rollup
      by_op_code-Returns (pos zero) r namespaces s have =
          and_then-Returns _ (joined vm rules hght actor r namespaces s, s)
            (joined-Returns r namespaces s have)
            λ nss _.
              and_then-Returns _ (epoch hght (get_epoch_length rules), s)
                (epoch-Returns hght (get_epoch_length rules) length_nonzero)
                λ current _.
                  and_then-Returns _ (create_guards current r.info, s)
                    (create_guards-Returns current r.info)
                    λ _ _. stored_Returns unable_to_set_info_create r.namespace r.info s _
      by_op_code-Returns (pos (suc zero)) r namespaces s have =
          checked_Returns unable_to_set_info_exit namespaces r.namespace s _ have λ existing.
            and_then-Returns _ (epoch hght (get_epoch_length rules), s)
              (epoch-Returns hght (get_epoch_length rules) length_nonzero)
              λ current _.
                raise_if-Returns _
                  (ltb r.info.exit_epoch existing.start_epoch
                    || ltb r.info.exit_epoch (earliest current))
                  exit_epoch_not_valid s
                  λ _.
                    stored_Returns unable_to_set_info_exit r.namespace
                      (with_epochs existing.start_epoch r.info.exit_epoch r.info) s _
      by_op_code-Returns (pos (suc (suc zero))) r namespaces s have =
          checked_Returns authorization_failed_update namespaces r.namespace s _ have λ existing.
            stored_Returns unable_to_set_info_update r.namespace
              (with_epochs existing.start_epoch existing.exit_epoch r.info) s _
      by_op_code-Returns (pos (suc (suc (suc n)))) r namespaces s have =
          err-Returns rollup_op_code_not_supported
      by_op_code-Returns (negsuc n) r namespaces s have = err-Returns rollup_op_code_not_supported

      -- Where every namespace of the registry has a record and epochs have a length, a
      -- registration does not panic.
      pub execute-Returns :
          (r : RollupRegistration) (s : S)
          → Registered vm s
          → Returns (execute vm rules hght actor r s).0
      unfolding execute Registered
      execute-Returns r s have =
          let read = get_rollup_registry vm s in
          raise_if-Returns _ (not (bytes_eq r.namespace r.info.namespace)) namespace_mismatch s λ _.
            raise_if-Returns _ (ltb vm.max_namespace_len (length r.namespace)) namespace_too_long s
              λ _.
                and_then-Returns _ (wrap unable_to_get_namespaces read, s)
                  (wrap-Returns unable_to_get_namespaces read
                    (get_rollup_registry-Returns vm safe s))
                  λ nss seen.
                    let known = wrap-ok unable_to_get_namespaces read (ap (λ p. p.0) seen) in
                    let m = by_op_code vm rules hght actor r.op_code r nss s in
                    and_then-Returns _ m
                      (by_op_code-Returns r.op_code r nss s
                        (λ there. have nss r.namespace known there))
                      λ kept _.
                        and_then-Returns _ (set_rollup_registry vm kept.1 m.1)
                          (set_rollup_registry-Returns vm safe kept.1 m.1) λ _ _. ok-Returns kept.0
