-- ===== src/Actions/RollupRegistration/Effect.antt =====
-- What a registration action that returns has checked and stored.
use nodekit_seq.Prelude.{
  ℕ, ◌≤◌, ◌≡◌, ap, ◌∙◌, true, not, ltb, Bool-cases, inl, inr, some, List, Bytes, bytes_eq,
  bytes_eq→eq, length, arith,
}
use nodekit_seq.Outcome.{
  unable_to_get_namespaces, namespace_mismatch, namespace_too_long, ok, wrap, and_then-ok,
}
use nodekit_seq.Outcome.Chains.{wrap-ok, then-pure, then_outcome-ok, lift-then, raise_if-then}
use nodekit_seq.Vm.{Vm, Address, RollupInfo}
use nodekit_seq.Genesis.{Rules}
use nodekit_seq.Storage.Rollups.{get_rollup_info, get_rollup_registry, set_rollup_registry}
use nodekit_seq.Actions.Utils.{contains, authorization_checks}
use nodekit_seq.Actions.Utils.Authority.{authority_of}
use nodekit_seq.Actions.RollupRegistration.{RollupRegistration, by_op_code, execute}

module _ {S : Type 0} (vm : Vm S) (rules : Rules) (hght : ℕ) (actor : Address) where
  -- Authorization passed: the namespace is registered, and the actor is the authority it names.
  pub record Authorized (ns : Bytes) (namespaces : List Bytes) (s : S) : Type 0 where
    pub registered : contains namespaces ns ≡ true
    pub existing : RollupInfo
    pub read_info : get_rollup_info vm ns s ≡ ok (some existing)
    pub authority : existing.authority_seq_address ≡ actor

  pub authorization_checks-Authorized :
      (ns : Bytes) (namespaces : List Bytes) (s : S)
      → authorization_checks vm actor namespaces ns s ≡ ok tt
      → Authorized ns namespaces s
  unfolding authorization_checks
  authorization_checks-Authorized ns namespaces s h = elim (Bool-cases (contains namespaces ns)) [
    | inr out ↦ cc (rw out at h)
    | inl there ↦
        let (o, found, passed) = then_outcome-ok _ (get_rollup_info vm ns s) (rw there at h) in
        let (info, some_info, same) = authority_of o actor passed in
        record {
          registered = there;
          existing = info;
          read_info = found ∙ ap ok some_info;
          authority = same;
        }
  ]

  -- The registry was read, and then one operation ran, on a state that the registry's write follows.
  pub record Accepted (r : RollupRegistration) (s s' : S) (info : RollupInfo) : Type 0 where
    pub same_namespace : r.namespace ≡ r.info.namespace
    pub namespace_fits : length r.namespace ≤ vm.max_namespace_len
    pub namespaces : List Bytes
    pub read_registry : get_rollup_registry vm s ≡ ok namespaces
    pub namespaces' : List Bytes
    pub middle : S
    pub operation :
        by_op_code vm rules hght actor r.op_code r namespaces s ≡ (ok (info, namespaces'), middle)
    pub registry_set : set_rollup_registry vm namespaces' middle ≡ (ok tt, s')

  pub execute-Accepted :
      (r : RollupRegistration) (s s' : S) (info : RollupInfo)
      → execute vm rules hght actor r s ≡ (ok info, s')
      → Accepted r s s' info
  unfolding execute
  execute-Accepted r s s' info h =
      let (p₁, h₁) =
        raise_if-then _ (not (bytes_eq r.namespace r.info.namespace)) namespace_mismatch s h in
      let (p₂, h₂) =
        raise_if-then _ (ltb vm.max_namespace_len (length r.namespace)) namespace_too_long s h₁ in
      let (nss, p₃, h₃) =
        lift-then _ (wrap unable_to_get_namespaces (get_rollup_registry vm s)) s h₂ in
      let ((info', nss'), p₄, h₄) =
        and_then-ok _ (by_op_code vm rules hght actor r.op_code r nss s) h₃ in
      let (set, same) = then-pure info' (set_rollup_registry vm nss' _) h₄ in
      record {
        same_namespace = bytes_eq→eq r.namespace r.info.namespace (ground arith);
        namespace_fits = ground arith;
        namespaces = nss;
        read_registry = wrap-ok unable_to_get_namespaces (get_rollup_registry vm s) p₃;
        namespaces' = nss';
        middle = (by_op_code vm rules hght actor r.op_code r nss s).1;
        operation = rw (← same) p₄;
        registry_set = set;
      }
