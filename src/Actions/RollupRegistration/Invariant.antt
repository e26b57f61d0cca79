-- ===== src/Actions/RollupRegistration/Invariant.antt =====
-- A registration keeps the registry sound, however it ends.
use nodekit_seq.Prelude.{
  ℕ, zero, suc, ◌≡◌, refl, ap, true, inl, inr, List, Bytes, bytes_eq, not, ltb, length,
}
use nodekit_seq.Prelude.Int.{ℤ, pos, negsuc}
use nodekit_seq.Outcome.{ok, wrap, unable_to_get_namespaces, namespace_mismatch, namespace_too_long}
use nodekit_seq.Outcome.Chains.{wrap-ok, and_then-keeps, raise_if-keeps}
use nodekit_seq.Vm.{Vm, Address, RollupInfo, StateLaws, CodecLaws}
use nodekit_seq.Genesis.{Rules}
use nodekit_seq.Storage.KeyLaws.{KeyLaws}
use nodekit_seq.Storage.Rollups.{get_rollup_registry, set_rollup_registry}
use nodekit_seq.Storage.Rollups.ReadBack.{get-set_rollup_info}
use nodekit_seq.Actions.Utils.{contains}
use nodekit_seq.Actions.Utils.Members.{contains-append}
use nodekit_seq.Actions.RollupRegistration.{RollupRegistration, by_op_code, execute}
use nodekit_seq.Actions.RollupRegistration.Operations.{
  create_rollup-Created, update_rollup-Updated, exit_rollup-Exited,
}
use nodekit_seq.Actions.RollupRegistration.Keeps.{by_op_code-keeps}
use nodekit_seq.Actions.RollupRegistration.Registered.{
  HasInfo, Registered, Grows, set_rollup_info-Grows, Grows-Registered,
  set_rollup_registry-Registered,
}

module _ {S : Type 0} (vm : Vm S) (laws : StateLaws vm) (codec : CodecLaws vm) (keys : KeyLaws vm)
    (rules : Rules) (hght : ℕ) (actor : Address) where
  by_op_code-Grows :
      (op : ℤ) (r : RollupRegistration) (namespaces : List Bytes) (s : S)
      → Grows vm laws codec keys s (by_op_code vm rules hght actor op r namespaces s).1
  by_op_code-Grows op r namespaces s =
      by_op_code-keeps vm rules hght actor (Grows vm laws codec keys s) s (refl, λ m h. h) op r
        namespaces λ info. set_rollup_info-Grows vm laws codec keys r.namespace info s

  -- Every namespace that an operation leaves in the list has a record at its end.
  by_op_code-HasInfo :
      (op : ℤ) (r : RollupRegistration) (namespaces namespaces' : List Bytes) (s u : S)
      (info : RollupInfo)
      → ((n : Bytes) → contains namespaces n ≡ true → HasInfo vm n u)
      → by_op_code vm rules hght actor op r namespaces s ≡ (ok (info, namespaces'), u)
      → (n : Bytes) → contains namespaces' n ≡ true
      → HasInfo vm n u
  by_op_code-HasInfo (pos zero) r namespaces namespaces' s u info old h n there =
      let c = create_rollup-Created vm rules hght actor r namespaces namespaces' s u info h in
      elim (c.join.case) [
        | inr (a, kept) ↦ old n (rw kept at there)
        | inl (out, added) ↦ elim (contains-append namespaces r.namespace n (rw added at there)) [
          | inl before ↦ old n before
          | inr new ↦ (
            r.info,
            rw (← new) (get-set_rollup_info vm laws codec r.namespace r.info s u c.info_set),
          )
        ]
      ]
  by_op_code-HasInfo (pos (suc zero)) r namespaces namespaces' s u info old h n there =
      let c = exit_rollup-Exited vm rules hght actor r namespaces namespaces' s u info h in
      old n (rw (← c.registry_same) at there)
  by_op_code-HasInfo (pos (suc (suc zero))) r namespaces namespaces' s u info old h n there =
      let c = update_rollup-Updated vm rules hght actor r namespaces namespaces' s u info h in
      old n (rw (← c.registry_same) at there)
  by_op_code-HasInfo (pos (suc (suc (suc k)))) r namespaces namespaces' s u info old h n there =
      cc h
  by_op_code-HasInfo (negsuc k) r namespaces namespaces' s u info old h n there = cc h

  -- However a registration ends, every namespace of the registry has a record after it.
  pub execute-Registered :
      (r : RollupRegistration) (s : S)
      → Registered vm s
      → Registered vm (execute vm rules hght actor r s).1
  unfolding execute Registered
  execute-Registered r s before =
      raise_if-keeps _ (Registered vm) (not (bytes_eq r.namespace r.info.namespace))
        namespace_mismatch s before
        λ _.
          raise_if-keeps _ (Registered vm) (ltb vm.max_namespace_len (length r.namespace))
            namespace_too_long s before
            λ _.
              and_then-keeps (Registered vm) _
                (wrap unable_to_get_namespaces (get_rollup_registry vm s), s) before
                λ nss read.
                  let m = by_op_code vm rules hght actor r.op_code r nss s in
                  let grown = by_op_code-Grows r.op_code r nss s in
                  let still : Registered vm m.1 =
                    Grows-Registered vm laws codec keys s m.1 grown before in
                  let registry : get_rollup_registry vm s ≡ ok nss =
                    wrap-ok unable_to_get_namespaces _ (ap (λ p. p.0) read) in
                  and_then-keeps (Registered vm) _ m still λ kept done.
                    let have =
                      by_op_code-HasInfo r.op_code r nss kept.1 s m.1 kept.0
                        (λ n there. grown.1 n (before nss n registry there)) done in
                    let end =
                      set_rollup_registry-Registered vm laws codec keys kept.1 m.1 still have in
                    and_then-keeps (Registered vm) _ (set_rollup_registry vm kept.1 m.1) end
                      λ _ _. end
