-- ===== src/Actions/RollupRegistration/Frame.antt =====
-- What a registration can touch.
use nodekit_seq.Prelude.{ℕ, ◌≡◌, refl, ◌∙◌, false, not, ltb, length, bytes_eq, Bytes}
use nodekit_seq.Outcome.{namespace_mismatch, namespace_too_long, unable_to_get_namespaces, wrap}
use nodekit_seq.Outcome.Chains.{raise_if-keeps, and_then-keeps}
use nodekit_seq.Vm.{Vm, Address, StateLaws}
use nodekit_seq.Genesis.{Rules}
use nodekit_seq.Storage.Rollups.{get_rollup_registry, set_rollup_registry}
use nodekit_seq.Storage.Rollups.ReadBack.{set_rollup_info-OnlyAt, set_rollup_registry-OnlyAt}
use nodekit_seq.Actions.Utils.{contains}
use nodekit_seq.Actions.Utils.Members.{contains_pair}
use nodekit_seq.Actions.RollupRegistration.{RollupRegistration, state_keys, by_op_code, execute}
use nodekit_seq.Actions.RollupRegistration.Keeps.{by_op_code-keeps}

module _ {S : Type 0} (vm : Vm S) (laws : StateLaws vm) (rules : Rules) (hght : ℕ)
    (actor : Address) where
  -- However it ends, a registration changes the view at its state keys alone.
  pub registration_frame :
      (r : RollupRegistration) (s : S) (j : Bytes)
      → contains (state_keys vm r) j ≡ false
      → vm.get_value j (execute vm rules hght actor r s).1 ≡ vm.get_value j s
  unfolding execute state_keys
  registration_frame r s j h =
      let (ni, nr) = contains_pair _ _ j h in
      let P : S → Type 0 = λ t. vm.get_value j t ≡ vm.get_value j s in
      raise_if-keeps _ P (not (bytes_eq r.namespace r.info.namespace)) namespace_mismatch s refl
        λ _.
          raise_if-keeps _ P (ltb vm.max_namespace_len (length r.namespace)) namespace_too_long s
            refl
            λ _.
              and_then-keeps P _ (wrap unable_to_get_namespaces (get_rollup_registry vm s), s) refl
                λ nss _.
                  let m = by_op_code vm rules hght actor r.op_code r nss s in
                  let kept : P m.1 =
                    by_op_code-keeps vm rules hght actor P s refl r.op_code r nss
                      λ info. set_rollup_info-OnlyAt vm laws r.namespace info s j ni in
                  and_then-keeps P _ m kept λ k _.
                    let end : P (set_rollup_registry vm k.1 m.1).1 =
                      set_rollup_registry-OnlyAt vm laws k.1 m.1 j nr ∙ kept in
                    and_then-keeps P _ (set_rollup_registry vm k.1 m.1) end λ _ _. end
