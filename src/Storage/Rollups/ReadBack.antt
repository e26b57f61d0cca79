-- ===== src/Storage/Rollups/ReadBack.antt =====
-- What is stored of a rollup is read back, and is read from its own key.
use nodekit_seq.Prelude.{◌≡◌, refl, ◌≢◌, inl, inr, some, List, Bytes}
use nodekit_seq.Outcome.{ok, Outcome-cases}
use nodekit_seq.Vm.{Vm, RollupInfo, StateLaws, CodecLaws}
use nodekit_seq.Storage.View.{OnlyAt, get_value-insert_self, written-ok, modify_insert-OnlyAt}
use nodekit_seq.Storage.Rollups.{
  get_rollup_info, set_rollup_info, get_rollup_registry, set_rollup_registry,
}

module _ {S : Type 0} (vm : Vm S) where
  open vm use {rollup_info_key, rollup_registry_key}

  pub get_rollup_info-OnlyAt :
      (k n : Bytes) (s s' : S)
      → OnlyAt vm k s s'
      → k ≢ rollup_info_key n
      → get_rollup_info vm n s' ≡ get_rollup_info vm n s
  unfolding get_rollup_info
  get_rollup_info-OnlyAt k n s s' only ne = rw (only (rollup_info_key n) ne)

  pub get_rollup_registry-OnlyAt :
      (k : Bytes) (s s' : S)
      → OnlyAt vm k s s'
      → k ≢ rollup_registry_key
      → get_rollup_registry vm s' ≡ get_rollup_registry vm s
  unfolding get_rollup_registry
  get_rollup_registry-OnlyAt k s s' only ne = rw (only rollup_registry_key ne)

  module _ (laws : StateLaws vm) where
    pub set_rollup_info-OnlyAt :
        (n : Bytes) (i : RollupInfo) (s : S)
        → OnlyAt vm (rollup_info_key n) s (set_rollup_info vm n i s).1
    unfolding set_rollup_info
    set_rollup_info-OnlyAt n i s =
        elim (Outcome-cases (vm.marshal_rollup_info (vm.rollup_info_size i) i)) [
          | inl (v, e) ↦ rw e (modify_insert-OnlyAt vm laws (rollup_info_key n) v s)
          | inr (inl (x, e)) ↦ rw e (λ j ne. refl)
          | inr (inr e) ↦ rw e (λ j ne. refl)
        ]

    pub set_rollup_registry-OnlyAt :
        (ns : List Bytes) (s : S) → OnlyAt vm rollup_registry_key s (set_rollup_registry vm ns s).1
    unfolding set_rollup_registry
    set_rollup_registry-OnlyAt ns s = elim (Outcome-cases (vm.pack_namespaces ns)) [
      | inl (v, e) ↦ rw e (modify_insert-OnlyAt vm laws rollup_registry_key v s)
      | inr (inl (x, e)) ↦ rw e (λ j ne. refl)
      | inr (inr e) ↦ rw e (λ j ne. refl)
    ]

    module _ (codec : CodecLaws vm) where
      pub get-set_rollup_info :
          (n : Bytes) (i : RollupInfo) (s s' : S)
          → set_rollup_info vm n i s ≡ (ok tt, s')
          → get_rollup_info vm n s' ≡ ok (some i)
      unfolding set_rollup_info get_rollup_info
      get-set_rollup_info n i s s' h =
          elim (Outcome-cases (vm.marshal_rollup_info (vm.rollup_info_size i) i)) [
            | inl (v, e) ↦
                let stored : vm.insert (rollup_info_key n) v s ≡ ok s' =
                  written-ok s _ (rw e at h) in
                rw (
                  get_value-insert_self vm laws (rollup_info_key n) v s stored,
                  codec.unmarshal-marshal_rollup_info (vm.rollup_info_size i) i e,
                )
            | inr (inl (x, e)) ↦ cc (rw e at h)
            | inr (inr e) ↦ cc (rw e at h)
          ]

      pub get-set_rollup_registry :
          (ns : List Bytes) (s s' : S)
          → set_rollup_registry vm ns s ≡ (ok tt, s')
          → get_rollup_registry vm s' ≡ ok ns
      unfolding set_rollup_registry get_rollup_registry
      get-set_rollup_registry ns s s' h = elim (Outcome-cases (vm.pack_namespaces ns)) [
        | inl (v, e) ↦
            let stored : vm.insert rollup_registry_key v s ≡ ok s' = written-ok s _ (rw e at h) in
            rw (
              get_value-insert_self vm laws rollup_registry_key v s stored,
              codec.unpack-pack_namespaces ns e,
            )
        | inr (inl (x, e)) ↦ cc (rw e at h)
        | inr (inr e) ↦ cc (rw e at h)
      ]
