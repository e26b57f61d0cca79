-- ===== src/Actions/RollupRegistration/Registered.antt =====
-- Every namespace of the registry has a record: what the other actions rely on when they
-- dereference it.
use nodekit_seq.Prelude.{
  ◌≡◌, refl, ◌∙◌, sym, true, Bool-cases, inl, inr, some, List, Bytes, bytes_eq, bytes_eq→eq,
  bytes_eq→ne,
}
use nodekit_seq.Outcome.{ok, ok-injective}
use nodekit_seq.Outcome.Chains.{Atomic, lift-Atomic, written-Atomic}
use nodekit_seq.Vm.{Vm, RollupInfo, StateLaws, CodecLaws}
use nodekit_seq.Storage.KeyLaws.{KeyLaws}
use nodekit_seq.Storage.Rollups.{
  get_rollup_info, set_rollup_info, get_rollup_registry, set_rollup_registry,
}
use nodekit_seq.Storage.Rollups.ReadBack.{
  get_rollup_info-OnlyAt, get_rollup_registry-OnlyAt, set_rollup_info-OnlyAt,
  set_rollup_registry-OnlyAt, get-set_rollup_info, get-set_rollup_registry,
}
use nodekit_seq.Actions.Utils.{contains}

module _ {S : Type 0} (vm : Vm S) where
  abbrev pub HasInfo : Bytes → S → Type 0
  HasInfo n s = (info : RollupInfo) × (get_rollup_info vm n s ≡ ok (some info))

  unfoldable pub Registered : S → Type 0
  Registered s =
      (namespaces : List Bytes) (n : Bytes)
      → get_rollup_registry vm s ≡ ok namespaces
      → contains namespaces n ≡ true
      → HasInfo n s

  set_rollup_info-Atomic :
      (n : Bytes) (info : RollupInfo) (s : S) → Atomic s (set_rollup_info vm n info s)
  unfolding set_rollup_info
  set_rollup_info-Atomic n info s =
      lift-Atomic _ (vm.marshal_rollup_info (vm.rollup_info_size info) info) s
        λ v _. written-Atomic s (vm.insert (vm.rollup_info_key n) v s)

  set_rollup_registry-Atomic : (ns : List Bytes) (s : S) → Atomic s (set_rollup_registry vm ns s)
  unfolding set_rollup_registry
  set_rollup_registry-Atomic ns s =
      lift-Atomic _ (vm.pack_namespaces ns) s
        λ v _. written-Atomic s (vm.insert vm.rollup_registry_key v s)

  module _ (laws : StateLaws vm) (codec : CodecLaws vm) (keys : KeyLaws vm) where
    -- The same registry, and no record less.
    abbrev pub Grows : S → S → Type 0
    Grows s u =
        (get_rollup_registry vm u ≡ get_rollup_registry vm s)
        × ((n : Bytes) → HasInfo n s → HasInfo n u)

    pub set_rollup_info-Grows :
        (n : Bytes) (info : RollupInfo) (s : S) → Grows s (set_rollup_info vm n info s).1
    set_rollup_info-Grows n info s = elim (set_rollup_info-Atomic n info s) [
      | inr same ↦ rw same (refl, λ m h. h)
      | inl (v, done) ↦
          let u = (set_rollup_info vm n info s).1 in
          let only = set_rollup_info-OnlyAt vm laws n info s in
          (
            get_rollup_registry-OnlyAt vm (vm.rollup_info_key n) s u only (keys.info_ne_registry n),
            λ m (i, h). elim (Bool-cases (bytes_eq n m)) [
              | inl e ↦ (
                info,
                rw (← bytes_eq→eq n m e) (get-set_rollup_info vm laws codec n info s u done),
              )
              | inr e ↦ (
                i,
                get_rollup_info-OnlyAt vm (vm.rollup_info_key n) m s u only
                      (λ p. bytes_eq→ne n m e (keys.info_injective n m p))
                    ∙ h,
              )
            ],
          )
    ]

    pub set_rollup_registry-Registered :
        (namespaces : List Bytes) (u : S)
        → Registered u
        → ((n : Bytes) → contains namespaces n ≡ true → HasInfo n u)
        → Registered (set_rollup_registry vm namespaces u).1
    unfolding Registered
    set_rollup_registry-Registered namespaces u before have ns n h there =
        elim (set_rollup_registry-Atomic namespaces u) [
          | inr same ↦ rw same (before ns n (rw same at h) there)
          | inl (v, done) ↦
              let s' = (set_rollup_registry vm namespaces u).1 in
              let listed : namespaces ≡ ns =
                ok-injective
                  (sym (get-set_rollup_registry vm laws codec namespaces u s' done) ∙ h) in
              let (i, found) = have n (rw listed there) in
              (
                i,
                get_rollup_info-OnlyAt vm vm.rollup_registry_key n u s'
                      (set_rollup_registry-OnlyAt vm laws namespaces u)
                      (λ p. keys.info_ne_registry n (sym p))
                    ∙ found,
              )
        ]

    pub Grows-Registered : (s u : S) → Grows s u → Registered s → Registered u
    unfolding Registered
    Grows-Registered s u (same, more) before ns n h there =
        more n (before ns n (sym same ∙ h) there)
