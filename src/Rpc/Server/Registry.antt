-- ===== src/Rpc/Server/Registry.antt =====
-- The answer to the query for all rollups: by epoch, those that start there.
use nodekit_seq.Prelude.{
  ℕ, ◌≡◌, refl, sym, ap, ◌∙◌, Bool-cases, inl, inr, some, List, [], ◌∷◌, ◌++◌, Bytes, ◌==◌,
  if◌then◌else◌, arith,
}
use mathlib.Core.List.{append-nil, append_assoc}
use nodekit_seq.Outcome.{ok}
use nodekit_seq.Vm.{RollupInfo}
use nodekit_seq.Rpc.{Controller, InfosByEpoch}
use nodekit_seq.Rpc.Server.{infos_at, set_infos, add_info, collect_infos, all_rollup_info}

-- The rollups that start in an epoch, in order.
unfoldable pub starting_at : ℕ → List RollupInfo → List RollupInfo
starting_at epoch [] = []
starting_at epoch (i ∷ is) =
    let rest = starting_at epoch is in if i.start_epoch == epoch then i ∷ rest else rest

infos_at-set_infos :
    (d e : ℕ) (infos : List RollupInfo) (m : InfosByEpoch)
    → infos_at d (set_infos e infos m) ≡ (if e == d then infos else infos_at d m)
unfolding infos_at set_infos
infos_at-set_infos d e infos [] = refl
infos_at-set_infos d e infos ((k, old) ∷ rest) = ground (arith, infos_at-set_infos d e infos rest)

add_info-infos_at :
    (d : ℕ) (i : RollupInfo) (is : List RollupInfo) (m : InfosByEpoch)
    → infos_at d (add_info i m) ++ starting_at d is ≡ infos_at d m ++ starting_at d (i ∷ is)
unfolding starting_at
add_info-infos_at d i is m =
    let e = i.start_epoch in
    let infos = infos_at e m ++ (i ∷ []) in
    elim (Bool-cases (e == d)) [
      | inr later ↦ rw (infos_at-set_infos d e infos m, later) refl
      | inl now ↦
          let same : e ≡ d = ground arith in
          rw (infos_at-set_infos d e infos m, now)
            (append_assoc (infos_at e m) (i ∷ []) (starting_at d is)
              ∙ ap (λ k. infos_at k m ++ (i ∷ starting_at d is)) same)
    ]

module _ (c : Controller) where
  open c use {rollup_info_from_state, rollup_registry_from_state}

  -- Each namespace has a record.
  abbrev pub Recorded : List Bytes → List RollupInfo → Type 0
  Recorded [] [] = Unit {0}
  Recorded [] (i ∷ is) = ⊥
  Recorded (ns ∷ nss) [] = ⊥
  Recorded (ns ∷ nss) (i ∷ is) = (rollup_info_from_state ns ≡ ok (some i)) × Recorded nss is

  collect_infos-starting_at :
      (nss : List Bytes) (infos : List RollupInfo) (m : InfosByEpoch)
      → Recorded nss infos
      → (out : InfosByEpoch) × (collect_infos c nss m ≡ ok out)
        × ((d : ℕ) → infos_at d out ≡ infos_at d m ++ starting_at d infos)
  unfolding collect_infos starting_at
  collect_infos-starting_at [] [] m h = (m, refl, λ d. sym (append-nil (infos_at d m)))
  collect_infos-starting_at [] (i ∷ is) m h = elim h [ ]
  collect_infos-starting_at (ns ∷ nss) [] m h = elim h [ ]
  collect_infos-starting_at (ns ∷ nss) (i ∷ is) m (found, rest) =
      let (out, collected, grouped) = collect_infos-starting_at nss is (add_info i m) rest in
      (out, rw found collected, λ d. grouped d ∙ add_info-infos_at d i is m)

  -- When every registered namespace has a record, the query for all rollups succeeds, and answers for
  -- each epoch the records that start there, in the order of the registry.
  pub all_rollup_info-starting_at :
      (nss : List Bytes) (infos : List RollupInfo)
      → rollup_registry_from_state ≡ ok nss
      → Recorded nss infos
      → (out : InfosByEpoch) × (all_rollup_info c ≡ ok out)
        × ((d : ℕ) → infos_at d out ≡ starting_at d infos)
  unfolding all_rollup_info infos_at
  all_rollup_info-starting_at nss infos registry recorded =
      rw registry (collect_infos-starting_at nss infos [] recorded)
