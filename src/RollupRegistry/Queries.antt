-- ===== src/RollupRegistry/Queries.antt =====
-- What a query of the cache answers, up to order.
use nodekit_seq.Prelude.{
  ℕ, In, ◌≡◌, refl, ◌⊎◌, ◌↔◌, true, Bool-cases, inl, inr, none, some, [], ◌∷◌, Bytes, bytes_eq,
  bytes_eq→eq, bytes_eq_refl, arith,
}
use mathlib.Core.Option.{some-injective}
use nodekit_seq.Vm.{RollupInfo}
use nodekit_seq.RollupRegistry.{Lifecycle, Rollups, lookup, rollups_valid_at_epoch}
use nodekit_seq.RollupRegistry.Cache.{Keyed}

module _ (life : Lifecycle) where
  open life use {valid_at_epoch}

  valid_In :
      (epoch : ℕ) (j : Bytes) (rollup : RollupInfo) (rollups : Rollups)
      → lookup j rollups ≡ some rollup
      → valid_at_epoch rollup epoch ≡ true
      → In rollup (rollups_valid_at_epoch life epoch rollups)
  unfolding lookup rollups_valid_at_epoch
  valid_In epoch j rollup [] h valid = ground arith
  valid_In epoch j rollup ((k, r) ∷ rollups) h valid = elim (Bool-cases (bytes_eq k j)) [
    | inl here ↦
        let same : r ≡ rollup = some-injective r rollup (rw here at h) in
        rw (same, valid) (inl refl)
    | inr there ↦
        let rest = valid_In epoch j rollup rollups (rw there at h) valid in
        elim (Bool-cases (valid_at_epoch r epoch)) [ inl v ↦ rw v (inr rest) | inr v ↦ rw v rest ]
  ]

  -- An entry of the rest is an entry of the whole, since its key is another.
  later :
      (k j : Bytes) (r rollup : RollupInfo) (rollups : Rollups)
      → lookup k rollups ≡ none
      → lookup j rollups ≡ some rollup
      → lookup j ((k, r) ∷ rollups) ≡ some rollup
  unfolding lookup
  later k j r rollup rollups fresh h = elim (Bool-cases (bytes_eq k j)) [
    | inl here ↦
        let gone : lookup j rollups ≡ none = rw (← bytes_eq→eq k j here) fresh in cc (gone, h)
    | inr there ↦ rw (there, h) refl
  ]

  abbrev Held : ℕ → RollupInfo → Rollups → Type 0
  Held epoch rollup rollups =
      (j : Bytes) × (lookup j rollups ≡ some rollup) × (valid_at_epoch rollup epoch ≡ true)

  Held-later :
      (k : Bytes) (r : RollupInfo) (epoch : ℕ) (rollup : RollupInfo) (rollups : Rollups)
      → lookup k rollups ≡ none
      → Held epoch rollup rollups
      → Held epoch rollup ((k, r) ∷ rollups)
  Held-later k r epoch rollup rollups fresh (j, found, v) =
      (j, later k j r rollup rollups fresh found, v)

  lookup_first :
      (k : Bytes) (r : RollupInfo) (rollups : Rollups) → lookup k ((k, r) ∷ rollups) ≡ some r
  unfolding lookup
  lookup_first k r rollups = rw (bytes_eq_refl k) refl

  In-Held :
      (epoch : ℕ) (rollup : RollupInfo) (rollups : Rollups)
      → Keyed rollups
      → In rollup (rollups_valid_at_epoch life epoch rollups)
      → Held epoch rollup rollups
  unfolding rollups_valid_at_epoch
  In-Held epoch rollup [] keyed h = elim h [ ]
  In-Held epoch rollup ((k, r) ∷ rollups) (fresh, keyed) h =
      elim (Bool-cases (valid_at_epoch r epoch)) [
        | inr v ↦
            Held-later k r epoch rollup rollups fresh
              (In-Held epoch rollup rollups keyed (rw v at h))
        | inl v ↦
            let cases : (r ≡ rollup) ⊎ In rollup (rollups_valid_at_epoch life epoch rollups) =
              rw v at h in
            elim cases [
              | inl same ↦ (k, rw (← same) (lookup_first k r rollups), rw (← same) v)
              | inr more ↦
                  Held-later k r epoch rollup rollups fresh
                    (In-Held epoch rollup rollups keyed more)
            ]
      ]

  -- The answer to a query holds exactly the rollups of the cache that are valid in the epoch.
  pub rollups_valid_at_epoch-In :
      (epoch : ℕ) (rollup : RollupInfo) (rollups : Rollups)
      → Keyed rollups
      → In rollup (rollups_valid_at_epoch life epoch rollups)
        ↔ ((j : Bytes) × (lookup j rollups ≡ some rollup) × (valid_at_epoch rollup epoch ≡ true))
  rollups_valid_at_epoch-In epoch rollup rollups keyed = (
    In-Held epoch rollup rollups keyed,
    λ (j, found, valid). valid_In epoch j rollup rollups found valid,
  )
