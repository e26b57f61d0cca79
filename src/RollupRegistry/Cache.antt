-- ===== src/RollupRegistry/Cache.antt =====
-- What the cache holds under each identifier after an update.
use nodekit_seq.Prelude.{
  ℕ, ◌≡◌, refl, ◌∙◌, sym, Bool, false, Bool-cases, inl, inr, Option, none, some, List, [], ◌∷◌,
  Bytes, bytes_eq, bytes_eq→eq, bytes_eq→ne, ne→bytes_eq, if◌then◌else◌,
}
use nodekit_seq.Vm.{RollupInfo}
use nodekit_seq.RollupRegistry.{Lifecycle, Rollups, lookup, assign, delete_func, assign_all, update}

-- A map has each key once.
abbrev pub Keyed : Rollups → Type 0
Keyed [] = Unit {0}
Keyed ((k, rollup) ∷ rollups) = (lookup k rollups ≡ none) × Keyed rollups

pub lookup-assign :
    (key j : Bytes) (rollup : RollupInfo) (rollups : Rollups)
    → lookup j (assign key rollup rollups)
      ≡ (if bytes_eq key j then some rollup else lookup j rollups)
unfolding lookup assign
lookup-assign key j rollup [] = refl
lookup-assign key j rollup ((k, old) ∷ rollups) = elim (Bool-cases (bytes_eq k key)) [
  | inl same ↦ elim (Bool-cases (bytes_eq key j)) [
    | inl here ↦ rw (same, bytes_eq→eq k key same, here) refl
    | inr there ↦ rw (same, bytes_eq→eq k key same, there) refl
  ]
  | inr other ↦ elim (Bool-cases (bytes_eq k j)) [
    | inl here ↦
        let e : k ≡ j = bytes_eq→eq k j here in
        let apart : bytes_eq key j ≡ false =
          ne→bytes_eq key j (λ p. bytes_eq→ne k key other (e ∙ sym p)) in
        rw (other, here, apart) refl
    | inr there ↦ rw (other, there) (lookup-assign key j rollup rollups)
  ]
]

assign-Keyed :
    (key : Bytes) (rollup : RollupInfo) (rollups : Rollups)
    → Keyed rollups
    → Keyed (assign key rollup rollups)
unfolding assign lookup
assign-Keyed key rollup [] keyed = (refl, tt)
assign-Keyed key rollup ((k, old) ∷ rollups) (fresh, keyed) = elim (Bool-cases (bytes_eq k key)) [
  | inl same ↦ rw same (fresh, keyed)
  | inr other ↦
      let apart : bytes_eq key k ≡ false =
        ne→bytes_eq key k (λ p. bytes_eq→ne k key other (sym p)) in
      let still : lookup k (assign key rollup rollups) ≡ none =
        lookup-assign key k rollup rollups ∙ rw (apart, fresh) refl in
      rw other (still, assign-Keyed key rollup rollups keyed)
]

-- An entry is kept unless it is to be deleted.
abbrev pub kept : (RollupInfo → Bool) → Option RollupInfo → Option RollupInfo
kept del none = none
kept del (some rollup) = if del rollup then none else some rollup

lookup-delete_func :
    (del : RollupInfo → Bool) (j : Bytes) (rollups : Rollups)
    → Keyed rollups
    → lookup j (delete_func del rollups) ≡ kept del (lookup j rollups)
unfolding lookup delete_func
lookup-delete_func del j [] keyed = refl
lookup-delete_func del j ((k, rollup) ∷ rollups) (fresh, keyed) =
    let rest = lookup-delete_func del j rollups keyed in
    elim (Bool-cases (bytes_eq k j)) [
      | inl here ↦
          let gone : lookup j rollups ≡ none = rw (← bytes_eq→eq k j here) fresh in
          elim (Bool-cases (del rollup)) [
            | inl d ↦ rw (d, here, rest, gone, d) refl
            | inr d ↦ rw (d, here, d) refl
          ]
      | inr there ↦ elim (Bool-cases (del rollup)) [
        | inl d ↦ rw (d, there) rest
        | inr d ↦ rw (d, there) rest
      ]
    ]

delete_func-Keyed :
    (del : RollupInfo → Bool) (rollups : Rollups) → Keyed rollups → Keyed (delete_func del rollups)
unfolding delete_func
delete_func-Keyed del [] keyed = tt
delete_func-Keyed del ((k, rollup) ∷ rollups) (fresh, keyed) = elim (Bool-cases (del rollup)) [
  | inl d ↦ rw d (delete_func-Keyed del rollups keyed)
  | inr d ↦
      let still : lookup k (delete_func del rollups) ≡ none =
        lookup-delete_func del k rollups keyed ∙ rw fresh refl in
      rw d (still, delete_func-Keyed del rollups keyed)
]

module _ (life : Lifecycle) where
  open life use {id, exited}

  -- The last of the new rollups of an identifier, or what was there.
  pub newest : List RollupInfo → Bytes → Option RollupInfo → Option RollupInfo
  newest [] j before = before
  newest (rollup ∷ rest) j before =
      newest rest j (if bytes_eq (id rollup) j then some rollup else before)

  lookup-assign_all :
      (new : List RollupInfo) (j : Bytes) (rollups : Rollups)
      → lookup j (assign_all life new rollups) ≡ newest new j (lookup j rollups)
  unfolding assign_all newest
  lookup-assign_all [] j rollups = refl
  lookup-assign_all (rollup ∷ rest) j rollups =
      rw (← lookup-assign (id rollup) j rollup rollups)
        (lookup-assign_all rest j (assign (id rollup) rollup rollups))

  assign_all-Keyed :
      (new : List RollupInfo) (rollups : Rollups)
      → Keyed rollups
      → Keyed (assign_all life new rollups)
  unfolding assign_all
  assign_all-Keyed [] rollups keyed = keyed
  assign_all-Keyed (rollup ∷ rest) rollups keyed =
      assign_all-Keyed rest (assign (id rollup) rollup rollups)
        (assign-Keyed (id rollup) rollup rollups keyed)

  -- After an update an identifier has its newest rollup, unless that has exited; and the map stays
  -- a map.
  pub lookup-update :
      (epoch : ℕ) (new : List RollupInfo) (rollups : Rollups)
      → Keyed rollups
      → ((j : Bytes)
          → lookup j (update life epoch new rollups)
            ≡ kept (λ rollup. exited rollup epoch) (newest new j (lookup j rollups)))
        × Keyed (update life epoch new rollups)
  unfolding update
  lookup-update epoch new rollups keyed =
      let filled = assign_all-Keyed new rollups keyed in
      let del : RollupInfo → Bool = λ rollup. exited rollup epoch in
      (
        λ j.
            rw (← lookup-assign_all new j rollups)
              (lookup-delete_func del j (assign_all life new rollups) filled),
        delete_func-Keyed del (assign_all life new rollups) filled,
      )
