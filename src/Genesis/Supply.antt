-- ===== src/Genesis/Supply.antt =====
-- What a genesis document that loads puts into the first state.
use nodekit_seq.Prelude.{
  ℕ, ◌+◌, ◌^◌, ◌<◌, ◌≡◌, refl, ◌∙◌, ap, Bool-cases, inl, inr, List, [], ◌∷◌, bytes_eq, bytes_eq→eq,
  bytes_eq→ne, if◌then◌else◌, arith,
}
use nodekit_seq.Outcome.{Outcome, ok, err, panic, and_then-ok, wrap_errors, genesis_allocation}
use nodekit_seq.Outcome.Chains.{lift-then, wrapped-ok}
use nodekit_seq.Vm.{Vm, Address, StateLaws, MathLaws}
use nodekit_seq.Vm.Arithmetic.{add64-cases}
use nodekit_seq.Storage.Balance.{get_balance, set_balance}
use nodekit_seq.Storage.Balance.Effect.{Sets-other, set_balance-Sets}
use nodekit_seq.Genesis.{CustomAllocation, Genesis, GenesisLibrary, load_allocations, load}

-- What the document allocates in all.
pub allocated : List CustomAllocation → ℕ
allocated [] = 0
allocated (alloc ∷ rest) = alloc.balance + allocated rest

module _ (lib : GenesisLibrary) where
  -- An allocation to an account; what does not parse is to none.
  abbrev replaces : Outcome Address → Address → ℕ → Outcome ℕ → Outcome ℕ
  replaces (ok pk) a n before = if bytes_eq pk a then ok n else before
  replaces (err e) a n before = before
  replaces panic a n before = before

  -- The last allocation to an account, or what it had before.
  pub last_allocation : List CustomAllocation → Address → Outcome ℕ → Outcome ℕ
  last_allocation [] a before = before
  last_allocation (alloc ∷ rest) a before =
      last_allocation rest a (replaces (lib.parse_address alloc.address) a alloc.balance before)

module _ {S : Type 0} (vm : Vm S) (lib : GenesisLibrary) (laws : StateLaws vm)
    (math : MathLaws vm) where
  load_allocations-sum :
      (allocs : List CustomAllocation) (supply : ℕ) (s s' : S)
      → supply < 2 ^ 64
      → load_allocations vm lib allocs supply s ≡ (ok tt, s')
      → (supply + allocated allocs < 2 ^ 64)
        × ((a : Address) → get_balance vm a s' ≡ last_allocation lib allocs a (get_balance vm a s))
  unfolding load_allocations allocated last_allocation
  load_allocations-sum [] supply s s' small h =
      let same : s ≡ s' = ap (λ p. p.1) h in (omega arith, λ a. rw same refl)
  load_allocations-sum (alloc ∷ rest) supply s s' small h =
      let (pk, parsed, h₁) = lift-then _ (lib.parse_address alloc.address) s h in
      let (sum, added, h₂) = lift-then _ (vm.add64 supply alloc.balance) s h₁ in
      let write = wrap_errors genesis_allocation (set_balance vm pk alloc.balance) s in
      let (_, wrote, h₃) = and_then-ok _ write h₂ in
      elim (add64-cases vm math supply alloc.balance) [
        | inr (x, big, e) ↦ cc (added, e)
        | inl (fits, e) ↦
            let total : sum ≡ supply + alloc.balance = cc (added, e) in
            let u = write.1 in
            let (room, balances) = load_allocations-sum rest sum u s' (rw total fits) h₃ in
            let put =
              set_balance-Sets vm laws pk alloc.balance s u (omega arith)
                (wrapped-ok genesis_allocation _ wrote) in
            (
              omega arith,
              λ a. balances a ∙ elim (Bool-cases (bytes_eq pk a)) [
                | inl same ↦ rw (parsed, same, ← bytes_eq→eq pk a same, put.balance) refl
                | inr other ↦
                    rw (parsed, other, Sets-other vm pk a _ s u put (bytes_eq→ne pk a other)) refl
              ],
            )
      ]

  -- A document that loads allocates less than 2^64 in all, and then every account holds its last
  -- allocation, or what it held before.
  pub load_allocates :
      (g : Genesis) (s s' : S)
      → load vm lib g s ≡ (ok tt, s')
      → (allocated g.custom_allocation < 2 ^ 64)
        × ((a : Address)
            → get_balance vm a s' ≡ last_allocation lib g.custom_allocation a (get_balance vm a s))
  unfolding load
  load_allocates g s s' h =
      let (_, valid, h₁) = lift-then _ (lib.branch_factor_valid g.state_branch_factor) s h in
      let (room, balances) = load_allocations-sum g.custom_allocation 0 s s' (omega arith) h₁ in
      (omega arith, balances)
