-- ===== src/Ledger.antt =====
-- The accounts seen as one ledger: the sum of what a list of accounts holds, and how one balance write moves it.
use nodekit_seq.Prelude.{
  ℕ, ◌+◌, ◌≡◌, refl, ◌≢◌, true, false, inl, inr, Bool-cases, List, [], ◌∷◌, bytes_eq, bytes_eq→eq,
  bytes_eq→ne, sym, arith,
}
use nodekit_seq.Outcome.{Outcome, ok, err, panic}
use nodekit_seq.Vm.{Vm, Address}
use nodekit_seq.Actions.Utils.{contains_address}
use nodekit_seq.Storage.Balance.{get_balance}
use nodekit_seq.Storage.Balance.Effect.{Sets, Sets-other}

-- An unreadable balance counts as nothing.
abbrev pub held : Outcome ℕ → ℕ
held (ok n) = n
held (err e) = 0
held panic = 0

-- No account is listed twice.
abbrev pub Distinct : List Address → Type 0
Distinct [] = Unit
Distinct (a ∷ accounts) = (contains_address accounts a ≡ false) × Distinct accounts

module _ {S : Type 0} (vm : Vm S) where
  pub total : List Address → S → ℕ
  total [] s = 0
  total (a ∷ accounts) s = held (get_balance vm a s) + total accounts s

  -- The total is read from the balances alone.
  pub total_same :
      (s s' : S) (accounts : List Address)
      → ((b : Address) → get_balance vm b s' ≡ get_balance vm b s)
      → total accounts s' ≡ total accounts s
  unfolding total
  total_same s s' [] same = refl
  total_same s s' (b ∷ accounts) same = rw (same b, total_same s s' accounts same)

  total-Sets_absent :
      (a : Address) (n : ℕ) (s s' : S) (accounts : List Address)
      → Sets vm a n s s'
      → contains_address accounts a ≡ false
      → total accounts s' ≡ total accounts s
  unfolding total contains_address
  total-Sets_absent a n s s' [] w h = refl
  total-Sets_absent a n s s' (b ∷ accounts) w h = elim (Bool-cases (bytes_eq b a)) [
    | inl e ↦ cc (rw e at h)
    | inr e ↦
        let ne : a ≢ b = λ p. bytes_eq→ne b a e (sym p) in
        rw (Sets-other vm a b n s s' w ne)
          (omega (arith, total-Sets_absent a n s s' accounts w (rw e at h)))
  ]

  -- The total moves by what the one account gains or loses.
  pub total-Sets :
      (a : Address) (m n : ℕ) (s s' : S) (accounts : List Address)
      → Sets vm a n s s'
      → get_balance vm a s ≡ ok m
      → contains_address accounts a ≡ true
      → Distinct accounts
      → total accounts s' + m ≡ total accounts s + n
  unfolding total contains_address
  total-Sets a m n s s' [] w e h d = cc
  total-Sets a m n s s' (b ∷ accounts) w e h d = elim (Bool-cases (bytes_eq b a)) [
    | inl p ↦
        let same : b ≡ a = bytes_eq→eq b a p in
        let gone : contains_address accounts a ≡ false = rw (← same) d.0 in
        rw (same, w.balance, e) (omega (arith, total-Sets_absent a n s s' accounts w gone))
    | inr p ↦
        rw (Sets-other vm a b n s s' w (λ q. bytes_eq→ne b a p (sym q)))
          (omega (arith, total-Sets a m n s s' accounts w e (rw p at h) d.1))
  ]
