-- ===== src/Storage/Balance/Outcomes.antt =====
-- How a balance update ends, by the balance that it finds.
use nodekit_seq.Prelude.{ℕ, ◌+◌, ◌-◌, ◌^◌, ◌≤◌, ◌<◌, ◌≡◌, true, ◌==◌, inl, inr, Bool-cases}
use nodekit_seq.Outcome.{
  ok, err, wrapped, could_not_add_balance, could_not_subtract_balance, invalid_balance,
}
use nodekit_seq.Vm.{Vm, Address, AcceptsWrites, MathLaws}
use nodekit_seq.Encoding.{append_uint64}
use nodekit_seq.Storage.Keys.{balance_key}
use nodekit_seq.Storage.Balance.{get_balance, settle, sub_balance, add_balance}
use nodekit_seq.Storage.Balance.Effect.{find_balance-ok}

module _ {S : Type 0} (vm : Vm S) (math : MathLaws vm) where
  -- A debit of more than the account holds changes nothing.
  pub sub_balance_short :
      (a : Address) (m v : ℕ) (s : S)
      → get_balance vm a s ≡ ok m
      → m < v
      → sub_balance vm a v s ≡ (err (wrapped could_not_subtract_balance invalid_balance), s)
  unfolding sub_balance
  sub_balance_short a m v s e h =
      let (x, found, small) = find_balance-ok vm a m s e in
      let (y, refused) = math.sub_underflow m v h in rw (found, refused)

  -- A credit past the largest word changes nothing.
  pub add_balance_overflow :
      (a : Address) (m v : ℕ) (s : S)
      → get_balance vm a s ≡ ok m
      → 2 ^ 64 ≤ m + v
      → add_balance vm a v true s ≡ (err (wrapped could_not_add_balance invalid_balance), s)
  unfolding add_balance
  add_balance_overflow a m v s e h =
      let (x, found, small) = find_balance-ok vm a m s e in
      let (y, refused) = math.add64_overflow m v h in
      elim (Bool-cases x) [
        | inl old ↦ rw (found, old, refused)
        | inr new ↦ rw (found, new, refused)
      ]

  module _ (accepts : AcceptsWrites vm) where
    settle-total : (a : Address) (n : ℕ) (s : S) → (s' : S) × (settle vm a n s ≡ (ok tt, s'))
    unfolding settle
    settle-total a n s = elim (Bool-cases (n == 0)) [
      | inl zero_left ↦ let (s', e) = accepts.removes (balance_key a) s in (s', rw (zero_left, e))
      | inr more ↦
          let (s', e) = accepts.inserts (balance_key a) (append_uint64 n) s in (s', rw (more, e))
    ]

    -- A covered debit goes through on a view that accepts writes.
    pub sub_balance-total :
        (a : Address) (m v : ℕ) (s : S)
        → get_balance vm a s ≡ ok m
        → v ≤ m
        → (s' : S) × (sub_balance vm a v s ≡ (ok tt, s'))
    unfolding sub_balance
    sub_balance-total a m v s e h =
        let (x, found, small) = find_balance-ok vm a m s e in
        let (s', done) = settle-total a (m - v) s in (s', rw (found, math.sub_fits m v h) done)

    pub add_balance-total :
        (a : Address) (m v : ℕ) (s : S)
        → get_balance vm a s ≡ ok m
        → m + v < 2 ^ 64
        → (s' : S) × (add_balance vm a v true s ≡ (ok tt, s'))
    unfolding add_balance
    add_balance-total a m v s e h =
        let (x, found, small) = find_balance-ok vm a m s e in
        let (s', done) = accepts.inserts (balance_key a) (append_uint64 (m + v)) s in
        (
          s',
          elim (Bool-cases x) [
            | inl old ↦ rw (found, old, math.add64_fits m v h, done)
            | inr new ↦ rw (found, new, math.add64_fits m v h, done)
          ],
        )
