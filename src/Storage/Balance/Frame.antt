-- ===== src/Storage/Balance/Frame.antt =====
-- A balance update writes at the account's key alone, however it ends.
use nodekit_seq.Prelude.{ℕ, refl, true, false, ◌==◌, inl, inr, Bool-cases}
use nodekit_seq.Outcome.{Outcome-cases}
use nodekit_seq.Vm.{Vm, Address, StateLaws}
use nodekit_seq.Encoding.{append_uint64}
use nodekit_seq.Storage.Keys.{balance_key}
use nodekit_seq.Storage.View.{OnlyAt, modify_insert-OnlyAt, modify_remove-OnlyAt}
use nodekit_seq.Storage.Balance.{find_balance, settle, credit, sub_balance, add_balance}

module _ {S : Type 0} (vm : Vm S) (laws : StateLaws vm) where
  settle-OnlyAt : (a : Address) (n : ℕ) (s : S) → OnlyAt vm (balance_key a) s (settle vm a n s).1
  unfolding settle
  settle-OnlyAt a n s = elim (Bool-cases (n == 0)) [
    | inl zero_left ↦ rw zero_left (modify_remove-OnlyAt vm laws (balance_key a) s)
    | inr more ↦ rw more (modify_insert-OnlyAt vm laws (balance_key a) (append_uint64 n) s)
  ]

  credit-OnlyAt :
      (a : Address) (m v : ℕ) (s : S) → OnlyAt vm (balance_key a) s (credit vm a m v s).1
  unfolding credit
  credit-OnlyAt a m v s = elim (Outcome-cases (vm.add64 m v)) [
    | inl (n, e) ↦ rw e (modify_insert-OnlyAt vm laws (balance_key a) (append_uint64 n) s)
    | inr (inl (x, e)) ↦ rw e (λ j ne. refl)
    | inr (inr e) ↦ rw e (λ j ne. refl)
  ]

  pub sub_balance-OnlyAt :
      (a : Address) (v : ℕ) (s : S) → OnlyAt vm (balance_key a) s (sub_balance vm a v s).1
  unfolding sub_balance
  sub_balance-OnlyAt a v s = elim (Outcome-cases (find_balance vm a s)) [
    | inl ((m, x), e) ↦ rw e (elim (Outcome-cases (vm.sub m v)) [
      | inl (n, d) ↦ rw d (settle-OnlyAt a n s)
      | inr (inl (y, d)) ↦ rw d (λ j ne. refl)
      | inr (inr d) ↦ rw d (λ j ne. refl)
    ])
    | inr (inl (y, e)) ↦ rw e (λ j ne. refl)
    | inr (inr e) ↦ rw e (λ j ne. refl)
  ]

  pub add_balance-OnlyAt :
      (a : Address) (v : ℕ) (s : S) → OnlyAt vm (balance_key a) s (add_balance vm a v true s).1
  unfolding add_balance
  add_balance-OnlyAt a v s = elim (Outcome-cases (find_balance vm a s)) [
    | inl ((m, true), e) ↦ rw e (credit-OnlyAt a m v s)
    | inl ((m, false), e) ↦ rw e (credit-OnlyAt a m v s)
    | inr (inl (y, e)) ↦ rw e (λ j ne. refl)
    | inr (inr e) ↦ rw e (λ j ne. refl)
  ]
