-- ===== src/Actions/Transfer/Ends.antt =====
-- How a transfer ends, on every branch, and what it can touch.
use nodekit_seq.Prelude.{
  ℕ, ◌+◌, ◌-◌, ◌^◌, ◌≤◌, ◌≡◌, ◌∙◌, inl, inr, true, false, ◌||◌, ltb, ◌==◌, length, Bool-cases,
  Bytes, bytes_eq, bytes_eq→eq, bytes_eq→ne, if◌then◌else◌, arith,
}
use nodekit_seq.Outcome.{
  Outcome, ok, err, wrapped, invalid_balance, could_not_add_balance, could_not_subtract_balance,
  output_value_zero, output_memo_too_large, raise_if,
}
use nodekit_seq.Vm.{Vm, Address, StateLaws, MathLaws, AcceptsWrites}
use nodekit_seq.Storage.Keys.{balance_key}
use nodekit_seq.Storage.View.{and_then-same, raise_if-same}
use nodekit_seq.Storage.Balance.{get_balance, sub_balance, add_balance}
use nodekit_seq.Storage.Balance.Effect.{find_balance-ok, Sets-other, sub_balance-Sets}
use nodekit_seq.Storage.Balance.Frame.{sub_balance-OnlyAt, add_balance-OnlyAt}
use nodekit_seq.Storage.Balance.Outcomes.{
  sub_balance_short, sub_balance-total, add_balance_overflow, add_balance-total,
}
use nodekit_seq.Actions.Utils.{contains}
use nodekit_seq.Actions.Utils.Members.{contains_pair}
use nodekit_seq.Actions.Transfer.{Transfer, max_memo_size, state_keys, execute}

-- The answer to a transfer, by what the two accounts hold before it.
pub expected : Transfer → Address → ℕ → ℕ → Outcome (Unit {0})
expected t actor m n =
    if t.value == 0
    then err output_value_zero
    else if ltb max_memo_size (length t.memo)
    then err output_memo_too_large
    else if ltb m t.value
    then err (wrapped could_not_subtract_balance invalid_balance)
    else if bytes_eq actor t.to || ltb (n + t.value) (2 ^ 64)
    then ok tt
    else err (wrapped could_not_add_balance invalid_balance)

module _ {S : Type 0} (vm : Vm S) (laws : StateLaws vm) (math : MathLaws vm) where
  -- On a view that accepts writes, the two balances decide how a transfer ends.
  module _ (accepts : AcceptsWrites vm) where
    credit_end :
        (t : Transfer) (actor : Address) (m n : ℕ) (s u : S)
        → get_balance vm actor s ≡ ok m
        → get_balance vm t.to s ≡ ok n
        → t.value ≤ m
        → sub_balance vm actor t.value s ≡ (ok tt, u)
        → (add_balance vm t.to t.value true u).0 ≡ (
            if bytes_eq actor t.to || ltb (n + t.value) (2 ^ 64)
            then ok tt
            else err (wrapped could_not_add_balance invalid_balance))
    credit_end t actor m n s u hm hn enough d =
        let (_, paid) = sub_balance-Sets vm laws actor m t.value s u math hm d in
        elim (Bool-cases (bytes_eq actor t.to)) [
          | inl same ↦
              let (x, found, small) = find_balance-ok vm actor m s hm in
              let left : get_balance vm t.to u ≡ ok (m - t.value) =
                rw (bytes_eq→eq actor t.to same) at paid.balance in
              let (s', done) =
                add_balance-total vm math accepts t.to (m - t.value) t.value u left (omega arith) in
              rw (same, done)
          | inr other ↦
              let kept : get_balance vm t.to u ≡ ok n =
                Sets-other vm actor t.to _ s u paid (bytes_eq→ne actor t.to other) ∙ hn in
              elim (Bool-cases (ltb (n + t.value) (2 ^ 64))) [
                | inl room ↦
                    let (s', done) =
                      add_balance-total vm math accepts t.to n t.value u kept (ground arith) in
                    rw (other, room, done)
                | inr full ↦
                    rw (
                      other,
                      full,
                      add_balance_overflow vm math t.to n t.value u kept (ground arith),
                    )
              ]
        ]

    pub execute-expected :
        (t : Transfer) (actor : Address) (m n : ℕ) (s : S)
        → get_balance vm actor s ≡ ok m
        → get_balance vm t.to s ≡ ok n
        → (execute vm t actor s).0 ≡ expected t actor m n
    unfolding execute expected
    execute-expected t actor m n s hm hn = elim (Bool-cases (t.value == 0)) [
      | inl p ↦ rw p
      | inr p ↦ elim (Bool-cases (ltb max_memo_size (length t.memo))) [
        | inl q ↦ rw (p, q)
        | inr q ↦ elim (Bool-cases (ltb m t.value)) [
          | inl short ↦
              rw (p, q, short, sub_balance_short vm math actor m t.value s hm (ground arith))
          | inr enough ↦
              let covered : t.value ≤ m = ground arith in
              let (u, d) = sub_balance-total vm math accepts actor m t.value s hm covered in
              rw (p, q, enough, d) (credit_end t actor m n s u hm hn covered d)
        ]
      ]
    ]

module _ {S : Type 0} (vm : Vm S) (laws : StateLaws vm) where
  -- However it ends, a transfer changes the view at its state keys alone.
  pub execute_frame :
      (t : Transfer) (actor : Address) (s : S) (j : Bytes)
      → contains (state_keys t actor) j ≡ false
      → vm.get_value j (execute vm t actor s).1 ≡ vm.get_value j s
  unfolding execute state_keys contains
  execute_frame t actor s j h =
      let (na, nt) = contains_pair (balance_key actor) (balance_key t.to) j h in
      and_then-same vm j s _ (raise_if (t.value == 0) output_value_zero s)
        (raise_if-same vm j (t.value == 0) output_value_zero s)
        λ _ s₁.
          and_then-same vm j s₁ _
            (raise_if (ltb max_memo_size (length t.memo)) output_memo_too_large s₁)
            (raise_if-same vm j (ltb max_memo_size (length t.memo)) output_memo_too_large s₁)
            λ _ s₂.
              and_then-same vm j s₂ _ (sub_balance vm actor t.value s₂)
                (sub_balance-OnlyAt vm laws actor t.value s₂ j na)
                λ _ s₃. add_balance-OnlyAt vm laws t.to t.value s₃ j nt
