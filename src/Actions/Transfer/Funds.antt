-- ===== src/Actions/Transfer/Funds.antt =====
-- A transfer moves its value and no more.
use nodekit_seq.Prelude.{
  ℕ, ◌+◌, ◌-◌, ◌^◌, ◌≤◌, ◌<◌, ◌≡◌, ◌≢◌, sym, ◌∙◌, inl, inr, true, List, ltb, ◌==◌, length,
  Bool-cases, arith,
}
use nodekit_seq.Outcome.{ok, and_then-ok}
use nodekit_seq.Vm.{Vm, Address, StateLaws, MathLaws}
use nodekit_seq.Storage.Balance.{get_balance, sub_balance, add_balance}
use nodekit_seq.Storage.Balance.Effect.{
  Sets-other, sub_balance-Sets, add_balance-Sets, sub_balance-ok, add_balance-ok,
}
use nodekit_seq.Actions.Utils.{contains_address}
use nodekit_seq.Actions.Transfer.{Transfer, max_memo_size, execute}
use nodekit_seq.Ledger.{Distinct, total, total-Sets}

module _ {S : Type 0} (vm : Vm S) where
  -- What a transfer that returns has done: two balance writes, one after the other.
  pub record Moved (t : Transfer) (actor : Address) (s s' : S) : Type 0 where
    pub middle : S
    pub positive : 0 < t.value
    pub memo_fits : length t.memo ≤ max_memo_size
    pub debit : sub_balance vm actor t.value s ≡ (ok tt, middle)
    pub credit : add_balance vm t.to t.value true middle ≡ (ok tt, s')

  pub execute-Moved :
      (t : Transfer) (actor : Address) (s s' : S)
      → execute vm t actor s ≡ (ok tt, s')
      → Moved t actor s s'
  unfolding execute
  execute-Moved t actor s s' h = elim (Bool-cases (t.value == 0)) [
    | inl p ↦ cc (rw p at h)
    | inr p ↦ elim (Bool-cases (ltb max_memo_size (length t.memo))) [
      | inl q ↦ cc (rw (p, q) at h)
      | inr q ↦
          let (u, d, c) = and_then-ok _ (sub_balance vm actor t.value s) (rw (p, q) at h) in
          record {
            middle = (sub_balance vm actor t.value s).1;
            positive = ground arith;
            memo_fits = ground arith;
            debit = d;
            credit = c;
          }
    ]
  ]

  module _ (laws : StateLaws vm) (math : MathLaws vm) where
    -- Between two accounts the value leaves the one and reaches the other, without a wrap, and
    -- no third balance changes.
    pub execute_moves :
        (t : Transfer) (actor : Address) (m n : ℕ) (s s' : S)
        → actor ≢ t.to
        → get_balance vm actor s ≡ ok m
        → get_balance vm t.to s ≡ ok n
        → execute vm t actor s ≡ (ok tt, s')
        → (t.value ≤ m)
          × (n + t.value < 2 ^ 64)
          × (get_balance vm actor s' ≡ ok (m - t.value))
          × (get_balance vm t.to s' ≡ ok (n + t.value))
          × ((b : Address) → b ≢ actor → b ≢ t.to → get_balance vm b s' ≡ get_balance vm b s)
    execute_moves t actor m n s s' ne hm hn h =
        let moved = execute-Moved t actor s s' h in
        let u = moved.middle in
        let (enough, paid) = sub_balance-Sets vm laws actor m t.value s u math hm moved.debit in
        let hn' : get_balance vm t.to u ≡ ok n = Sets-other vm actor t.to _ s u paid ne ∙ hn in
        let (room, got) = add_balance-Sets vm laws t.to n t.value u s' math hn' moved.credit in
        (
          enough,
          room,
          Sets-other vm t.to actor _ u s' got (λ e. ne (sym e)) ∙ paid.balance,
          got.balance,
          λ b ha ht.
              Sets-other vm t.to b _ u s' got (λ e. ht (sym e))
              ∙ Sets-other vm actor b _ s u paid (λ e. ha (sym e)),
        )

    -- To itself an account gives nothing away.
    pub execute_to_self :
        (t : Transfer) (m : ℕ) (s s' : S)
        → get_balance vm t.to s ≡ ok m
        → execute vm t t.to s ≡ (ok tt, s')
        → (t.value ≤ m)
          × (get_balance vm t.to s' ≡ ok m)
          × ((b : Address) → b ≢ t.to → get_balance vm b s' ≡ get_balance vm b s)
    execute_to_self t m s s' hm h =
        let moved = execute-Moved t t.to s s' h in
        let u = moved.middle in
        let (enough, paid) = sub_balance-Sets vm laws t.to m t.value s u math hm moved.debit in
        let (room, got) =
          add_balance-Sets vm laws t.to (m - t.value) t.value u s' math paid.balance moved.credit in
        let back : m - t.value + t.value ≡ m = omega arith in
        (
          enough,
          rw back at got.balance,
          λ b hb.
              Sets-other vm t.to b _ u s' got (λ e. hb (sym e))
              ∙ Sets-other vm t.to b _ s u paid (λ e. hb (sym e)),
        )

    -- A transfer changes no total over distinct accounts that list both of its own.
    pub total-execute :
        (t : Transfer) (actor : Address) (accounts : List Address) (s s' : S)
        → Distinct accounts
        → contains_address accounts actor ≡ true
        → contains_address accounts t.to ≡ true
        → execute vm t actor s ≡ (ok tt, s')
        → total vm accounts s' ≡ total vm accounts s
    total-execute t actor accounts s s' d ha ht h =
        let moved = execute-Moved t actor s s' h in
        let (m, em, enough, paid) =
          sub_balance-ok vm laws actor t.value s moved.middle math moved.debit in
        let (n, en, room, got) =
          add_balance-ok vm laws t.to t.value moved.middle s' math moved.credit in
        omega (
          arith,
          total-Sets vm actor m (m - t.value) s moved.middle accounts paid em ha d,
          total-Sets vm t.to n (n + t.value) moved.middle s' accounts got en ht d,
        )
