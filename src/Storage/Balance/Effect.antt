-- ===== src/Storage/Balance/Effect.antt =====
-- What a successful balance write does to every key and to every balance.
use nodekit_seq.Prelude.{
  ℕ, ◌+◌, ◌-◌, ◌^◌, ◌≤◌, ◌<◌, ◌≡◌, refl, ◌≢◌, Bool, true, Option, false, none, some, [], Bytes,
  ◌==◌, inl, inr, Bool-cases, arith,
}
use nodekit_seq.Outcome.{ok, map_ok, not_found, Error, Outcome-cases, is_not_found}
use nodekit_seq.Vm.Arithmetic.{add64-cases, sub-cases}
use nodekit_seq.Vm.{Vm, Address, StateLaws, MathLaws}
use nodekit_seq.Encoding.{uint64, append_uint64}
use nodekit_seq.Encoding.Buffers.{uint64-append_uint64_self, uint64-lt}
use nodekit_seq.Storage.Keys.{balance_key, balance_key-injective}
use nodekit_seq.Storage.View.{
  OnlyAt, insert-OnlyAt, get_value-insert_self, remove-OnlyAt, get_value-remove_self, written-ok,
}
use nodekit_seq.Storage.Balance.{
  inner_get_balance, find_balance, get_balance, set_balance_at, set_balance, credit, settle,
  add_balance, sub_balance,
}

module _ {S : Type 0} (vm : Vm S) where
  -- The account holds `n` in the second view, which differs from the first at its key only.
  pub record Sets (a : Address) (n : ℕ) (s s' : S) : Type 0 where
    pub only : OnlyAt vm (balance_key a) s s'
    pub balance : get_balance vm a s' ≡ ok n

  -- A balance is read at its own key.
  pub get_balance-OnlyAt :
      (k : Bytes) (b : Address) (s s' : S)
      → OnlyAt vm k s s'
      → k ≢ balance_key b
      → get_balance vm b s' ≡ get_balance vm b s
  unfolding get_balance
  get_balance-OnlyAt k b s s' only ne = rw (only (balance_key b) ne)

  pub Sets-other :
      (a b : Address) (n : ℕ) (s s' : S)
      → Sets a n s s'
      → a ≢ b
      → get_balance vm b s' ≡ get_balance vm b s
  Sets-other a b n s s' w ne =
      get_balance-OnlyAt (balance_key a) b s s' w.only (λ e. ne (balance_key-injective a b e))

  stored_balance :
      (a : Address) (n : ℕ) (s : S)
      → n < 2 ^ 64
      → vm.get_value (balance_key a) s ≡ (append_uint64 n, none)
      → get_balance vm a s ≡ ok n
  unfolding get_balance inner_get_balance
  stored_balance a n s small e = rw (e, uint64-append_uint64_self n small) refl

  missing_balance :
      (a : Address) (s : S)
      → vm.get_value (balance_key a) s ≡ ([], some not_found)
      → get_balance vm a s ≡ ok 0
  unfolding get_balance inner_get_balance
  missing_balance a s e = rw e refl

  inner_get_balance-ok :
      (v : Bytes) (e : Option Error) (m : ℕ)
      → map_ok (λ found. found.0) (inner_get_balance v e) ≡ ok m
      → (x : Bool) × (inner_get_balance v e ≡ ok (m, x)) × (m < 2 ^ 64)
  unfolding inner_get_balance
  inner_get_balance-ok v (some e) m h = elim (Bool-cases (is_not_found e)) [
    | inl absent ↦
        let empty : m ≡ 0 = cc (rw absent at h) in (false, rw (absent, empty) refl, omega arith)
    | inr failed ↦ cc (rw failed at h)
  ]
  inner_get_balance-ok v none m h = elim (Outcome-cases (uint64 v)) [
    | inl (n, e) ↦
        let same : n ≡ m = cc (rw e at h) in (true, rw (e, same) refl, uint64-lt v m (rw same at e))
    | inr (inl (x, e)) ↦ cc (rw e at h)
    | inr (inr e) ↦ cc (rw e at h)
  ]

  -- What an account holds is a word.
  pub find_balance-ok :
      (a : Address) (m : ℕ) (s : S)
      → get_balance vm a s ≡ ok m
      → (x : Bool) × (find_balance vm a s ≡ ok (m, x)) × (m < 2 ^ 64)
  unfolding get_balance
  find_balance-ok a m s h =
      let (v, e) = vm.get_value (balance_key a) s in inner_get_balance-ok v e m h

  module _ (laws : StateLaws vm) where
    set_balance_at-Sets :
        (a : Address) (n : ℕ) (s s' : S)
        → n < 2 ^ 64
        → set_balance_at vm (balance_key a) n s ≡ (ok tt, s')
        → Sets a n s s'
    unfolding set_balance_at
    set_balance_at-Sets a n s s' small h =
        let e : vm.insert (balance_key a) (append_uint64 n) s ≡ ok s' = written-ok s _ h in
        record {
          only = insert-OnlyAt vm laws (balance_key a) (append_uint64 n) s e;
          balance =
              stored_balance a n s' small
                (get_value-insert_self vm laws (balance_key a) (append_uint64 n) s e);
        }

    pub set_balance-Sets :
        (a : Address) (n : ℕ) (s s' : S)
        → n < 2 ^ 64
        → set_balance vm a n s ≡ (ok tt, s')
        → Sets a n s s'
    unfolding set_balance
    set_balance-Sets a n s s' small h = set_balance_at-Sets a n s s' small h

    remove-Sets : (a : Address) (s s' : S) → vm.remove (balance_key a) s ≡ ok s' → Sets a 0 s s'
    remove-Sets a s s' e = record {
      only = remove-OnlyAt vm laws (balance_key a) s e;
      balance = missing_balance a s' (get_value-remove_self vm laws (balance_key a) s e);
    }

    settle-Sets :
        (a : Address) (n : ℕ) (s s' : S)
        → n < 2 ^ 64
        → settle vm a n s ≡ (ok tt, s')
        → Sets a n s s'
    unfolding settle
    settle-Sets a n s s' small h = elim (Bool-cases (n == 0)) [
      | inl zero_left ↦
          let none_left : n ≡ 0 = ground arith in
          rw none_left
            (remove-Sets a s s' (written-ok s (vm.remove (balance_key a) s) (rw zero_left at h)))
      | inr more ↦ set_balance_at-Sets a n s s' small (rw more at h)
    ]

    credit-Sets :
        (a : Address) (m v : ℕ) (s s' : S)
        → MathLaws vm
        → credit vm a m v s ≡ (ok tt, s')
        → (m + v < 2 ^ 64) × Sets a (m + v) s s'
    unfolding credit
    credit-Sets a m v s s' math h = elim (add64-cases vm math m v) [
      | inl (fits, e) ↦ (fits, set_balance_at-Sets a (m + v) s s' fits (rw e at h))
      | inr (x, big, e) ↦ cc (rw e at h)
    ]

    -- A debit that the balance covers writes the difference.
    pub sub_balance-Sets :
        (a : Address) (m v : ℕ) (s s' : S)
        → MathLaws vm
        → get_balance vm a s ≡ ok m
        → sub_balance vm a v s ≡ (ok tt, s')
        → (v ≤ m) × Sets a (m - v) s s'
    unfolding sub_balance
    sub_balance-Sets a m v s s' math e h =
        let (x, found, small) = find_balance-ok a m s e in
        elim (sub-cases vm math m v) [
          | inl (enough, d) ↦
              (enough, settle-Sets a (m - v) s s' (omega arith) (rw (found, d) at h))
          | inr (y, short, d) ↦ cc (rw (found, d) at h)
        ]

    -- A credit that fits a word writes the sum.
    pub add_balance-Sets :
        (a : Address) (m v : ℕ) (s s' : S)
        → MathLaws vm
        → get_balance vm a s ≡ ok m
        → add_balance vm a v true s ≡ (ok tt, s')
        → (m + v < 2 ^ 64) × Sets a (m + v) s s'
    unfolding add_balance
    add_balance-Sets a m v s s' math e h =
        let (x, found, small) = find_balance-ok a m s e in
        elim (Bool-cases x) [
          | inl old ↦ credit-Sets a m v s s' math (rw (found, old) at h)
          | inr new ↦ credit-Sets a m v s s' math (rw (found, new) at h)
        ]

    -- A debit that returns has found a balance that covers it.
    pub sub_balance-ok :
        (a : Address) (v : ℕ) (s s' : S)
        → MathLaws vm
        → sub_balance vm a v s ≡ (ok tt, s')
        → (m : ℕ) × (get_balance vm a s ≡ ok m) × (v ≤ m) × Sets a (m - v) s s'
    unfolding get_balance sub_balance
    sub_balance-ok a v s s' math h = elim (Outcome-cases (find_balance vm a s)) [
      | inl ((m, x), e) ↦
          let held : get_balance vm a s ≡ ok m = rw e refl in
          let (enough, sets) = sub_balance-Sets a m v s s' math held h in (m, held, enough, sets)
      | inr (inl (y, e)) ↦ cc (rw e at h)
      | inr (inr e) ↦ cc (rw e at h)
    ]

    -- A credit that returns has found a balance that leaves room for it.
    pub add_balance-ok :
        (a : Address) (v : ℕ) (s s' : S)
        → MathLaws vm
        → add_balance vm a v true s ≡ (ok tt, s')
        → (m : ℕ) × (get_balance vm a s ≡ ok m) × (m + v < 2 ^ 64) × Sets a (m + v) s s'
    unfolding get_balance add_balance
    add_balance-ok a v s s' math h = elim (Outcome-cases (find_balance vm a s)) [
      | inl ((m, x), e) ↦
          let held : get_balance vm a s ≡ ok m = rw e refl in
          let (room, sets) = add_balance-Sets a m v s s' math held h in (m, held, room, sets)
      | inr (inl (y, e)) ↦ cc (rw e at h)
      | inr (inr e) ↦ cc (rw e at h)
    ]
