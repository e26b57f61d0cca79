-- ===== src/Controller/StateManager/Fees.antt =====
-- A fee is taken exactly when it was announced that it can be.
use nodekit_seq.Prelude.{ℕ, ◌-◌, ◌≤◌, ◌≡◌, ◌≢◌, refl, sym, ltb, false, Bytes, arith}
use nodekit_seq.Outcome.{ok}
use nodekit_seq.Outcome.Chains.{then_outcome-ok}
use nodekit_seq.Vm.{Vm, Address, StateLaws, MathLaws, AcceptsWrites}
use nodekit_seq.Storage.Balance.{get_balance}
use nodekit_seq.Storage.Balance.Effect.{Sets-other, sub_balance-Sets, sub_balance-ok}
use nodekit_seq.Storage.Balance.Frame.{sub_balance-OnlyAt}
use nodekit_seq.Storage.Balance.Outcomes.{sub_balance-total}
use nodekit_seq.Actions.Utils.{contains}
use nodekit_seq.Actions.Utils.Members.{contains_cons}
use nodekit_seq.Controller.StateManager.{sponsor_state_keys, can_deduct, deduct}

module _ {S : Type 0} (vm : Vm S) where
  can_deduct-ok :
      (a : Address) (v : ℕ) (s : S)
      → can_deduct vm a v s ≡ ok tt
      → (m : ℕ) × (get_balance vm a s ≡ ok m) × (v ≤ m)
  unfolding can_deduct
  can_deduct-ok a v s h =
      let (m, held, covered) = then_outcome-ok _ (get_balance vm a s) h in (m, held, ground arith)

  module _ (math : MathLaws vm) (laws : StateLaws vm) where
    -- A deduction that was announced as possible succeeds, takes its amount and touches no other
    -- account.
    pub deduct_allowed :
        (a : Address) (v : ℕ) (s : S)
        → AcceptsWrites vm
        → can_deduct vm a v s ≡ ok tt
        → (s' : S) × (m : ℕ) × (deduct vm a v s ≡ (ok tt, s'))
          × (get_balance vm a s ≡ ok m)
          × (v ≤ m)
          × (get_balance vm a s' ≡ ok (m - v))
          × ((b : Address) → b ≢ a → get_balance vm b s' ≡ get_balance vm b s)
    unfolding deduct
    deduct_allowed a v s accepts h =
        let (m, held, covered) = can_deduct-ok a v s h in
        let (s', done) = sub_balance-total vm math accepts a m v s held covered in
        let (_, paid) = sub_balance-Sets vm laws a m v s s' math held done in
        (
          s',
          m,
          done,
          held,
          covered,
          paid.balance,
          λ b nb. Sets-other vm a b _ s s' paid (λ e. nb (sym e)),
        )

    -- A deduction that succeeds was announced as possible.
    pub can_deduct-deduct :
        (a : Address) (v : ℕ) (s s' : S)
        → deduct vm a v s ≡ (ok tt, s')
        → can_deduct vm a v s ≡ ok tt
    unfolding deduct can_deduct
    can_deduct-deduct a v s s' h =
        let (m, held, enough, _) = sub_balance-ok vm laws a v s s' math h in
        let no : ltb m v ≡ false = ground arith in rw (held, no) refl

    pub deduct_frame :
        (a : Address) (v : ℕ) (s : S) (j : Bytes)
        → contains (sponsor_state_keys a) j ≡ false
        → vm.get_value j (deduct vm a v s).1 ≡ vm.get_value j s
    unfolding deduct sponsor_state_keys
    deduct_frame a v s j h =
        let (ne, _) = contains_cons _ _ j h in sub_balance-OnlyAt vm laws a v s j ne
