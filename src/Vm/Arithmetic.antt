-- ===== src/Vm/Arithmetic.antt =====
-- The two ways in which a checked operation can end.
use nodekit_seq.Prelude.{ℕ, ◌+◌, ◌-◌, ◌^◌, ◌≤◌, ◌<◌, ◌≡◌, ◌⊎◌, inl, inr, arith, dec_lt}
use nodekit_seq.Outcome.{Error, ok, err}
use nodekit_seq.Vm.{Vm, MathLaws}

module _ {S : Type 0} (vm : Vm S) (math : MathLaws vm) where
  pub add64-cases :
      (a b : ℕ)
      → ((a + b < 2 ^ 64) × (vm.add64 a b ≡ ok (a + b)))
        ⊎ ((e : Error) × (2 ^ 64 ≤ a + b) × (vm.add64 a b ≡ err e))
  add64-cases a b = elim (dec_lt (a + b) (2 ^ 64)) [
    | yes h ↦ inl (h, math.add64_fits a b h)
    | no h ↦
        let big : 2 ^ 64 ≤ a + b = omega arith in
        let (e, refused) = math.add64_overflow a b big in inr (e, big, refused)
  ]

  pub sub-cases :
      (a b : ℕ)
      → ((b ≤ a) × (vm.sub a b ≡ ok (a - b))) ⊎ ((e : Error) × (a < b) × (vm.sub a b ≡ err e))
  sub-cases a b = elim (dec_lt a b) [
    | yes h ↦ let (e, refused) = math.sub_underflow a b h in inr (e, h, refused)
    | no h ↦ let enough : b ≤ a = omega arith in inl (enough, math.sub_fits a b enough)
  ]
