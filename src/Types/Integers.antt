-- ===== src/Types/Integers.antt =====
-- A commitment as an integer, and back.
use nodekit_seq.Prelude.{
  ℕ, zero, suc, ◌-◌, ◌*◌, ◌/◌, ◌%◌, ◌^◌, ◌≤◌, ◌<◌, ◌≡◌, refl, ap, ◌∙◌, true, false, [], ◌∷◌, ◌++◌,
  Bytes, length, replicate, ltb, ◌==◌, from_be, dec_lt, length-append, from_be-lt, from_be-append,
  Bool-cases, inl, inr, ◌⊎◌, arith,
}
use mathlib.Core.List.{append-nil}
use native.Mathlib.Nat.{pow-suc, pow-le-pow_right}
use nodekit_seq.Prelude.Int.{pos, magnitude}
use nodekit_seq.Outcome.{integer_out_of_range, ok, err}
use nodekit_seq.Encoding.{overlay}
use nodekit_seq.Encoding.Buffers.{overlay-replicate}
use nodekit_seq.Types.Commitments.{
  digits, big_bytes, padded, Commitment, U256, commitment_from_uint256, uint256,
}

digits_none : (fuel n : ℕ) → n == 0 ≡ true → digits (suc fuel) n ≡ []
unfolding digits
digits_none fuel n e = rw (e, digits)

digits_some :
    (fuel n : ℕ) → n == 0 ≡ false → digits (suc fuel) n ≡ digits fuel (n / 256) ++ (n % 256) ∷ []
unfolding digits
digits_some fuel n e = rw (e, digits)

from_be-digits : (fuel n : ℕ) → n ≤ fuel → from_be 0 (digits fuel n) ≡ n
unfolding digits from_be
from_be-digits zero n h = omega arith
from_be-digits (suc fuel) n h = elim (Bool-cases (n == 0)) [
  | inl z ↦ let none_left : 0 ≡ n = ground arith in rw (digits_none fuel n z) none_left
  | inr some_left ↦
      let rest : from_be 0 (digits fuel (n / 256)) ≡ n / 256 =
        from_be-digits fuel (n / 256) (ground arith) in
      rw (digits_some fuel n some_left, from_be-append 0 (digits fuel (n / 256)) (n % 256), rest)
        (omega arith)
]

length-digits : (k fuel n : ℕ) → n < 256 ^ k → length (digits fuel n) ≤ k
unfolding digits
length-digits k zero n h = omega arith
length-digits zero (suc fuel) n h = ground arith
length-digits (suc k) (suc fuel) n h = elim (Bool-cases (n == 0)) [
  | inl z ↦ rw (digits_none fuel n z) (omega arith)
  | inr some_left ↦
      let h' : n < 256 ^ k * 256 = rw (← pow-suc 256 k) h in
      let rest : length (digits fuel (n / 256)) ≤ k =
        length-digits k fuel (n / 256) (omega arith) in
      rw (digits_some fuel n some_left)
        (omega (arith, rest, length-append (digits fuel (n / 256)) ((n % 256) ∷ [])))
]

length-replicate : (n z : ℕ) → length (replicate n z) ≡ n
length-replicate zero z = refl
length-replicate (suc n) z = ap suc (length-replicate n z)

from_be-replicate : (m : ℕ) (xs : Bytes) → from_be 0 (replicate m 0 ++ xs) ≡ from_be 0 xs
unfolding from_be
from_be-replicate zero xs = refl
from_be-replicate (suc m) xs = from_be-replicate m xs

-- The integer of the bytes that a number is written in.
from_be-big_bytes : (n : U256) → from_be 0 (big_bytes n) ≡ magnitude n
unfolding big_bytes
from_be-big_bytes n = from_be-digits (magnitude n) (magnitude n) (omega arith)

-- A number needs more than 32 bytes from 2^256 on, and no sooner.
length-big_bytes :
    (n : U256)
    → ((magnitude n < 256 ^ 32) × (length (big_bytes n) ≤ 32))
      ⊎ ((256 ^ 32 ≤ magnitude n) × (32 < length (big_bytes n)))
unfolding big_bytes
length-big_bytes n = elim (dec_lt (magnitude n) (256 ^ 32)) [
  | yes small ↦ inl (small, length-digits 32 (magnitude n) (magnitude n) small)
  | no large ↦ inr (
    omega arith,
    elim (dec_lt 32 (length (big_bytes n))) [
      | yes long ↦ long
      | no short ↦
          let bound : from_be 0 (big_bytes n) < 256 ^ length (big_bytes n) =
            from_be-lt (big_bytes n) (length (big_bytes n)) refl in
          let wide : 256 ^ length (big_bytes n) ≤ 256 ^ 32 =
            pow-le-pow_right (omega arith) {i = length (big_bytes n)} {j = 32} (omega arith) in
          absurd (omega (arith, from_be-big_bytes n, bound, wide))
    ],
  )
]

padded_lem :
    (bs : Bytes)
    → length bs ≤ 32
    → (length (padded bs) ≡ 32) × (from_be 0 (padded bs) ≡ from_be 0 bs)
unfolding padded
padded_lem bs h = elim (Bool-cases (ltb (length bs) 32)) [
  | inl short ↦ rw short (
    ground (
      arith,
      length-append (replicate (32 - length bs) 0) bs,
      length-replicate (32 - length bs) 0,
    ),
    from_be-replicate (32 - length bs) bs,
  )
  | inr full ↦ rw full (ground arith, refl)
]

-- An integer whose absolute value is below 2^256 becomes a commitment of 32 bytes that stands for this
-- absolute value; every other integer is refused.
pub uint256-commitment_from_uint256 :
    (n : U256)
    → ((magnitude n < 256 ^ 32)
        × ((c : Commitment) × (commitment_from_uint256 n ≡ ok c)
            × (length c ≡ 32)
            × (uint256 c ≡ pos (magnitude n))))
      ⊎ ((256 ^ 32 ≤ magnitude n) × (commitment_from_uint256 n ≡ err integer_out_of_range))
unfolding commitment_from_uint256
uint256-commitment_from_uint256 n = elim (length-big_bytes n) [
  | inl (small, short) ↦
      let (full, value) = padded_lem (big_bytes n) short in
      let filled : overlay (padded (big_bytes n)) (replicate 32 0) ≡ padded (big_bytes n) =
        rw (overlay-replicate (padded (big_bytes n)) 32 0 0 (omega arith))
          (append-nil (padded (big_bytes n))) in
      let fits : ltb 32 (length (big_bytes n)) ≡ false = ground arith in
      inl (
        small,
        (padded (big_bytes n), rw (fits, filled) refl, full, ap pos (value ∙ from_be-big_bytes n)),
      )
  | inr (large, long) ↦
      let over : ltb 32 (length (big_bytes n)) ≡ true = ground arith in inr (large, rw over refl)
]
