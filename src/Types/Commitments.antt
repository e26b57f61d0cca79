-- ===== src/Types/Commitments.antt =====
-- types/commit.go: 32-byte commitments, their integers, and the builder of what is hashed. The
-- builder is what it has written to the Keccak state of go-ethereum, whose writer never fails.
use nodekit_seq.Prelude.{
  ℕ, zero, suc, ◌-◌, ◌/◌, ◌%◌, ◌^◌, Bool, true, false, ◌&&◌, Option, none, some, List, [], ◌∷◌,
  ◌++◌, Bytes, bytes_eq, length, replicate, leb, ltb, ◌==◌, if◌then◌else◌, put_be, from_be,
}
use nodekit_seq.Prelude.Int.{ℤ, pos, magnitude}
use nodekit_seq.Outcome.{integer_out_of_range, Outcome, ok, err, panic, then_outcome}
use nodekit_seq.Encoding.{overlay}

-- 32 bytes.
abbrev pub Commitment : Type 0
Commitment = Bytes

-- A big integer, of any size and sign.
abbrev pub U256 : Type 0
U256 = ℤ

-- The loop of `big.Int.Bytes`, the bytes of the absolute value without leading zeros.
unfoldable pub digits : ℕ → ℕ → Bytes
digits zero n = []
digits (suc fuel) n = elim (n == 0) [ true ↦ [] | false ↦ digits fuel (n / 256) ++ (n % 256) ∷ [] ]

-- As many rounds as the number: each divides by 256.
unfoldable pub big_bytes : U256 → Bytes
unfolding digits
big_bytes n = digits (magnitude n) (magnitude n)

-- The zeros in front of fewer than 32 bytes.
unfoldable pub padded : Bytes → Bytes
padded big_endian =
    if ltb (length big_endian) 32
    then replicate (32 - length big_endian) 0 ++ big_endian
    else big_endian

unfoldable pub commitment_from_uint256 : U256 → Outcome Commitment
unfolding big_bytes padded overlay
commitment_from_uint256 n =
    if ltb 32 (length (big_bytes n))
    then err integer_out_of_range
    else ok (overlay (padded (big_bytes n)) (replicate 32 0))

-- `big.Int.SetBytes`.
abbrev pub set_bytes : Bytes → U256
set_bytes buf = pos (from_be 0 buf)

abbrev pub uint256 : Commitment → U256
uint256 c = set_bytes c

abbrev pub equals : Commitment → Commitment → Bool
equals c other = bytes_eq c other

-- `utf8.Valid`: the ranges of the bytes that a first byte calls for, none for an invalid one.
abbrev pub Ranges : Type 0
Ranges = List (ℕ × ℕ)

abbrev tail_byte : ℕ × ℕ
tail_byte = (0x80, 0xBF)

unfoldable pub lead : ℕ → Option Ranges
lead b =
    if ltb b 0x80
    then some []
    else if ltb b 0xC2
    then none
    else if ltb b 0xE0
    then some (tail_byte ∷ [])
    else if b == 0xE0
    then some ((0xA0, 0xBF) ∷ tail_byte ∷ [])
    else if b == 0xED
    then some ((0x80, 0x9F) ∷ tail_byte ∷ [])
    else if ltb b 0xF0
    then some (tail_byte ∷ tail_byte ∷ [])
    else if b == 0xF0
    then some ((0x90, 0xBF) ∷ tail_byte ∷ tail_byte ∷ [])
    else if ltb b 0xF4
    then some (tail_byte ∷ tail_byte ∷ tail_byte ∷ [])
    else if b == 0xF4
    then some ((0x80, 0x8F) ∷ tail_byte ∷ tail_byte ∷ [])
    else none

unfoldable pub utf8_scan : Ranges → Bytes → Bool
unfolding lead
utf8_scan [] [] = true
utf8_scan (r ∷ rs) [] = false
utf8_scan [] (b ∷ bs) = elim (lead b) [ none ↦ false | some rs ↦ utf8_scan rs bs ]
utf8_scan ((lo, hi) ∷ rs) (b ∷ bs) = leb lo b && leb b hi && utf8_scan rs bs

abbrev pub utf8_valid : Bytes → Bool
utf8_valid s = utf8_scan [] s

-- `FixedSizeBytes`.
abbrev pub fixed_size_bytes : Bytes → Bytes → Bytes
fixed_size_bytes bytes b = b ++ bytes

abbrev pub invalid_utf8 : Bytes
invalid_utf8 = 0xC0 ∷ 0x7F ∷ []

unfoldable pub constant_string : Bytes → Bytes → Outcome Bytes
unfolding utf8_scan
constant_string s b = if utf8_valid s then ok (fixed_size_bytes invalid_utf8 (b ++ s)) else panic

abbrev pub new_raw_commitment_builder : Bytes → Outcome Bytes
new_raw_commitment_builder name = constant_string name []

abbrev pub field : Bytes → Commitment → Bytes → Outcome Bytes
field f c b = then_outcome (constant_string f b) λ b'. ok (fixed_size_bytes c b')

abbrev pub uint64_value : ℕ → Bytes → Bytes
uint64_value n b = fixed_size_bytes (put_be 8 n) b

-- A missing commitment is a 0, another one a 1 and its bytes.
abbrev pub optional_value : Option Commitment → Bytes → Bytes
optional_value none b = uint64_value 0 b
optional_value (some c) b = fixed_size_bytes c (uint64_value 1 b)

abbrev pub optional_field : Bytes → Option Commitment → Bytes → Outcome Bytes
optional_field f c b = then_outcome (constant_string f b) λ b'. ok (optional_value c b')

-- `FillBytes` panics when the absolute value does not fit the buffer.
abbrev pub uint256_value : U256 → Bytes → Outcome Bytes
uint256_value n b =
    if ltb (magnitude n) (2 ^ 256) then ok (fixed_size_bytes (put_be 32 (magnitude n)) b) else panic

abbrev pub uint256_field : Bytes → U256 → Bytes → Outcome Bytes
uint256_field f n b = then_outcome (constant_string f b) (uint256_value n)

abbrev pub uint64_field : Bytes → ℕ → Bytes → Outcome Bytes
uint64_field f n b = then_outcome (constant_string f b) λ b'. ok (uint64_value n b')

abbrev pub fixed_size_field : Bytes → Bytes → Bytes → Outcome Bytes
fixed_size_field f bytes b = then_outcome (constant_string f b) λ b'. ok (fixed_size_bytes bytes b')

abbrev pub var_size_bytes : Bytes → Bytes → Bytes
var_size_bytes bytes b = uint64_value (length bytes) b ++ bytes

abbrev pub var_size_field : Bytes → Bytes → Bytes → Outcome Bytes
var_size_field f bytes b = then_outcome (constant_string f b) λ b'. ok (var_size_bytes bytes b')

-- `copy` of the hash into 32 bytes.
unfoldable pub finalize : (Bytes → Bytes) → Bytes → Commitment
unfolding overlay
finalize keccak b = overlay (keccak b) (replicate 32 0)
