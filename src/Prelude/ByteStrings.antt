-- ===== src/Prelude/ByteStrings.antt =====
-- Byte strings: Go's `bytes.Equal`, and unsigned integers in big-endian order (`encoding/binary`).
use Prim.Native.Nat.{ℕ, zero, suc, ◌+◌, ◌*◌, ◌/◌, ◌%◌, ◌^◌, ◌≤◌, ◌<◌}
use mathlib.Core.Path.{◌≡◌, refl, sym, ap, ◌∙◌}
use mathlib.Core.Logic.{◌≢◌, ◌↔◌, inl, inr}
use mathlib.Core.Bool.{Bool, true, false, ◌&&◌}
use mathlib.Core.List.{List, [], ◌∷◌, ◌++◌}
use native.Mathlib.Omega.{arith}
use native.Mathlib.Nat.{pow-suc, mul-le-mul_right}
use nodekit_seq.Prelude.Tests.{◌==◌, Bool-cases}
use nodekit_seq.Prelude.Lists.{length, length-append, replicate}

abbrev pub Bytes : Type 0
Bytes = List ℕ

unfoldable pub bytes_eq : Bytes → Bytes → Bool
bytes_eq [] [] = true
bytes_eq [] (y ∷ ys) = false
bytes_eq (x ∷ xs) [] = false
bytes_eq (x ∷ xs) (y ∷ ys) = x == y && bytes_eq xs ys

pub bytes_eq_refl : (xs : Bytes) → bytes_eq xs xs ≡ true
unfolding bytes_eq
bytes_eq_refl [] = refl
bytes_eq_refl (x ∷ xs) = ground (arith, bytes_eq_refl xs)

pub bytes_eq→eq : (xs ys : Bytes) → bytes_eq xs ys ≡ true → xs ≡ ys
unfolding bytes_eq
bytes_eq→eq [] [] h = refl
bytes_eq→eq [] (y ∷ ys) h = cc
bytes_eq→eq (x ∷ xs) [] h = cc
bytes_eq→eq (x ∷ xs) (y ∷ ys) h = ground (arith, bytes_eq→eq xs ys)

pub ne→bytes_eq : (xs ys : Bytes) → xs ≢ ys → bytes_eq xs ys ≡ false
ne→bytes_eq xs ys h = elim (Bool-cases (bytes_eq xs ys)) [
  | inl e ↦ absurd (h (bytes_eq→eq xs ys e))
  | inr e ↦ e
]

pub bytes_eq→ne : (xs ys : Bytes) → bytes_eq xs ys ≡ false → xs ≢ ys
bytes_eq→ne xs ys h e = let same : bytes_eq xs ys ≡ true = rw e (bytes_eq_refl ys) in cc (h, same)

pub bytes_eq_iff : (xs ys : Bytes) → (bytes_eq xs ys ≡ true) ↔ (xs ≡ ys)
bytes_eq_iff xs ys = (bytes_eq→eq xs ys, λ e. rw e (bytes_eq_refl ys))

-- The `k` low bytes of a number, the most significant first.
unfoldable pub put_be : ℕ → ℕ → Bytes
put_be zero n = []
put_be (suc k) n = put_be k (n / 256) ++ (n % 256) ∷ []

-- A byte counts modulo 256.
unfoldable pub from_be : ℕ → Bytes → ℕ
from_be acc [] = acc
from_be acc (b ∷ bs) = from_be (acc * 256 + b % 256) bs

pub length-put_be : (k n : ℕ) → length (put_be k n) ≡ k
unfolding put_be
length-put_be zero n = refl
length-put_be (suc k) n =
    omega (arith, length-append (put_be k (n / 256)) ((n % 256) ∷ []), length-put_be k (n / 256))

pub from_be-append :
    (acc : ℕ) (xs : Bytes) (b : ℕ) → from_be acc (xs ++ b ∷ []) ≡ from_be acc xs * 256 + b % 256
unfolding from_be
from_be-append acc [] b = refl
from_be-append acc (x ∷ xs) b = from_be-append (acc * 256 + x % 256) xs b

pub from_be-put_be : (k n : ℕ) → n < 256 ^ k → from_be 0 (put_be k n) ≡ n
unfolding put_be from_be
from_be-put_be zero n h = omega arith
from_be-put_be (suc k) n h =
    let small : n / 256 < 256 ^ k =
      let h' : n < 256 ^ k * 256 = rw (← pow-suc 256 k) h in omega arith in
    rw (from_be-append 0 (put_be k (n / 256)) (n % 256), from_be-put_be k (n / 256) small)
      (omega arith)

pub put_be-injective : (k m n : ℕ) → m < 256 ^ k → n < 256 ^ k → put_be k m ≡ put_be k n → m ≡ n
put_be-injective k m n hm hn e =
    sym (from_be-put_be k m hm) ∙ ap (from_be 0) e ∙ from_be-put_be k n hn

digit_bound :
    (r acc d p q : ℕ)
    → d < 256
    → q ≡ p * 256
    → r + 1 ≤ (acc * 256 + d + 1) * p
    → r + 1 ≤ (acc + 1) * q
digit_bound r acc d p q hd hq h =
    let grows : (acc * 256 + d + 1) * p ≤ (acc * 256 + 256) * p =
      mul-le-mul_right p (omega arith) in
    rw hq (omega arith)

-- The number that `k` bytes hold is below 256 to the power k.
from_be_bound : (acc : ℕ) (xs : Bytes) → from_be acc xs + 1 ≤ (acc + 1) * 256 ^ length xs
unfolding from_be
from_be_bound acc [] = omega arith
from_be_bound acc (x ∷ xs) =
    digit_bound _ acc (x % 256) (256 ^ length xs) _ (omega arith) (pow-suc 256 (length xs))
      (from_be_bound (acc * 256 + x % 256) xs)

pub from_be-lt : (xs : Bytes) (k : ℕ) → length xs ≡ k → from_be 0 xs < 256 ^ k
from_be-lt xs k e = rw (← e) (omega (arith, from_be_bound 0 xs))

-- The bytes of a string that are bytes.
abbrev pub IsBytes : Bytes → Type 0
IsBytes [] = Unit {0}
IsBytes (b ∷ bs) = (b < 256) × IsBytes bs

pub replicate-IsBytes : (n b : ℕ) → b < 256 → IsBytes (replicate n b)
replicate-IsBytes zero b h = tt
replicate-IsBytes (suc n) b h = (h, replicate-IsBytes n b h)

-- Strings of one length that are read as one number.
from_be_injective_from :
    (acc acc' : ℕ) (xs ys : Bytes)
    → length xs ≡ length ys
    → IsBytes xs
    → IsBytes ys
    → from_be acc xs ≡ from_be acc' ys
    → (acc ≡ acc') × (xs ≡ ys)
unfolding from_be
from_be_injective_from acc acc' [] [] e bx bys h = (h, refl)
from_be_injective_from acc acc' [] (y ∷ ys) e bx bys h = absurd (omega arith)
from_be_injective_from acc acc' (x ∷ xs) [] e bx bys h = absurd (omega arith)
from_be_injective_from acc acc' (x ∷ xs) (y ∷ ys) e (hx, bx) (hy, bys) h =
    let (digits, rest) =
      from_be_injective_from (acc * 256 + x % 256) (acc' * 256 + y % 256) xs ys (omega arith) bx bys
        h in
    let same : x ≡ y = omega arith in (omega arith, cc (same, rest))

pub from_be-injective :
    (xs ys : Bytes)
    → length xs ≡ length ys
    → IsBytes xs
    → IsBytes ys
    → from_be 0 xs ≡ from_be 0 ys
    → xs ≡ ys
from_be-injective xs ys e bx bys h = (from_be_injective_from 0 0 xs ys e bx bys h).1
