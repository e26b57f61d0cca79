-- ===== src/Encoding/Buffers.antt =====
-- Filling a fresh buffer part by part, and reading a word back.
use nodekit_seq.Prelude.{
  ℕ, zero, suc, ◌+◌, ◌^◌, ◌≤◌, ◌<◌, ◌≡◌, refl, ap, true, [], ◌∷◌, ◌++◌, Bytes, length, take,
  replicate, leb, put_be, from_be, take-append, length-append, length-put_be, from_be-put_be,
  from_be-lt, Bool-cases, inl, inr, arith,
}
use mathlib.Core.List.{append-nil}
use nodekit_seq.Outcome.{ok}
use nodekit_seq.Encoding.{overlay, copy_at, uint64, append_uint64}

pub overlay-replicate :
    (src : Bytes) (m n z : ℕ)
    → m ≡ length src + n
    → overlay src (replicate m z) ≡ src ++ replicate n z
unfolding overlay
overlay-replicate [] m n z e = let e' : m ≡ n = omega arith in rw e'
overlay-replicate (s ∷ src) zero n z e = absurd (omega arith)
overlay-replicate (s ∷ src) (suc m) n z e = rw (overlay-replicate src m n z (omega arith))

-- Writing at the end of what is filled leaves a shorter rest.
pub copy_at-append :
    (pre src : Bytes) (m n z off : ℕ)
    → length pre ≡ off
    → m ≡ length src + n
    → copy_at off src (pre ++ replicate m z) ≡ pre ++ (src ++ replicate n z)
unfolding copy_at
copy_at-append [] src m n z zero e h = overlay-replicate src m n z h
copy_at-append [] src m n z (suc off) e h = absurd (omega arith)
copy_at-append (p ∷ pre) src m n z zero e h = absurd (omega arith)
copy_at-append (p ∷ pre) src m n z (suc off) e h =
    rw (copy_at-append pre src m n z off (omega arith) h)

-- A word is read back from the front of any buffer.
pub uint64-append_uint64 :
    (n : ℕ) (rest : Bytes) → n < 2 ^ 64 → uint64 (append_uint64 n ++ rest) ≡ ok n
unfolding uint64 append_uint64
uint64-append_uint64 n rest h =
    let long : leb 8 (length (put_be 8 n ++ rest)) ≡ true =
      ground (arith, length-append (put_be 8 n) rest, length-put_be 8 n) in
    rw (long, take-append 8 (put_be 8 n) rest (length-put_be 8 n), from_be-put_be 8 n h)

pub uint64-append_uint64_self : (n : ℕ) → n < 2 ^ 64 → uint64 (append_uint64 n) ≡ ok n
uint64-append_uint64_self n h = rw (append-nil (append_uint64 n)) at (uint64-append_uint64 n [] h)

length-take_full : (n : ℕ) (xs : Bytes) → n ≤ length xs → length (take n xs) ≡ n
length-take_full zero xs h = refl
length-take_full (suc n) [] h = absurd (omega arith)
length-take_full (suc n) (x ∷ xs) h = omega (arith, length-take_full n xs (omega arith))

-- What is read is a 64-bit word.
pub uint64-lt : (v : Bytes) (n : ℕ) → uint64 v ≡ ok n → n < 2 ^ 64
unfolding uint64
uint64-lt v n h = elim (Bool-cases (leb 8 (length v))) [
  | inl long ↦
      let full : length (take 8 v) ≡ 8 = length-take_full 8 v (ground arith) in
      let read : from_be 0 (take 8 v) ≡ n = ground arith in
      rw (← read) (from_be-lt (take 8 v) 8 full)
  | inr short ↦ cc (rw short at h)
]

pub length-append_uint64 : (n : ℕ) → length (append_uint64 n) ≡ 8
unfolding append_uint64
length-append_uint64 n = length-put_be 8 n

length-overlay : (src dst : Bytes) → length (overlay src dst) ≡ length dst
unfolding overlay
length-overlay [] dst = refl
length-overlay (s ∷ src) [] = refl
length-overlay (s ∷ src) (d ∷ dst) = ap suc (length-overlay src dst)

pub length-copy_at : (off : ℕ) (src dst : Bytes) → length (copy_at off src dst) ≡ length dst
unfolding copy_at
length-copy_at zero src dst = length-overlay src dst
length-copy_at (suc off) src [] = refl
length-copy_at (suc off) src (d ∷ dst) = ap suc (length-copy_at off src dst)
