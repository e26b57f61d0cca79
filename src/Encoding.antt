-- ===== src/Encoding.antt =====
-- What the code uses of Go's byte slices: `copy` into a slice, and the readers and writers of
-- `encoding/binary`, which panic on a slice that is too short.
pub mod Buffers
use nodekit_seq.Prelude.{
  ℕ, zero, suc, ◌-◌, [], ◌∷◌, Bytes, length, take, drop, leb, put_be, from_be, if◌then◌else◌,
}
use nodekit_seq.Outcome.{Outcome, ok, panic}

-- `copy(dst, src)`: as many bytes as both have.
unfoldable pub overlay : Bytes → Bytes → Bytes
overlay [] dst = dst
overlay (s ∷ src) [] = []
overlay (s ∷ src) (d ∷ dst) = s ∷ overlay src dst

-- `copy(dst[off:], src)`.
unfoldable pub copy_at : ℕ → Bytes → Bytes → Bytes
unfolding overlay
copy_at zero src dst = overlay src dst
copy_at (suc off) src [] = []
copy_at (suc off) src (d ∷ dst) = d ∷ copy_at off src dst

-- `binary.BigEndian.Uint64(v)`.
unfoldable pub uint64 : Bytes → Outcome ℕ
uint64 v = if leb 8 (length v) then ok (from_be 0 (take 8 v)) else panic

-- `binary.BigEndian.AppendUint64(nil, n)`.
unfoldable pub append_uint64 : ℕ → Bytes
append_uint64 n = put_be 8 n

-- `binary.BigEndian.PutUint16(dst[off:], n)`.
unfoldable pub put_uint16_at : ℕ → ℕ → Bytes → Outcome Bytes
put_uint16_at off n dst =
    if leb 2 (length (drop off dst)) then ok (copy_at off (put_be 2 n) dst) else panic

-- `v[lo:hi]` and `v[lo:]` of a slice whose capacity is its length.
unfoldable pub slice : ℕ → ℕ → Bytes → Outcome Bytes
slice lo hi v = if leb hi (length v) then ok (take (hi - lo) (drop lo v)) else panic

unfoldable pub slice_from : ℕ → Bytes → Outcome Bytes
slice_from lo v = if leb lo (length v) then ok (drop lo v) else panic
