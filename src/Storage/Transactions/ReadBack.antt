-- ===== src/Storage/Transactions/ReadBack.antt =====
-- A stored result is read back, whatever the time, the units and the fee.
use mathlib.Core.List.{append-nil, append_assoc}
use nodekit_seq.Prelude.{
  ℕ, ◌+◌, ◌-◌, ◌^◌, ◌<◌, ◌≡◌, refl, Bool, true, false, not, none, some, [], ◌∷◌, ◌++◌, Bytes,
  length, length-append, replicate, take-append, drop-append, leb, arith, drop, if◌then◌else◌, ◌==◌,
}
use nodekit_seq.Prelude.Int.{IsInt64, to_uint64, to_uint64-lt, to_int64-to_uint64}
use nodekit_seq.Outcome.{ok}
use nodekit_seq.Encoding.{uint64, append_uint64, slice, copy_at}
use nodekit_seq.Encoding.Buffers.{
  copy_at-append, uint64-append_uint64, uint64-append_uint64_self, length-append_uint64,
}
use nodekit_seq.Storage.Keys.{tx_key}
use nodekit_seq.Storage.View.{written-ok}
use nodekit_seq.Storage.Transactions.{
  MetaDb, MetaDbLaws, TxResult, success_byte, failure_byte, tx_value, is_failure, read_tx_value,
  store_transaction, get_transaction,
}

-- A value that is found and read is the result.
pub get_transaction-value :
    {D : Type 0} (db : MetaDb D) (id v : Bytes) (d : D) (r : TxResult)
    → db.get (tx_key id) d ≡ (v, none)
    → read_tx_value db v ≡ ok r
    → get_transaction db id d ≡ ok (some r)
unfolding get_transaction
get_transaction-value db id v d r found read = rw (found, read) refl

module _ {D : Type 0} (db : MetaDb D) (laws : MetaDbLaws db) where
  open db use {dimensions_len, dimensions_bytes}

  abbrev flag : TxResult → ℕ
  flag r = if r.success then success_byte else failure_byte

  tx_value-parts :
      (r : TxResult)
      → length r.units ≡ 5
      → tx_value db r
        ≡ append_uint64 (to_uint64 r.timestamp)
          ++ (flag r ∷ (dimensions_bytes r.units ++ append_uint64 r.fee))
  unfolding tx_value
  tx_value-parts r five =
      let n = dimensions_len in
      let t : Bytes = append_uint64 (to_uint64 r.timestamp) in
      let u : Bytes = dimensions_bytes r.units in
      let f : Bytes = append_uint64 r.fee in
      let b : Bytes = flag r ∷ [] in
      let ht : length t ≡ 8 = length-append_uint64 (to_uint64 r.timestamp) in
      let hf : length f ≡ 8 = length-append_uint64 r.fee in
      let hu : length u ≡ n = laws.length-bytes r.units five in
      let first : copy_at 0 t (replicate (8 + 1 + n + 8) 0) ≡ t ++ replicate (1 + n + 8) 0 =
        copy_at-append [] t _ (1 + n + 8) 0 0 refl (omega arith) in
      let second : copy_at 8 b (t ++ replicate (1 + n + 8) 0) ≡ t ++ (b ++ replicate (n + 8) 0) =
        copy_at-append t b _ (n + 8) 0 8 ht (omega arith) in
      let two : length (t ++ b) ≡ 9 = omega (arith, length-append t b) in
      let third : copy_at 9 u ((t ++ b) ++ replicate (n + 8) 0) ≡ (t ++ b) ++ (u ++ replicate 8 0) =
        copy_at-append (t ++ b) u _ 8 0 9 two (omega arith) in
      let three : length ((t ++ b) ++ u) ≡ 8 + 1 + n = omega (arith, length-append (t ++ b) u) in
      let fourth : copy_at (8 + 1 + n) f (((t ++ b) ++ u) ++ replicate 8 0)
          ≡ ((t ++ b) ++ u) ++ (f ++ []) =
        copy_at-append ((t ++ b) ++ u) f 8 0 0 (8 + 1 + n) three (omega arith) in
      rw
        (
          first,
          second,
          ← append_assoc t b (replicate (n + 8) 0),
          third,
          ← append_assoc (t ++ b) u (replicate 8 0),
          fourth,
          append-nil f,
        )
        (simp append_assoc)

  flag_back : (b : Bool) → not ((if b then success_byte else failure_byte) == failure_byte) ≡ b
  flag_back true = refl
  flag_back false = refl

  pub read-tx_value :
      (r : TxResult)
      → length r.units ≡ 5
      → IsInt64 r.timestamp
      → r.fee < 2 ^ 64
      → read_tx_value db (tx_value db r) ≡ ok r
  unfolding read_tx_value is_failure slice
  read-tx_value r five time small =
      let n = dimensions_len in
      let t : Bytes = append_uint64 (to_uint64 r.timestamp) in
      let u : Bytes = dimensions_bytes r.units in
      let f : Bytes = append_uint64 r.fee in
      let b : Bytes = flag r ∷ [] in
      let ht : length t ≡ 8 = length-append_uint64 (to_uint64 r.timestamp) in
      let hf : length f ≡ 8 = length-append_uint64 r.fee in
      let hu : length u ≡ n = laws.length-bytes r.units five in
      let two : length (t ++ b) ≡ 9 = omega (arith, length-append t b) in
      let three : length ((t ++ b) ++ u) ≡ 8 + 1 + n = omega (arith, length-append (t ++ b) u) in
      let whole : length (((t ++ b) ++ u) ++ f) ≡ 8 + 1 + n + 8 =
        omega (arith, length-append ((t ++ b) ++ u) f) in
      let long : leb (8 + 1 + n) (length (((t ++ b) ++ u) ++ f)) ≡ true = ground arith in
      let width : 8 + 1 + n - (8 + 1) ≡ n = omega arith in
      let grouped : t ++ (flag r ∷ (u ++ f)) ≡ ((t ++ b) ++ u) ++ f = simp append_assoc in
      let time_back : uint64 (((t ++ b) ++ u) ++ f) ≡ ok (to_uint64 r.timestamp) = rw (← grouped) (
        uint64-append_uint64 (to_uint64 r.timestamp) (flag r ∷ (u ++ f))
          (to_uint64-lt r.timestamp)) in
      let at_flag : drop 8 (((t ++ b) ++ u) ++ f) ≡ flag r ∷ (u ++ f) =
        rw (← grouped) (drop-append 8 t (flag r ∷ (u ++ f)) ht) in
      let at_units : drop 9 (((t ++ b) ++ u) ++ f) ≡ u ++ f =
        rw (append_assoc (t ++ b) u f) (drop-append 9 (t ++ b) (u ++ f) two) in
      let at_fee : drop (8 + 1 + n) (((t ++ b) ++ u) ++ f) ≡ f =
        drop-append (8 + 1 + n) ((t ++ b) ++ u) f three in
      rw
        (
          tx_value-parts r five,
          grouped,
          time_back,
          at_flag,
          flag_back r.success,
          long,
          at_units,
          width,
          take-append n u f hu,
          laws.unpack-bytes r.units five,
          at_fee,
          uint64-append_uint64_self r.fee small,
          to_int64-to_uint64 r.timestamp time,
        )
        refl

  -- The time, the flag, the units and the fee come back.
  pub get-store_transaction :
      (id : Bytes) (r : TxResult) (d d' : D)
      → length r.units ≡ 5
      → IsInt64 r.timestamp
      → r.fee < 2 ^ 64
      → store_transaction db id r d ≡ (ok tt, d')
      → get_transaction db id d' ≡ ok (some r)
  unfolding store_transaction
  get-store_transaction id r d d' five time small h =
      let stored : db.get (tx_key id) d' ≡ (tx_value db r, none) =
        laws.get-put (tx_key id) (tx_value db r) d (written-ok d _ h) in
      get_transaction-value db id (tx_value db r) d' r stored (read-tx_value r five time small)
