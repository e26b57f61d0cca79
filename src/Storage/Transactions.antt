-- ===== src/Storage/Transactions.antt =====
-- storage/transaction.go: the result of a transaction in the metadata database, 8 bytes of time,
-- a success byte, the units and 8 bytes of fee.
pub mod ReadBack
use nodekit_seq.Prelude.{
  ℕ, ◌+◌, ◌≡◌, Bool, true, false, not, Option, none, some, List, [], ◌∷◌, Bytes, length, drop, leb,
  replicate, ◌==◌, if◌then◌else◌,
}
use nodekit_seq.Prelude.Int.{ℤ, to_uint64, to_int64}
use nodekit_seq.Outcome.{Error, is_not_found, Outcome, ok, err, panic, then_outcome, Action, modify}
use nodekit_seq.Encoding.{copy_at, append_uint64, uint64, slice}
use nodekit_seq.Genesis.{Dimensions}
use nodekit_seq.Storage.Keys.{tx_key}

abbrev pub failure_byte : ℕ
failure_byte = 0x0

abbrev pub success_byte : ℕ
success_byte = 0x1

-- `database.KeyValueReader` and `KeyValueWriter` of avalanchego, and hypersdk/fees.
pub record MetaDb (D : Type 0) : Type 0 where
  pub get : Bytes → D → Bytes × Option Error
  pub put : Bytes → Bytes → D → Outcome D
  pub dimensions_len : ℕ
  pub dimensions_bytes : Dimensions → Bytes
  pub unpack_dimensions : Bytes → Outcome Dimensions

-- What was put is found, and five units are encoded in their length.
pub record MetaDbLaws {D : Type 0} (db : MetaDb D) : Type 0 where
  pub get-put : (k v : Bytes) (d : D) {d' : D} → db.put k v d ≡ ok d' → db.get k d' ≡ (v, none)
  pub length-bytes :
      (u : Dimensions) → length u ≡ 5 → length (db.dimensions_bytes u) ≡ db.dimensions_len
  pub unpack-bytes :
      (u : Dimensions) → length u ≡ 5 → db.unpack_dimensions (db.dimensions_bytes u) ≡ ok u

-- What `GetTransaction` returns of a transaction that it finds.
pub record TxResult : Type 0 where
  pub timestamp : ℤ
  pub success : Bool
  pub units : Dimensions
  pub fee : ℕ

module _ {D : Type 0} (db : MetaDb D) where
  open db use {get, put, dimensions_len, dimensions_bytes, unpack_dimensions}

  -- The buffer `v`, by the order of its writes.
  pub tx_value : TxResult → Bytes
  tx_value r =
      let v =
        copy_at 0 (append_uint64 (to_uint64 r.timestamp))
          (replicate (8 + 1 + dimensions_len + 8) 0) in
      let v' = copy_at 8 ((if r.success then success_byte else failure_byte) ∷ []) v in
      let v'' = copy_at (8 + 1) (dimensions_bytes r.units) v' in
      copy_at (8 + 1 + dimensions_len) (append_uint64 r.fee) v''

  unfoldable pub store_transaction : Bytes → TxResult → Action D (Unit {0})
  unfolding tx_value
  store_transaction id r = modify (put (tx_key id) (tx_value r))

  -- `v[consts.Uint64Len] == failureByte`, an index panic on a short value.
  pub is_failure : Bytes → Outcome Bool
  is_failure [] = panic
  is_failure (b ∷ rest) = ok (b == failure_byte)

  pub read_tx_value : Bytes → Outcome TxResult
  unfolding is_failure
  read_tx_value v = then_outcome (uint64 v) λ t. then_outcome (is_failure (drop 8 v)) λ failed.
      then_outcome (slice (8 + 1) (8 + 1 + dimensions_len) v) λ units_bytes.
        then_outcome (unpack_dimensions units_bytes) λ d.
          then_outcome (uint64 (drop (8 + 1 + dimensions_len) v)) λ fee.
            ok (record { timestamp = to_int64 t; success = not failed; units = d; fee = fee })

  pub inner_get_transaction : Bytes → Option Error → Outcome (Option TxResult)
  unfolding read_tx_value
  inner_get_transaction v (some e) = if is_not_found e then ok none else err e
  inner_get_transaction v none = then_outcome (read_tx_value v) λ r. ok (some r)

  -- `none` is a transaction that is not found.
  unfoldable pub get_transaction : Bytes → D → Outcome (Option TxResult)
  unfolding inner_get_transaction
  get_transaction id d = let (v, e) = get (tx_key id) d in inner_get_transaction v e
