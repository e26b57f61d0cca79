-- ===== src/Archiver.antt =====
-- archiver/orm_archiver.go: the accepted blocks as rows of a database, and the queries of their
-- headers and commitments. The database is gorm's, a record of the calls that the code makes.
pub mod Laws
mod Rows
pub mod Queries
pub mod Warp
pub mod Example
pub mod Opening
mod Tests
use nodekit_seq.Prelude.{
  ℕ, ◌+◌, ◌-◌, ◌%◌, ◌^◌, Bool, true, false, Option, none, some, List, [], ◌∷◌, ◌++◌, map, Bytes,
  bytes_eq, ltb, ◌==◌, if◌then◌else◌,
}
use nodekit_seq.Prelude.Int.{ℤ, pos, to_uint64, to_int64}
use nodekit_seq.Outcome.{
  Error, id_not_specified, first_height_too_small, blocks_not_consecutive,
  blocks_not_consecutive_between, Outcome, ok, err, panic, from_pair, map_ok, then_outcome,
}
use nodekit_seq.Types.Commitments.{Commitment, U256, uint256, set_bytes}
use nodekit_seq.Types.Headers.{commit}
use nodekit_seq.Controller.Acceptance.{Tx}

-- A row; the zero row is what a query leaves in its destination when it finds nothing.
pub record DbBlock : Type 0 where
  pub block_id : Bytes
  pub parent : Bytes
  pub timestamp : ℤ
  pub height : ℕ
  pub l1_head : ℤ
  pub bytes : Bytes

abbrev pub zero_block : DbBlock
zero_block = record {
  block_id = [];
  parent = [];
  timestamp = pos 0;
  height = 0;
  l1_head = pos 0;
  bytes = [];
}

-- gorm: a transaction of type `T` on a database of type `D`; `abandon` is one that is never ended.
-- A query of one row by `Find` or `First` gives the destination and the error.
pub record Orm (D T : Type 0) : Type 0 where
  pub begin : D → T
  pub create : DbBlock → T → Option Error × T
  pub delete : DbBlock → T → Option Error × T
  pub commit_tx : T → Option Error × D
  pub rollback : T → D
  pub abandon : T → D
  -- `First(dbBlock)`.
  pub first_row : DbBlock → D → DbBlock × Option Error
  -- `Where("block_id = ?")`, `Where("height = ?")`.
  pub find_by_id : Bytes → D → DbBlock × Option Error
  pub find_by_height : ℕ → D → DbBlock × Option Error
  -- `Where("height >= ? AND timestamp < ?").Order("height")`.
  pub find_range : ℕ → ℤ → D → List DbBlock × Option Error
  -- `Where("timestamp >= ?")`, by height and by timestamp.
  pub first_by_height : ℤ → D → DbBlock × Option Error
  pub first_by_timestamp : ℤ → D → DbBlock × Option Error
  -- `Where("height >= ? AND height <= ?").Order("height").Limit(n)`.
  pub find_between : ℕ → ℕ → ℤ → D → List DbBlock × Option Error

-- hypersdk's `chain.StatefulBlock`, by what the repository reads of it.
pub record StatefulBlock : Type 0 where
  pub prnt : Bytes
  pub txs : List Tx

-- `chain.UnmarshalBlock`, `StatefulBlock.ID` and `ids.FromString`.
pub record BlockCodec : Type 0 where
  pub unmarshal_block : Bytes → Outcome StatefulBlock
  pub block_id : StatefulBlock → Outcome Bytes
  pub id_from_string : Bytes → Outcome Bytes

-- A `chain.StatelessBlock`, by what is stored of it.
pub record StatelessBlock : Type 0 where
  pub id : Bytes
  pub prnt : Bytes
  pub tmstmp : ℤ
  pub hght : ℕ
  pub l1_head : ℤ
  pub marshal : Outcome Bytes

-- types/types.go.
pub record BlockInfo : Type 0 where
  pub block_id : Bytes
  pub timestamp : ℤ
  pub l1_head : ℕ
  pub height : ℕ

abbrev pub zero_info : BlockInfo
zero_info = record { block_id = []; timestamp = pos 0; l1_head = 0; height = 0 }

pub record BlockHeadersResponse : Type 0 where
  pub from : ℕ
  pub blocks : List BlockInfo
  pub prev : BlockInfo
  pub next : BlockInfo

pub record HeadersByHeightArgs : Type 0 where
  pub height : ℕ
  pub end_time_stamp : ℤ

pub record HeadersIdArgs : Type 0 where
  pub id : Bytes
  pub end_time_stamp : ℤ

pub record HeadersByStartTimeStampArgs : Type 0 where
  pub start_time_stamp : ℤ
  pub end_time_stamp : ℤ

pub record CommitmentArgs : Type 0 where
  pub first : ℕ
  pub current_height : ℕ
  pub max_blocks : ℤ

pub record SequencerWarpBlock : Type 0 where
  pub block_id : Bytes
  pub timestamp : ℤ
  pub l1_head : ℕ
  pub height : ℤ
  pub block_root : U256
  pub parent_root : U256

abbrev pub block_info : DbBlock → BlockInfo
block_info b = record {
  block_id = b.block_id;
  timestamp = b.timestamp;
  l1_head = to_uint64 b.l1_head;
  height = b.height;
}

unfoldable pub last : List BlockInfo → Option BlockInfo
last [] = none
last (i ∷ []) = some i
last (i ∷ j ∷ is) = last (j ∷ is)

-- `blkInfo.Height-1` on 64-bit words.
abbrev pub one_less : ℕ → ℕ
one_less n = (n + (2 ^ 64 - 1)) % 2 ^ 64

-- The error of a block that does not follow the last one, from its height and that of the last one.
abbrev pub gap : (ℕ → ℕ → Error) → BlockInfo → Option BlockInfo → Option Error
gap fail i none = none
gap fail i (some p) = if one_less i.height == p.height then none else some (fail i.height p.height)

-- The loop over the rows, with `ret.Blocks`.
unfoldable pub consecutive :
    (ℕ → ℕ → Error) → List DbBlock → List BlockInfo → Outcome (List BlockInfo)
unfolding last
consecutive fail [] infos = ok infos
consecutive fail (b ∷ bs) infos = elim (gap fail (block_info b) (last infos)) [
  | none ↦ consecutive fail bs (infos ++ (block_info b ∷ []))
  | some e ↦ err e
]

-- The `Find` or `First` of one row, when its error is not looked at further.
abbrev pub found_info : DbBlock × Option Error → BlockInfo
found_info (b, none) = block_info b
found_info (b, some e) = zero_info

module _ (codec : BlockCodec) (keccak : Bytes → Bytes) where
  open codec use {unmarshal_block, block_id}

  -- The body of the loop of `GetCommitmentBlocks`.
  unfoldable pub warp_block : DbBlock → Outcome SequencerWarpBlock
  warp_block b = then_outcome (unmarshal_block b.bytes) λ blk. then_outcome (block_id blk) λ id.
      then_outcome
        (commit keccak (record {
          height = b.height;
          timestamp = to_uint64 b.timestamp;
          l1_head = to_uint64 b.l1_head;
          transactions_root = record { root = id };
        }))
        λ comm. ok (record {
          block_id = b.block_id;
          timestamp = b.timestamp;
          l1_head = to_uint64 b.l1_head;
          height = to_int64 b.height;
          block_root = uint256 comm;
          parent_root = set_bytes blk.prnt;
        })

  unfoldable pub warp_blocks :
      List DbBlock → List SequencerWarpBlock → Outcome (List SequencerWarpBlock)
  unfolding warp_block
  warp_blocks [] done = ok done
  warp_blocks (b ∷ bs) done = then_outcome (warp_block b) λ w. warp_blocks bs (done ++ (w ∷ []))

module _ {D T : Type 0} (orm : Orm D T) where
  open orm use {
    begin, create, delete, commit_tx, rollback, abandon, first_row, find_by_id, find_by_height,
    find_range, first_by_height, first_by_timestamp, find_between,
  }

  -- The error of `Commit`.
  abbrev ended : Option Error × D → Outcome (Unit {0}) × D
  ended (e, d) = (from_pair tt e, d)

  abbrev created : Option Error × T → Outcome (Unit {0}) × D
  created (some e, tx) = (err e, rollback tx)
  created (none, tx) = ended (commit_tx tx)

  abbrev stored : StatelessBlock → D → Outcome Bytes → Outcome (Unit {0}) × D
  stored block d (err e) = (err e, d)
  stored block d panic = (panic, d)
  stored block d (ok blk_bytes) = created (
      create
        (record {
          block_id = block.id;
          parent = block.prnt;
          timestamp = block.tmstmp;
          height = block.hght;
          l1_head = block.l1_head;
          bytes = blk_bytes;
        })
        (begin d))

  pub insert_block : StatelessBlock → D → Outcome (Unit {0}) × D
  insert_block block d = stored block d block.marshal

  -- A refused deletion returns without ending its transaction.
  abbrev deleted : Option Error × T → Outcome Bool × D
  deleted (some e, tx) = (err e, abandon tx)
  deleted (none, tx) = let (e, d) = commit_tx tx in (from_pair true e, d)

  pub delete_block : DbBlock → D → Outcome Bool × D
  delete_block b d = deleted (delete b (begin d))

  -- The block at a height, unless it is the first.
  abbrev pub previous : ℕ → D → Outcome BlockInfo
  previous height d =
      if ltb 1 height
      then map_ok block_info
          (from_pair (find_by_height (height - 1) d).0 (find_by_height (height - 1) d).1)
      else ok zero_info

  unfoldable pub headers_by_height : HeadersByHeightArgs → D → Outcome BlockHeadersResponse
  unfolding consecutive
  headers_by_height args d = then_outcome (previous args.height d) λ prev.
      let (blocks, e) = find_range args.height args.end_time_stamp d in
      then_outcome (from_pair blocks e) λ rows.
        then_outcome (consecutive blocks_not_consecutive_between rows []) λ infos. ok (record {
          from = 0;
          blocks = infos;
          prev = prev;
          next = found_info (first_by_height args.end_time_stamp d);
        })

  unfoldable pub headers_by_id : HeadersIdArgs → D → Outcome BlockHeadersResponse
  unfolding consecutive
  headers_by_id args d =
      if bytes_eq args.id []
      then err id_not_specified
      else let (first_block, e₀) = find_by_id args.id d in
        then_outcome (from_pair first_block.height e₀) λ first_height.
          then_outcome (previous first_height d) λ prev.
            let (blocks, e) = find_range first_height args.end_time_stamp d in
            then_outcome (from_pair blocks e) λ rows.
              then_outcome (consecutive (λ current before. blocks_not_consecutive) rows []) λ infos.
                ok (record {
                  from = 0;
                  blocks = infos;
                  prev = prev;
                  next = found_info (first_by_height args.end_time_stamp d);
                })

  unfoldable pub headers_after_timestamp :
      HeadersByStartTimeStampArgs → D → Outcome BlockHeadersResponse
  unfolding consecutive
  headers_after_timestamp args d =
      let (start_block, e₀) = first_by_timestamp args.start_time_stamp d in
      then_outcome (from_pair start_block.height e₀) λ first_height.
        then_outcome (previous first_height d) λ prev.
          let (blocks, e) = find_range first_height args.end_time_stamp d in
          then_outcome (from_pair blocks e) λ rows.
            then_outcome (consecutive (λ current before. blocks_not_consecutive) rows []) λ infos.
              ok (record {
                from = 0;
                blocks = infos;
                prev = prev;
                next = found_info (first_by_height args.end_time_stamp d);
              })

  module _ (codec : BlockCodec) where
    open codec use {unmarshal_block, id_from_string}

    pub block_of_row : DbBlock → D → Outcome (StatefulBlock × Bytes)
    block_of_row b d =
        let (row, e) = first_row b d in
        then_outcome (from_pair row e) λ r.
          then_outcome (unmarshal_block r.bytes)
            λ blk. then_outcome (id_from_string r.block_id) λ id. ok (blk, id)

    unfoldable pub block_by_id : Bytes → D → Outcome StatefulBlock
    block_by_id id d =
        let (row, e) = find_by_id id d in
        then_outcome (from_pair row e) λ r. unmarshal_block r.bytes

    unfoldable pub block_by_height : ℕ → D → Outcome StatefulBlock
    block_by_height height d =
        let (row, e) = find_by_height height d in
        then_outcome (from_pair row e) λ r. unmarshal_block r.bytes

    module _ (keccak : Bytes → Bytes) where
      unfoldable pub commitment_blocks : CommitmentArgs → D → Outcome (List SequencerWarpBlock)
      unfolding warp_blocks
      commitment_blocks args d =
          if ltb args.first 1
          then err first_height_too_small
          else let (blocks, e) = find_between args.first args.current_height args.max_blocks d in
            then_outcome (from_pair blocks e) λ rows. warp_blocks codec keccak rows []
