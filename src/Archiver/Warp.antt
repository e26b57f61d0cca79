-- ===== src/Archiver/Warp.antt =====
-- What the query for commitments answers, and what its block roots fix.
use nodekit_seq.Prelude.{ℕ, ◌<◌, ◌^◌, ◌≡◌, List, [], ◌∷◌, Bytes}
use nodekit_seq.Prelude.Int.{ℤ, IsInt64, to_uint64, to_int64}
use nodekit_seq.Outcome.{ok}
use nodekit_seq.Archiver.{DbBlock, Orm, BlockCodec, SequencerWarpBlock, CommitmentArgs, warp_block}

-- What an answered block says of its row beside the two roots.
abbrev pub answered : SequencerWarpBlock → Bytes × ℤ × ℕ × ℤ
answered w = (w.block_id, w.timestamp, w.l1_head, w.height)

abbrev pub expected : DbBlock → Bytes × ℤ × ℕ × ℤ
expected b = (b.block_id, b.timestamp, to_uint64 b.l1_head, to_int64 b.height)

-- The part of a row that its header commits to, as it is stored.
abbrev pub stored_header : DbBlock → ℕ × ℤ × ℤ
stored_header b = (b.height, b.timestamp, b.l1_head)

abbrev pub block_root : SequencerWarpBlock → ℤ
block_root w = w.block_root

-- The types of the columns of a row.
abbrev IsTyped : DbBlock → Type 0
IsTyped b = (b.height < 2 ^ 64) × IsInt64 b.timestamp × IsInt64 b.l1_head

module _ (codec : BlockCodec) (keccak : Bytes → Bytes) where
  -- Each block is made of the row at its place.
  abbrev Made : List DbBlock → List SequencerWarpBlock → Type 0
  Made [] [] = Unit {0}
  Made [] (w ∷ ws) = ⊥
  Made (b ∷ bs) [] = ⊥
  Made (b ∷ bs) (w ∷ ws) = (warp_block codec keccak b ≡ ok w) × Made bs ws

  module _ {D T : Type 0} (orm : Orm D T) where
    -- The rows that a request selects.
    abbrev pub selected : CommitmentArgs → D → List DbBlock
    selected args d = (orm.find_between args.first args.current_height args.max_blocks d).0
