-- ===== src/Archiver/Tests.antt =====
-- An archive of three blocks, asked by height, by identifier and from a timestamp.
use nodekit_seq.Prelude.{ℕ, ◌≡◌, ◌↔◌, from_be, refl, [], ◌∷◌, Bytes, In, replicate, bytes_eq, arith}
use nodekit_seq.Prelude.Int.{pos}
use nodekit_seq.Outcome.{err, id_not_specified, ok}
use nodekit_seq.Archiver.{
  DbBlock, BlockInfo, block_info, zero_info, BlockCodec, BlockHeadersResponse, SequencerWarpBlock,
  CommitmentArgs, consecutive, last, headers_by_height, headers_by_id, headers_after_timestamp,
}
use nodekit_seq.Archiver.Laws.{Selected, IsPrevious}
use nodekit_seq.Archiver.Rows.{Consecutive}
use nodekit_seq.Archiver.Queries.{headers_by_height-Selected, headers_by_id-by_height}
use nodekit_seq.Archiver.Example.{Table, keep, insert, order, table, example_orm, example-OrmLaws}

-- The block of a height, one every ten.
abbrev block : ℕ → ℕ → DbBlock
block height time = record {
  block_id = height ∷ [];
  parent = [];
  timestamp = pos time;
  height = height;
  l1_head = pos 90;
  bytes = height ∷ [];
}

abbrev archive : Table
archive = block 3 30 ∷ block 2 20 ∷ block 4 40 ∷ []

abbrev answer : BlockHeadersResponse
answer = record {
  from = 0;
  blocks = block_info (block 3 30) ∷ [];
  prev = block_info (block 2 20);
  next = block_info (block 4 40);
}

by_height :
    headers_by_height example_orm (record { height = 3; end_time_stamp = pos 40 }) archive
    ≡ ok answer
unfolding headers_by_height consecutive last keep insert order
by_height = refl

no_id :
    headers_by_id example_orm (record { id = []; end_time_stamp = pos 40 }) archive
    ≡ err id_not_specified
unfolding headers_by_id bytes_eq
no_id = refl

headers_by_height-Selected_example :
    Consecutive answer.blocks
    × ((i : BlockInfo) → In i answer.blocks ↔ Selected table 3 (pos 40) archive i)
    × IsPrevious table 3 archive answer.prev
headers_by_height-Selected_example =
    headers_by_height-Selected example_orm table example-OrmLaws
      (record { height = 3; end_time_stamp = pos 40 }) archive answer by_height

headers_by_id-by_height_example :
    ((headers_by_id example_orm (record { id = 3 ∷ []; end_time_stamp = pos 40 }) archive
        ≡ ok answer)
      ↔ (headers_by_height example_orm (record { height = 3; end_time_stamp = pos 40 }) archive
          ≡ ok answer))
    × ((headers_after_timestamp example_orm
            (record { start_time_stamp = pos 25; end_time_stamp = pos 40 })
            archive
          ≡ ok answer)
        ↔ (headers_by_height example_orm (record { height = 3; end_time_stamp = pos 40 }) archive
            ≡ ok answer))
unfolding keep insert order bytes_eq
headers_by_id-by_height_example =
    headers_by_id-by_height example_orm (3 ∷ []) (pos 25) (pos 40) archive (block 3 30) answer
      (λ p. ground arith) refl refl

-- All blocks before the end, for an identifier that no block has.
abbrev everything : BlockHeadersResponse
everything = record {
  from = 0;
  blocks = block_info (block 2 20) ∷ block_info (block 3 30) ∷ [];
  prev = zero_info;
  next = block_info (block 4 40);
}

unknown :
    headers_by_id example_orm (record { id = 9 ∷ []; end_time_stamp = pos 40 }) archive
    ≡ ok everything
unfolding headers_by_id consecutive last keep insert order bytes_eq
unknown = refl

-- A block is its height, and the hash is constant.
abbrev example_codec : BlockCodec
example_codec = record {
  unmarshal_block = λ bs. ok (record { prnt = replicate 32 1; txs = [] });
  block_id = λ blk. ok (replicate 32 2);
  id_from_string = λ id. ok id;
}

abbrev example_keccak : Bytes → Bytes
example_keccak bs = replicate 32 7

abbrev warp : ℕ → ℕ → SequencerWarpBlock
warp height time = record {
  block_id = height ∷ [];
  timestamp = pos time;
  l1_head = 90;
  height = pos height;
  block_root = pos (from_be 0 (replicate 32 7));
  parent_root = pos (from_be 0 (replicate 32 1));
}

abbrev asked : CommitmentArgs
asked = record { first = 2; current_height = 9; max_blocks = pos 2 }
