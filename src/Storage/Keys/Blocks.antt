-- ===== src/Storage/Keys/Blocks.antt =====
-- The buffer of a block's key has no room for the chunk count that is written after its end.
use nodekit_seq.Prelude.{
  ℕ, ◌+◌, ◌*◌, ◌≡◌, refl, ◌∙◌, false, Bytes, [], ◌∷◌, leb, length, drop, length-drop, replicate,
  arith,
}
use nodekit_seq.Outcome.{panic}
use nodekit_seq.Encoding.{copy_at, put_uint16_at}
use nodekit_seq.Encoding.Buffers.{length-copy_at}
use nodekit_seq.Storage.Keys.{balance_chunks, prefix_block_key}

put_uint16_at_end : (off n : ℕ) (dst : Bytes) → length dst ≡ off → put_uint16_at off n dst ≡ panic
unfolding put_uint16_at
put_uint16_at_end off n dst h =
    let short : leb 2 (length (drop off dst)) ≡ false = ground (arith, length-drop off dst) in
    rw short refl

-- Whatever the block and its parent, the key is never made: the call panics.
pub prefix_block_key_panics : (block parent : Bytes) → prefix_block_key block parent ≡ panic
unfolding prefix_block_key
prefix_block_key_panics block parent =
    let k = copy_at 0 (0x9 ∷ []) (replicate (1 + 32 * 2) 0) in
    let k' = copy_at 1 block k in
    let whole : length k' ≡ 1 + 32 * 2 =
      length-copy_at 1 block k ∙ length-copy_at 0 (0x9 ∷ []) (replicate (1 + 32 * 2) 0) in
    rw (put_uint16_at_end (1 + 32 * 2) balance_chunks k' whole) refl
