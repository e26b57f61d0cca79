-- ===== src/Storage/Keys/Tests.antt =====
-- A block of bytes 1 after a block of bytes 2.
use nodekit_seq.Prelude.{◌≡◌, replicate}
use nodekit_seq.Outcome.{panic}
use nodekit_seq.Storage.Keys.{prefix_block_key}
use nodekit_seq.Storage.Keys.Blocks.{prefix_block_key_panics}

prefix_block_key_panics_example : prefix_block_key (replicate 32 1) (replicate 32 2) ≡ panic
prefix_block_key_panics_example = prefix_block_key_panics (replicate 32 1) (replicate 32 2)
