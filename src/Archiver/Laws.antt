-- ===== src/Archiver/Laws.antt =====
-- What the archiver relies on of its database: each query gives rows of the table by its condition
-- and order, or the zero row.
use nodekit_seq.Prelude.{
  ℕ, ◌+◌, ◌^◌, ◌≤◌, ◌<◌, ◌≡◌, ◌⊎◌, ◌↔◌, Bool, true, false, none, List, [], ◌∷◌, Bytes, In, ltb,
}
use nodekit_seq.Prelude.Int.{ℤ, pos, negsuc, IsInt64}
use nodekit_seq.Archiver.{DbBlock, zero_block, zero_info, BlockInfo, block_info, Orm}

abbrev pub before : ℤ → ℤ → Bool
before (pos m) (pos n) = ltb m n
before (pos m) (negsuc n) = false
before (negsuc m) (pos n) = true
before (negsuc m) (negsuc n) = ltb n m

-- Heights that do not fall, from a first one on.
abbrev pub IsAbove : ℕ → List DbBlock → Type 0
IsAbove h [] = Unit {0}
IsAbove h (b ∷ bs) = (h ≤ b.height) × IsAbove b.height bs

-- The one row of a condition, or the zero row where no row meets it.
abbrev pub Finds : (DbBlock → Type 0) → List DbBlock → DbBlock → Type 0
Finds P table b = (In b table × P b) ⊎ ((b ≡ zero_block) × ((r : DbBlock) → In r table → ¬ (P r)))

module _ {D : Type 0} (rows : D → List DbBlock) where
  -- The header of a row from a height on and before a timestamp.
  abbrev pub Selected : ℕ → ℤ → D → BlockInfo → Type 0
  Selected height end d i =
      (b : DbBlock) × In b (rows d)
      × (height ≤ b.height)
      × (before b.timestamp end ≡ true)
      × (block_info b ≡ i)

  -- The header of the row one below a height above 1, or the zero header where there is none.
  abbrev pub IsPrevious : ℕ → D → BlockInfo → Type 0
  IsPrevious height d i =
      ((b : DbBlock) × In b (rows d) × (1 < height) × (b.height + 1 ≡ height) × (block_info b ≡ i))
      ⊎ ((i ≡ zero_info)
          × ¬ ((1 < height) × ((b : DbBlock) × In b (rows d) × (b.height + 1 ≡ height))))

module _ {D T : Type 0} (orm : Orm D T) (rows : D → List DbBlock) where
  -- `rows` are the rows of the table.
  open orm use {find_by_id, find_by_height, find_range, find_between}

  pub record OrmLaws : Type 0 where
    -- The types of the columns.
    pub heights : (d : D) (b : DbBlock) → In b (rows d) → b.height < 2 ^ 64
    pub times : (d : D) (b : DbBlock) → In b (rows d) → IsInt64 b.timestamp × IsInt64 b.l1_head
    pub finds_id :
        (id : Bytes) (d : D) {b : DbBlock}
        → find_by_id id d ≡ (b, none)
        → Finds (λ r. r.block_id ≡ id) (rows d) b
    pub finds_height :
        (h : ℕ) (d : D) {b : DbBlock}
        → find_by_height h d ≡ (b, none)
        → Finds (λ r. r.height ≡ h) (rows d) b
    pub range_sorted :
        (h : ℕ) (end : ℤ) (d : D) {bs : List DbBlock}
        → find_range h end d ≡ (bs, none)
        → IsAbove 0 bs
    pub range_In :
        (h : ℕ) (end : ℤ) (d : D) {bs : List DbBlock}
        → find_range h end d ≡ (bs, none)
        → (b : DbBlock)
        → In b bs ↔ (In b (rows d) × (h ≤ b.height) × (before b.timestamp end ≡ true))
    pub between_In :
        (lo hi : ℕ) (n : ℤ) (d : D) {bs : List DbBlock}
        → find_between lo hi n d ≡ (bs, none)
        → (b : DbBlock) → In b bs
        → In b (rows d) × (lo ≤ b.height) × (b.height ≤ hi)
