-- ===== src/Archiver/Example.antt =====
-- A concrete database: a list of rows, searched and ordered as the queries say. A row whose height or
-- times are no 64-bit words is not one of the table.
use nodekit_seq.Prelude.{
  ℕ, zero, suc, ◌^◌, ◌≤◌, ◌<◌, ◌≡◌, refl, ap, ◌↔◌, inl, inr, Bool, true, false, not, ◌&&◌, ◌||◌,
  Option, none, some, List, [], ◌∷◌, ◌++◌, bytes_eq, bytes_eq_iff, take, ltb, leb, ◌==◌, In,
  if◌then◌else◌, Bool-cases, arith,
}
use nodekit_seq.Prelude.Int.{ℤ, pos, negsuc, IsInt64}
use nodekit_seq.Outcome.{Error, external, not_found}
use nodekit_seq.Archiver.{DbBlock, zero_block, Orm}
use nodekit_seq.Archiver.Laws.{before, IsAbove, Finds, OrmLaws}

abbrev pub Table : Type 0
Table = List DbBlock

unfoldable pub keep : (DbBlock → Bool) → Table → Table
keep p [] = []
keep p (b ∷ bs) = let rest = keep p bs in if p b then b ∷ rest else rest

unfoldable pub insert : (DbBlock → DbBlock → Bool) → DbBlock → Table → Table
insert le b [] = b ∷ []
insert le b (x ∷ xs) = let rest = insert le b xs in if le b x then b ∷ x ∷ xs else x ∷ rest

unfoldable pub order : (DbBlock → DbBlock → Bool) → Table → Table
unfolding insert
order le [] = []
order le (b ∷ bs) = insert le b (order le bs)

abbrev pub is_int64 : ℤ → Bool
is_int64 (pos n) = ltb n (2 ^ 63)
is_int64 (negsuc n) = ltb n (2 ^ 63)

is_int64_lem : (z : ℤ) → is_int64 z ≡ true → IsInt64 z
is_int64_lem (pos n) h = ground arith
is_int64_lem (negsuc n) h = ground arith

abbrev pub is_row : DbBlock → Bool
is_row b = ltb b.height (2 ^ 64) && (is_int64 b.timestamp && is_int64 b.l1_head)

abbrev pub table : Table → Table
table d = keep is_row d

and_true : (p q : Bool) → p && q ≡ true → (p ≡ true) × (q ≡ true)
and_true true q h = (refl, h)
and_true false q h = cc h

is_row_lem :
    (b : DbBlock)
    → is_row b ≡ true
    → (b.height < 2 ^ 64) × (IsInt64 b.timestamp × IsInt64 b.l1_head)
is_row_lem b h =
    let (height, times) = and_true (ltb b.height (2 ^ 64)) _ h in
    let (time, l1) = and_true (is_int64 b.timestamp) (is_int64 b.l1_head) times in
    (ground arith, (is_int64_lem b.timestamp time, is_int64_lem b.l1_head l1))

abbrev lower : DbBlock → DbBlock → Bool
lower a b = leb a.height b.height

abbrev earlier : DbBlock → DbBlock → Bool
earlier a b = not (before b.timestamp a.timestamp)

-- `Find` into one row, and `First`, which fails on no row.
abbrev pub found : Table → DbBlock × Option Error
found [] = (zero_block, none)
found (b ∷ bs) = (b, none)

abbrev pub first : Table → DbBlock × Option Error
first [] = (zero_block, some not_found)
first (b ∷ bs) = (b, none)

abbrev pub limited : ℤ → Table → Table
limited (pos n) bs = take n bs
limited (negsuc n) bs = bs

abbrev pub taken : DbBlock → Table → Bool
taken b [] = false
taken b (r ∷ rs) = r.height == b.height || bytes_eq r.block_id b.block_id || taken b rs

-- A transaction is the table at its start and the table that it has made.
abbrev pub example_orm : Orm Table (Table × Table)
example_orm = record {
  begin = λ d. (d, d);
  create =
      λ b (d, e). if taken b e then (some (external 11), (d, e)) else (none, (d, e ++ (b ∷ [])));
  delete = λ b (d, e). (none, (d, keep (λ r. not (r.height == b.height)) e));
  commit_tx = λ (d, e). (none, e);
  rollback = λ (d, e). d;
  abandon = λ (d, e). d;
  first_row = λ b d. first (keep (λ r. r.height == b.height) (table d));
  find_by_id = λ id d. found (keep (λ r. bytes_eq r.block_id id) (table d));
  find_by_height = λ h d. found (keep (λ r. r.height == h) (table d));
  find_range = λ h end d.
      (order lower (keep (λ b. leb h b.height && before b.timestamp end) (table d)), none);
  first_by_height = λ t d. first (order lower (keep (λ b. not (before b.timestamp t)) (table d)));
  first_by_timestamp =
      λ t d. first (order earlier (keep (λ b. not (before b.timestamp t)) (table d)));
  find_between = λ lo hi n d.
      (limited n (order lower (keep (λ b. leb lo b.height && leb b.height hi) (table d))), none);
}

keep-In :
    (p : DbBlock → Bool) (b : DbBlock) (bs : Table) → In b (keep p bs) ↔ (In b bs × (p b ≡ true))
unfolding keep
keep-In p b [] = (λ h. elim h [ ], λ (h, e). elim h [ ])
keep-In p b (x ∷ xs) = elim (Bool-cases (p x)) [
  | inl e ↦ rw e (
    λ h. elim h [
      | inl same ↦ (inl same, rw same at e)
      | inr m ↦ let (n, q) = (keep-In p b xs).0 m in (inr n, q)
    ],
    λ (h, q). elim h [ inl same ↦ inl same | inr m ↦ inr ((keep-In p b xs).1 (m, q)) ],
  )
  | inr e ↦ rw e (
    λ h. let (n, q) = (keep-In p b xs).0 h in (inr n, q),
    λ (h, q). elim h [
      | inl same ↦ let clash : p b ≡ false = rw same at e in cc (q, clash)
      | inr m ↦ (keep-In p b xs).1 (m, q)
    ],
  )
]

insert-In :
    (le : DbBlock → DbBlock → Bool) (a b : DbBlock) (bs : Table)
    → In b (insert le a bs) ↔ In b (a ∷ bs)
unfolding insert
insert-In le a b [] = (λ h. h, λ h. h)
insert-In le a b (x ∷ xs) = elim (Bool-cases (le a x)) [
  | inl e ↦ rw e (λ h. h, λ h. h)
  | inr e ↦ rw e (
    λ h. elim h [
      | inl same ↦ inr (inl same)
      | inr m ↦ elim ((insert-In le a b xs).0 m) [ inl same ↦ inl same | inr n ↦ inr (inr n) ]
    ],
    λ h. elim h [
      | inl same ↦ inr ((insert-In le a b xs).1 (inl same))
      | inr (inl same) ↦ inl same
      | inr (inr n) ↦ inr ((insert-In le a b xs).1 (inr n))
    ],
  )
]

order-In : (le : DbBlock → DbBlock → Bool) (b : DbBlock) (bs : Table) → In b (order le bs) ↔ In b bs
unfolding order
order-In le b [] = (λ h. h, λ h. h)
order-In le b (x ∷ xs) =
    let (into, from) = insert-In le x b (order le xs) in
    (
      λ h. elim (into h) [ inl same ↦ inl same | inr m ↦ inr ((order-In le b xs).0 m) ],
      λ h. elim h [ inl same ↦ from (inl same) | inr m ↦ from (inr ((order-In le b xs).1 m)) ],
    )

insert-IsAbove :
    (h : ℕ) (a : DbBlock) (bs : Table) → h ≤ a.height → IsAbove h bs → IsAbove h (insert lower a bs)
unfolding insert
insert-IsAbove h a [] above s = (above, tt)
insert-IsAbove h a (x ∷ xs) above (first, rest) = elim (Bool-cases (lower a x)) [
  | inl e ↦ rw e (above, (ground arith, rest))
  | inr e ↦ rw e (first, insert-IsAbove x.height a xs (ground arith) rest)
]

order-IsAbove : (bs : Table) → IsAbove 0 (order lower bs)
unfolding order
order-IsAbove [] = tt
order-IsAbove (b ∷ bs) = insert-IsAbove 0 b (order lower bs) (omega arith) (order-IsAbove bs)

take-In : (n : ℕ) (b : DbBlock) (bs : Table) → In b (take n bs) → In b bs
take-In zero b bs h = elim h [ ]
take-In (suc n) b [] h = h
take-In (suc n) b (x ∷ xs) (inl e) = inl e
take-In (suc n) b (x ∷ xs) (inr h) = inr (take-In n b xs h)

limited-In : (n : ℤ) (b : DbBlock) (bs : Table) → In b (limited n bs) → In b bs
limited-In (pos n) b bs h = take-In n b bs h
limited-In (negsuc n) b bs h = h

found-Finds :
    (p : DbBlock → Bool) (P : DbBlock → Type 0) (bs : Table)
    → ((r : DbBlock) → (p r ≡ true) ↔ P r)
    → Finds P bs (found (keep p bs)).0
found-Finds p P bs test = go (keep p bs) refl
  where
    go : (ks : Table) → keep p bs ≡ ks → Finds P bs (found ks).0
    go [] e = inr (
      refl,
      λ r m q. let n : In r [] = rw e at ((keep-In p r bs).1 (m, (test r).1 q)) in elim n [ ],
    )
    go (k ∷ ks) e =
        let kept : In k (keep p bs) = rw e (inl refl) in
        let (m, q) = (keep-In p k bs).0 kept in inl (m, (test k).0 q)

abbrev in_range : ℕ → ℤ → DbBlock → Bool
in_range h end b = leb h b.height && before b.timestamp end

abbrev in_between : ℕ → ℕ → DbBlock → Bool
in_between lo hi b = leb lo b.height && leb b.height hi

range_lem :
    (h : ℕ) (end : ℤ) (d : Table) (b : DbBlock)
    → In b (order lower (keep (in_range h end) (table d)))
      ↔ (In b (table d) × (h ≤ b.height) × (before b.timestamp end ≡ true))
range_lem h end d b =
    let (out, into) = order-In lower b (keep (in_range h end) (table d)) in
    let (split, join) = keep-In (in_range h end) b (table d) in
    (
      λ m. let (held, q) = split (out m) in (held, ground arith, ground arith),
      λ (held, above, early). into (join (held, ground arith)),
    )

between_lem :
    (lo hi : ℕ) (n : ℤ) (d : Table) (b : DbBlock)
    → In b (limited n (order lower (keep (in_between lo hi) (table d))))
    → In b (table d) × (lo ≤ b.height) × (b.height ≤ hi)
between_lem lo hi n d b m =
    let ordered = limited-In n b (order lower (keep (in_between lo hi) (table d))) m in
    let kept = (order-In lower b (keep (in_between lo hi) (table d))).0 ordered in
    let (held, q) = (keep-In (in_between lo hi) b (table d)).0 kept in
    (held, ground arith, ground arith)

pub example-OrmLaws : OrmLaws example_orm table
example-OrmLaws = record {
  heights = λ d b m. (is_row_lem b ((keep-In is_row b d).0 m).1).0;
  times = λ d b m. (is_row_lem b ((keep-In is_row b d).0 m).1).1;
  finds_id = λ id d e. rw (← ap (λ p. p.0) e) (
      found-Finds (λ r. bytes_eq r.block_id id) (λ r. r.block_id ≡ id) (table d)
        (λ r. bytes_eq_iff r.block_id id));
  finds_height = λ h d e. rw (← ap (λ p. p.0) e) (
      found-Finds (λ r. r.height == h) (λ r. r.height ≡ h) (table d)
        (λ r. (λ q. ground arith, λ q. ground arith)));
  range_sorted =
      λ h end d e. rw (← ap (λ p. p.0) e) (order-IsAbove (keep (in_range h end) (table d)));
  range_In = λ h end d e b. rw (← ap (λ p. p.0) e) (range_lem h end d b);
  between_In = λ lo hi n d e b m. between_lem lo hi n d b (rw (← ap (λ p. p.0) e) at m);
}
