-- ===== src/Archiver/Queries.antt =====
-- What the three queries of headers answer.
use nodekit_seq.Prelude.{
  Bool-cases, ℕ, ◌-◌, ◌≡◌, ◌≢◌, ◌↔◌, sym, ap, ◌∙◌, inl, inr, none, List, [], map, Bytes,
  ne→bytes_eq, ltb, In, arith,
}
use nodekit_seq.Prelude.Int.{ℤ}
use nodekit_seq.Outcome.{
  Error, blocks_not_consecutive, blocks_not_consecutive_between, Outcome, ok, from_pair,
  then_outcome, ok-injective,
}
use nodekit_seq.Outcome.Chains.{then_outcome-ok, from_pair-ok, map_ok-ok}
use nodekit_seq.Archiver.{
  DbBlock, zero_info, last, Orm, BlockInfo, block_info, BlockHeadersResponse, HeadersByHeightArgs,
  HeadersIdArgs, consecutive, found_info, previous, headers_by_height, headers_by_id,
  headers_after_timestamp,
}
use nodekit_seq.Archiver.Laws.{OrmLaws, Selected, IsPrevious}
use nodekit_seq.Archiver.Rows.{
  Consecutive, consecutive-map, consecutive-Consecutive, consecutive_any, In-map,
}

module _ {D T : Type 0} (orm : Orm D T) where
  open orm use {find_by_id, find_by_height, find_range, first_by_height, first_by_timestamp}

  -- The common part of the queries, from the height of the first block on.
  abbrev headers_from : (ℕ → ℕ → Error) → ℕ → ℤ → D → Outcome BlockHeadersResponse
  headers_from fail height end d = then_outcome (previous orm height d) λ prev.
      then_outcome (from_pair (find_range height end d).0 (find_range height end d).1) λ rows.
        then_outcome (consecutive fail rows []) λ infos. ok (record {
          from = 0;
          blocks = infos;
          prev = prev;
          next = found_info (first_by_height end d);
        })

  -- What a query that succeeds has passed.
  record Passed (height : ℕ) (end : ℤ) (d : D) (r : BlockHeadersResponse) : Type 0 where
    fail : ℕ → ℕ → Error
    rows : List DbBlock
    prev_ok : previous orm height d ≡ ok r.prev
    rows_ok : find_range height end d ≡ (rows, none)
    blocks_ok : consecutive fail rows [] ≡ ok r.blocks

  headers_from-Passed :
      (fail : ℕ → ℕ → Error) (height : ℕ) (end : ℤ) (d : D) (r : BlockHeadersResponse)
      → headers_from fail height end d ≡ ok r
      → Passed height end d r
  headers_from-Passed fail height end d r h =
      let (prev, prev_ok, h₁) = then_outcome-ok _ (previous orm height d) h in
      let (rows, rows_ok, h₂) =
        then_outcome-ok _ (from_pair (find_range height end d).0 (find_range height end d).1) h₁ in
      let (infos, blocks_ok, h₃) = then_outcome-ok _ (consecutive fail rows []) h₂ in
      let same = ok-injective h₃ in
      record {
        fail = fail;
        rows = rows;
        prev_ok = prev_ok ∙ ap (λ a. ok a.prev) same;
        rows_ok = from_pair-ok (find_range height end d) rows_ok;
        blocks_ok = blocks_ok ∙ ap (λ a. ok a.blocks) same;
      }

  headers_from_any :
      (fail other : ℕ → ℕ → Error) (height : ℕ) (end : ℤ) (d : D) (r : BlockHeadersResponse)
      → headers_from fail height end d ≡ ok r
      → headers_from other height end d ≡ ok r
  headers_from_any fail other height end d r h =
      let (prev, prev_ok, h₁) = then_outcome-ok _ (previous orm height d) h in
      let (rows, rows_ok, h₂) =
        then_outcome-ok _ (from_pair (find_range height end d).0 (find_range height end d).1) h₁ in
      let (infos, blocks_ok, h₃) = then_outcome-ok _ (consecutive fail rows []) h₂ in
      rw (prev_ok, rows_ok, consecutive_any fail other rows [] infos blocks_ok) h₃

  abbrev plain : ℕ → ℕ → Error
  plain current last = blocks_not_consecutive

  any_error :
      (height : ℕ) (end : ℤ) (d : D) (r : BlockHeadersResponse)
      → (headers_from plain height end d ≡ ok r)
        ↔ (headers_from blocks_not_consecutive_between height end d ≡ ok r)
  any_error height end d r = (
    headers_from_any plain blocks_not_consecutive_between height end d r,
    headers_from_any blocks_not_consecutive_between plain height end d r,
  )

  -- Where a block is the one of an identifier and the first one from a timestamp, the query by this
  -- identifier, the query from this timestamp and the query by the block's height succeed together,
  -- and with one answer.
  pub headers_by_id-by_height :
      (id : Bytes) (start end : ℤ) (d : D) (b : DbBlock) (r : BlockHeadersResponse)
      → id ≢ []
      → find_by_id id d ≡ (b, none)
      → first_by_timestamp start d ≡ (b, none)
      → ((headers_by_id orm (record { id = id; end_time_stamp = end }) d ≡ ok r)
          ↔ (headers_by_height orm (record { height = b.height; end_time_stamp = end }) d ≡ ok r))
        × ((headers_after_timestamp orm
                (record { start_time_stamp = start; end_time_stamp = end })
                d
              ≡ ok r)
            ↔ (headers_by_height orm (record { height = b.height; end_time_stamp = end }) d ≡ ok r))
  unfolding headers_by_id headers_by_height headers_after_timestamp
  headers_by_id-by_height id start end d b r named by_id by_start = (
    rw (ne→bytes_eq id [] named, by_id) (any_error b.height end d r),
    rw by_start (any_error b.height end d r),
  )

  module _ (rows : D → List DbBlock) (laws : OrmLaws orm rows) where
    open laws use {heights, finds_id, finds_height, range_sorted, range_In}

    Passed-blocks :
        (height : ℕ) (end : ℤ) (d : D) (r : BlockHeadersResponse)
        → Passed height end d r
        → Consecutive r.blocks × ((i : BlockInfo) → In i r.blocks ↔ Selected rows height end d i)
    unfolding last
    Passed-blocks height end d r p =
        let exactly = range_In height end d p.rows_ok in
        let listed : r.blocks ≡ map block_info p.rows =
          consecutive-map p.fail p.rows [] r.blocks p.blocks_ok in
        (
          consecutive-Consecutive p.fail p.rows [] r.blocks (λ b m. heights d b ((exactly b).0 m).0)
              (range_sorted height end d p.rows_ok) tt p.blocks_ok,
          λ i. (
            λ m.
                let (b, n, e) = (In-map i p.rows).0 (rw listed at m) in
                let (held, above, early) = (exactly b).0 n in (b, held, above, early, e),
            λ (b, m, above, early, e).
                rw listed ((In-map i p.rows).1 (b, (exactly b).1 (m, above, early), e)),
          ),
        )

    previous-IsPrevious :
        (height : ℕ) (d : D) (i : BlockInfo)
        → previous orm height d ≡ ok i
        → IsPrevious rows height d i
    previous-IsPrevious height d i h = elim (Bool-cases (ltb 1 height)) [
      | inr first ↦
          let none_before : zero_info ≡ i = ok-injective (rw first at h) in
          inr (sym none_before, λ (late, held). ground arith)
      | inl late ↦
          let (row, found, e) =
            map_ok-ok block_info
              (from_pair (find_by_height (height - 1) d).0 (find_by_height (height - 1) d).1)
              (rw late at h) in
          elim (finds_height (height - 1) d (from_pair-ok (find_by_height (height - 1) d) found)) [
            | inl (held, same) ↦ inl (row, held, ground arith, ground arith, e)
            | inr (zero, absent) ↦
                let blank : i ≡ zero_info = sym e ∙ ap block_info zero in
                inr (blank, λ (late', (b, held, same)). absent b held (omega arith))
          ]
    ]

    -- A query by height that succeeds lists the headers of exactly the rows from this height on and
    -- before its end, in consecutive heights, and the header of the row one below, if there is one.
    pub headers_by_height-Selected :
        (args : HeadersByHeightArgs) (d : D) (r : BlockHeadersResponse)
        → headers_by_height orm args d ≡ ok r
        → Consecutive r.blocks
          × ((i : BlockInfo) → In i r.blocks ↔ Selected rows args.height args.end_time_stamp d i)
          × IsPrevious rows args.height d r.prev
    unfolding headers_by_height
    headers_by_height-Selected args d r h =
        let p =
          headers_from-Passed blocks_not_consecutive_between args.height args.end_time_stamp d r
            h in
        let (steps, exactly) = Passed-blocks args.height args.end_time_stamp d r p in
        (steps, exactly, previous-IsPrevious args.height d r.prev p.prev_ok)

    -- A query by an identifier that no row has is not refused: unless the search for it fails, it
    -- succeeds exactly when the query from height 0 does, and with its answer.
    pub headers_by_id_unknown :
        (args : HeadersIdArgs) (d : D) (b : DbBlock) (r : BlockHeadersResponse)
        → args.id ≢ []
        → ((q : DbBlock) → In q (rows d) → q.block_id ≢ args.id)
        → find_by_id args.id d ≡ (b, none)
        → (headers_by_id orm args d ≡ ok r) ↔ (
            headers_by_height orm (record { height = 0; end_time_stamp = args.end_time_stamp }) d
            ≡ ok r)
    unfolding headers_by_id headers_by_height
    headers_by_id_unknown args d b r named absent found = elim (finds_id args.id d found) [
      | inl (held, same) ↦ absurd (absent b held same)
      | inr (zero, gone) ↦
          rw (ne→bytes_eq args.id [] named, found, zero) (any_error 0 args.end_time_stamp d r)
    ]
