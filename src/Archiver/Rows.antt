-- ===== src/Archiver/Rows.antt =====
-- The loop over the rows of a query: what it makes, and that it accepts only heights without a gap.
use nodekit_seq.Prelude.{
  ℕ, ◌+◌, ◌^◌, ◌<◌, ◌≤◌, ◌≡◌, refl, sym, ◌∙◌, ◌↔◌, inl, inr, Option, none, some, List, [], ◌∷◌,
  ◌++◌, map, In, Option-cases, arith,
}
use mathlib.Core.List.{append-nil, append_assoc}
use nodekit_seq.Outcome.{Error, ok, err, ok-injective}
use nodekit_seq.Archiver.{DbBlock, BlockInfo, block_info, last, gap, consecutive}
use nodekit_seq.Archiver.Laws.{IsAbove}

-- Each height is one more than the height before it.
abbrev pub Consecutive : List BlockInfo → Type 0
Consecutive [] = Unit {0}
Consecutive (i ∷ []) = Unit {0}
Consecutive (i ∷ j ∷ is) = (j.height ≡ i.height + 1) × Consecutive (j ∷ is)

last-append : (is : List BlockInfo) (i : BlockInfo) → last (is ++ (i ∷ [])) ≡ some i
unfolding last
last-append [] i = refl
last-append (j ∷ []) i = refl
last-append (j ∷ k ∷ is) i = last-append (k ∷ is) i

-- What may follow a list: anything after an empty one, else the next height.
abbrev Follows : Option BlockInfo → BlockInfo → Type 0
Follows none i = Unit {0}
Follows (some p) i = i.height ≡ p.height + 1

Consecutive-append :
    (is : List BlockInfo) (i : BlockInfo)
    → Consecutive is
    → Follows (last is) i
    → Consecutive (is ++ (i ∷ []))
unfolding last
Consecutive-append [] i c f = tt
Consecutive-append (j ∷ []) i c f = (f, tt)
Consecutive-append (j ∷ k ∷ is) i c f = (c.0, Consecutive-append (k ∷ is) i c.1 f)

-- The height that a list has reached.
abbrev reached : Option BlockInfo → ℕ
reached none = 0
reached (some p) = p.height

gap-Follows :
    (fail : ℕ → ℕ → Error) (i : BlockInfo) (p : Option BlockInfo)
    → i.height < 2 ^ 64
    → reached p ≤ i.height
    → gap fail i p ≡ none
    → Follows p i
gap-Follows fail i none small above e = tt
gap-Follows fail i (some p) small above e = ground arith

module _ (fail : ℕ → ℕ → Error) where
  -- One round that goes on.
  consecutive-step :
      (b : DbBlock) (bs : List DbBlock) (is infos : List BlockInfo)
      → consecutive fail (b ∷ bs) is ≡ ok infos
      → (gap fail (block_info b) (last is) ≡ none)
        × (consecutive fail bs (is ++ (block_info b ∷ [])) ≡ ok infos)
  unfolding consecutive
  consecutive-step b bs is infos h = elim (Option-cases (gap fail (block_info b) (last is))) [
    | inl fits ↦ (fits, rw (fits, consecutive) at h)
    | inr (e, broken) ↦ let stopped : err e ≡ ok infos = rw (broken, consecutive) at h in cc stopped
  ]

  pub consecutive-map :
      (bs : List DbBlock) (is infos : List BlockInfo)
      → consecutive fail bs is ≡ ok infos
      → infos ≡ is ++ map block_info bs
  unfolding consecutive
  consecutive-map [] is infos h = sym (ok-injective h) ∙ sym (append-nil is)
  consecutive-map (b ∷ bs) is infos h =
      let (fits, rest) = consecutive-step b bs is infos h in
      consecutive-map bs (is ++ (block_info b ∷ [])) infos rest
      ∙ append_assoc is (block_info b ∷ []) (map block_info bs)

  pub consecutive-Consecutive :
      (bs : List DbBlock) (is infos : List BlockInfo)
      → ((b : DbBlock) → In b bs → b.height < 2 ^ 64)
      → IsAbove (reached (last is)) bs
      → Consecutive is
      → consecutive fail bs is ≡ ok infos
      → Consecutive infos
  unfolding consecutive
  consecutive-Consecutive [] is infos small above c h = rw (← ok-injective h) c
  consecutive-Consecutive (b ∷ bs) is infos small (above, rest_above) c h =
      let (fits, rest) = consecutive-step b bs is infos h in
      let follows = gap-Follows fail (block_info b) (last is) (small b (inl refl)) above fits in
      consecutive-Consecutive bs (is ++ (block_info b ∷ [])) infos (λ r m. small r (inr m))
        (rw (last-append is (block_info b)) rest_above)
        (Consecutive-append is (block_info b) c follows) rest

gap_any :
    (fail other : ℕ → ℕ → Error) (i : BlockInfo) (p : Option BlockInfo)
    → gap fail i p ≡ none
    → gap other i p ≡ none
gap_any fail other i none e = refl
gap_any fail other i (some p) e = ground arith

-- The error that a gap would give does not matter to what is accepted.
pub consecutive_any :
    (fail other : ℕ → ℕ → Error) (bs : List DbBlock) (is infos : List BlockInfo)
    → consecutive fail bs is ≡ ok infos
    → consecutive other bs is ≡ ok infos
unfolding consecutive
consecutive_any fail other [] is infos h = h
consecutive_any fail other (b ∷ bs) is infos h =
    let (fits, rest) = consecutive-step fail b bs is infos h in
    rw (gap_any fail other (block_info b) (last is) fits, consecutive)
      (consecutive_any fail other bs (is ++ (block_info b ∷ [])) infos rest)

pub In-map :
    (i : BlockInfo) (bs : List DbBlock)
    → In i (map block_info bs) ↔ ((b : DbBlock) × In b bs × (block_info b ≡ i))
In-map i [] = (λ h. elim h [ ], λ (b, m, e). elim m [ ])
In-map i (b ∷ bs) = (
  λ h. elim h [
    | inl e ↦ (b, inl refl, e)
    | inr m ↦ let (r, n, e) = (In-map i bs).0 m in (r, inr n, e)
  ],
  λ (r, m, e). elim m [ inl same ↦ inl (rw same e) | inr n ↦ inr ((In-map i bs).1 (r, n, e)) ],
)
