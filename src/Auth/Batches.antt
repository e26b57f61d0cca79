-- ===== src/Auth/Batches.antt =====
-- Every signature is verified.
use mathlib.Core.List.{append-nil, append_assoc}
use nodekit_seq.Prelude.{
  ℕ, ◌+◌, ◌≤◌, ◌<◌, ◌≡◌, refl, ◌∙◌, sym, ap, true, false, Bool-cases, inl, inr, ◌⊎◌, Option, none,
  some, List, [], ◌∷◌, ◌++◌, length, length-append, ltb, ◌==◌, if◌then◌else◌, arith,
}
use nodekit_seq.Outcome.{ok, ok-injective}
use nodekit_seq.Auth.{Signed, Ed25519Batch, get_batch_verifier, content, add, done}

abbrev pub concat : List (List Signed) → List Signed
concat [] = []
concat (job ∷ jobs) = job ++ concat jobs

concat_last :
    (jobs : List (List Signed)) (job : List Signed)
    → concat (jobs ++ (job ∷ [])) ≡ concat jobs ++ job
concat_last [] job = append-nil job
concat_last (j ∷ jobs) job =
    ap (λ l. j ++ l) (concat_last jobs job) ∙ sym (append_assoc j (concat jobs) job)

abbrev job_of : Option (List Signed) → List (List Signed)
job_of none = []
job_of (some job) = job ∷ []

-- Adding one after another, with the batches that are given out on the way.
unfoldable pub add_all :
    List Signed → List (List Signed) → Ed25519Batch → List (List Signed) × Ed25519Batch
add_all [] jobs b = (jobs, b)
add_all (item ∷ items) jobs b = let (o, b') = add item b in add_all items (jobs ++ job_of o) b'

-- What was added since the last batch was given out.
abbrev pub pending : Ed25519Batch → List Signed
pending b = if b.counter == 0 then [] else content b

-- After `items` have been added, and `jobs` given out.
record Collected (items : List Signed) (jobs : List (List Signed)) (b : Ed25519Batch) : Type 0 where
  pub all : concat jobs ++ pending b ≡ items
  pub counted : b.total_counter ≡ length items
  pub clean : length items < b.total → content b ≡ pending b
  pub held : (pending b ≡ []) ⊎ (b.batch ≡ some (pending b))

add-Collected :
    (items : List Signed) (jobs : List (List Signed)) (b : Ed25519Batch) (item : Signed)
    → length items < b.total
    → Collected items jobs b
    → Collected (items ++ (item ∷ [])) (jobs ++ job_of (add item b).0) (add item b).1
unfolding add
add-Collected items jobs b item room c =
    let more : length (items ++ (item ∷ [])) ≡ b.total_counter + 1 =
      omega (arith, length-append items (item ∷ []), c.counted) in
    let filled = content b ++ (item ∷ []) in
    let next : concat jobs ++ filled ≡ items ++ (item ∷ []) =
      ap (λ l. concat jobs ++ (l ++ (item ∷ []))) (c.clean room)
      ∙ sym (append_assoc (concat jobs) (pending b) (item ∷ []))
      ∙ ap (λ l. l ++ (item ∷ [])) c.all in
    elim (Bool-cases (b.counter + 1 == b.batch_size)) [
      | inl full ↦ rw full (record {
        all = append-nil (concat (jobs ++ (filled ∷ []))) ∙ concat_last jobs filled ∙ next;
        counted = sym more;
        clean = λ small.
            let again : ltb (b.total_counter + 1) b.total ≡ true = ground arith in rw again refl;
        held = inl refl;
      })
      | inr open_batch ↦
          let nonzero : (b.counter + 1 == 0) ≡ false = ground arith in
          rw (open_batch, append-nil jobs)
            (record {
              all = rw nonzero next;
              counted = sym more;
              clean = λ small. rw nonzero refl;
              held = inr (rw nonzero refl);
            })
    ]

add-total : (item : Signed) (b : Ed25519Batch) → (add item b).1.total ≡ b.total
unfolding add
add-total item b = elim (Bool-cases (b.counter + 1 == b.batch_size)) [
  | inl p ↦ rw p refl
  | inr p ↦ rw p refl
]

add_all-Collected :
    (rest items : List Signed) (jobs : List (List Signed)) (b : Ed25519Batch)
    → length items + length rest ≤ b.total
    → Collected items jobs b
    → Collected (items ++ rest) (add_all rest jobs b).0 (add_all rest jobs b).1
unfolding add_all
add_all-Collected [] items jobs b fits c = rw (append-nil items) c
add_all-Collected (item ∷ rest) items jobs b fits c =
    let room : length items < b.total = omega arith in
    let step = add-Collected items jobs b item room c in
    let still : length (items ++ (item ∷ [])) + length rest ≤ (add item b).1.total =
      omega (arith, length-append items (item ∷ []), add-total item b) in
    rw (← append_assoc items (item ∷ []) rest) (
      add_all-Collected rest (items ++ (item ∷ [])) (jobs ++ job_of (add item b).0) (add item b).1
        still step)

done_last : (b : Ed25519Batch) (items : List Signed) → b.batch ≡ some items → done b ≡ items ∷ []
unfolding done
done_last b items h = rw h refl

-- The batches given out on the way hold the signatures in order, and all of them but the last ones,
-- which `Done` gives out.
pub add_all-done :
    (items : List Signed) (min_batch_size cores count : ℕ) (b : Ed25519Batch)
    → get_batch_verifier min_batch_size cores count ≡ ok b
    → length items ≤ count
    → (concat (add_all items [] b).0 ++ pending (add_all items [] b).1 ≡ items)
      × ((pending (add_all items [] b).1 ≡ [])
          ⊎ (done (add_all items [] b).1 ≡ pending (add_all items [] b).1 ∷ []))
unfolding get_batch_verifier
add_all-done items min_batch_size cores count b h fits = elim (Bool-cases (cores == 0)) [
  | inl p ↦ cc (rw p at h)
  | inr p ↦
      let fresh : _ ≡ b = ok-injective (rw p at h) in
      let start : Collected [] [] b =
        rw (← fresh)
          (record { all = refl; counted = refl; clean = λ small. refl; held = inl refl }) in
      let room : count ≡ b.total = rw (← fresh) refl in
      let end = add_all-Collected items [] [] b (omega (arith, room)) start in
      (
        end.all,
        elim (end.held) [
          | inl nothing ↦ inl nothing
          | inr last ↦ inr (done_last (add_all items [] b).1 _ last)
        ],
      )
]
