-- ===== src/Auth.antt =====
-- auth/ed25519.go, `ED25519Batch`: collecting the signatures of a block into batches to verify.
-- The function that `VerifyAsync` gives is modelled by what the batch holds then: nothing is added to
-- a batch after that, as long as no more than `total` signatures are added.
pub mod Batches
pub mod Ed25519
pub mod Bls
mod Tests
use nodekit_seq.Prelude.{
  ℕ, ◌+◌, ◌/◌, Bool, true, false, Option, none, some, List, [], ◌∷◌, ◌++◌, Bytes, ltb, ◌==◌,
  if◌then◌else◌,
}
use nodekit_seq.Outcome.{Outcome, ok, panic}

-- A message, its signer and its signature.
pub record Signed : Type 0 where
  pub msg : Bytes
  pub signer : Bytes
  pub signature : Bytes

pub record Ed25519Batch : Type 0 where
  pub batch_size : ℕ
  pub total : ℕ
  pub counter : ℕ
  pub total_counter : ℕ
  pub batch : Option (List Signed)

abbrev larger : ℕ → ℕ → ℕ
larger a b = if ltb a b then b else a

-- `GetBatchVerifier`, with the smallest size of a batch, of hypersdk; no core is a division by zero.
unfoldable pub get_batch_verifier : ℕ → ℕ → ℕ → Outcome Ed25519Batch
get_batch_verifier min_batch_size cores count =
    if cores == 0
    then panic
    else ok (record {
      batch_size = larger (count / cores) min_batch_size;
      total = count;
      counter = 0;
      total_counter = 0;
      batch = none;
    })

-- What the batch holds, a new one where there is none.
abbrev pub content : Ed25519Batch → List Signed
content b = elim (b.batch) [ none ↦ [] | some items ↦ items ]

unfoldable pub add : Signed → Ed25519Batch → Option (List Signed) × Ed25519Batch
add item b =
    let filled = content b ++ (item ∷ []) in
    let b' : Ed25519Batch = record b {
      counter = b.counter + 1;
      total_counter = b.total_counter + 1;
      batch = some filled;
    } in
    if b.counter + 1 == b.batch_size
    then (
      some filled,
      record b' {
        counter = 0;
        batch = if ltb (b.total_counter + 1) b.total then some [] else some filled;
      },
    )
    else (none, b')

unfoldable pub done : Ed25519Batch → List (List Signed)
done b = elim (b.batch) [ none ↦ [] | some items ↦ items ∷ [] ]
