-- ===== src/Auth/Tests.antt =====
-- Three signatures in batches of two.
use nodekit_seq.Prelude.{ℕ, ◌≡◌, refl, ◌⊎◌, none, List, [], ◌∷◌, ◌++◌, arith}
use nodekit_seq.Auth.{Signed, Ed25519Batch, get_batch_verifier, add, done}
use nodekit_seq.Auth.Batches.{concat, add_all, pending, add_all-done}

abbrev signed : ℕ → Signed
signed n = record { msg = n ∷ []; signer = []; signature = [] }

abbrev three : List Signed
three = signed 1 ∷ signed 2 ∷ signed 3 ∷ []

abbrev fresh : Ed25519Batch
fresh = record { batch_size = 2; total = 3; counter = 0; total_counter = 0; batch = none }

two_batches : (add_all three [] fresh).0 ≡ (signed 1 ∷ signed 2 ∷ []) ∷ []
unfolding add_all add
two_batches = refl

add_all-done_example :
    (concat (add_all three [] fresh).0 ++ pending (add_all three [] fresh).1 ≡ three)
    × ((pending (add_all three [] fresh).1 ≡ [])
        ⊎ (done (add_all three [] fresh).1 ≡ pending (add_all three [] fresh).1 ∷ []))
unfolding get_batch_verifier
add_all-done_example = add_all-done three 2 4 3 fresh refl (omega arith)
