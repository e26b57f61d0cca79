-- ===== src/Cmd/Tests.antt =====
-- A wait that skips the result of another transaction.
use nodekit_seq.Prelude.{◌≢◌, ◌↔◌, refl, true, false, none, List, [], ◌∷◌, In}
use nodekit_seq.Outcome.{ok}
use nodekit_seq.Cmd.{Heard, send_and_wait}
use nodekit_seq.Cmd.Waiting.{EndsWait, send_and_wait-Ends}

abbrev arrived : List Heard
arrived =
    (record { tx_id = 1 ∷ []; d_err = none; success = false; listen_err = none })
    ∷ (record { tx_id = 2 ∷ []; d_err = none; success = true; listen_err = none })
    ∷ []

send_and_wait-Ends_example :
    (send_and_wait (ok tt) (λ u. ok (2 ∷ [])) (λ id. ok tt) arrived ≢ none)
    ↔ ((m : Heard) × In m arrived × EndsWait (2 ∷ []) m)
send_and_wait-Ends_example =
    send_and_wait-Ends (ok tt) (λ u. ok (2 ∷ [])) (λ id. ok tt) tt (2 ∷ []) arrived refl refl refl
