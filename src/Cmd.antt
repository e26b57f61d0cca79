-- ===== src/Cmd.antt =====
-- cmd/seq-cli/cmd/resolutions.go, `sendAndWait`: a transaction is registered, and its result waited
-- for. What is printed is left out.
pub mod Waiting
mod Tests
use nodekit_seq.Prelude.{Bool, Option, none, some, List, [], ◌∷◌, Bytes, bytes_eq, if◌then◌else◌}
use nodekit_seq.Outcome.{Error, Outcome, ok, err, panic}

-- What one call of `ListenTx` of hypersdk's client returns: the ID of a transaction with an error of
-- it or its success, or an error of the call.
pub record Heard : Type 0 where
  pub tx_id : Bytes
  pub d_err : Option Error
  pub success : Bool
  pub listen_err : Option Error

-- The two tests of an error, and the rest of the round.
abbrev pub round : Option Error → Option Error → Option (Outcome Bool) → Option (Outcome Bool)
round (some e) e' rest = some (err e)
round none (some e) rest = some (err e)
round none none rest = rest

-- The loop over the messages that arrive; `none` is a loop that still listens.
unfoldable pub listen : Bytes → List Heard → Option (Outcome Bool)
listen id [] = none
listen id (m ∷ ms) =
    let rest = listen id ms in
    round m.d_err m.listen_err (if bytes_eq m.tx_id id then some (ok m.success) else rest)

abbrev pub with_id : Bytes → Option (Outcome Bool) → Option (Outcome Bytes)
with_id id none = none
with_id id (some (ok success)) = some (ok id)
with_id id (some (err e)) = some (err e)
with_id id (some panic) = some panic

-- The parser that is fetched, the ID of the transaction that is made, and its registration.
module _ {R : Type 0} (parser : Outcome R) (generate_transaction : R → Outcome Bytes)
    (register_tx : Bytes → Outcome (Unit {0})) where
  abbrev pub registered : Bytes → Outcome (Unit {0}) → List Heard → Option (Outcome Bytes)
  registered id (ok u) heard = with_id id (listen id heard)
  registered id (err e) heard = some (err e)
  registered id panic heard = some panic

  abbrev pub generated : Outcome Bytes → List Heard → Option (Outcome Bytes)
  generated (ok id) heard = registered id (register_tx id) heard
  generated (err e) heard = some (err e)
  generated panic heard = some panic

  abbrev pub parsed : Outcome R → List Heard → Option (Outcome Bytes)
  parsed (ok r) heard = generated (generate_transaction r) heard
  parsed (err e) heard = some (err e)
  parsed panic heard = some panic

  unfoldable pub send_and_wait : List Heard → Option (Outcome Bytes)
  send_and_wait heard = parsed parser heard
