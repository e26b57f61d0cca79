-- ===== src/Rpc/Submission.antt =====
-- Making, signing and submitting a transaction: `SubmitMsgTx` of rpc/jsonrpc_server.go and
-- `GenerateAndSubmitTx` of rpc/multi_jsonrpc_client.go.
use nodekit_seq.Prelude.{ℕ, Option, List, [], ◌∷◌, map, Bytes}
use nodekit_seq.Prelude.Int.{ℤ, pos}
use nodekit_seq.Outcome.{
  Error, failed_to_sign_transaction, Outcome, panic, from_pair, wrap, then_outcome, Action, lift,
  ◌>>=◌, ◌>>◌,
}
use nodekit_seq.Vm.{Address}
use nodekit_seq.Genesis.{Dimensions, Rules}
use nodekit_seq.Auth.Ed25519.{Crypto, new_ed25519_address}
use nodekit_seq.Controller.Acceptance.{TxAction, sequencer_msg}
use nodekit_seq.Rpc.{Controller, SubmitMsgTxArgs}
use nodekit_seq.Rpc.Server.{server_parser, parser_rules}
use nodekit_seq.Rpc.Fees.{MarketUnits, namespaces, msg_max_fee, estimated_fee}

-- `chain.Base`.
pub record Base : Type 0 where
  pub timestamp : ℤ
  pub chain_id : Bytes
  pub priority_fee : ℕ
  pub max_fee : ℕ

-- What the two functions call of hypersdk and avalanchego, for transactions of type `T`. A signer is
-- its private key; `now` is the second reading of the clock, the first one only picks the rules.
pub record TxKit (T : Type 0) : Type 0 where
  pub id_from_string : Bytes → Outcome Bytes
  -- `codec.LoadHex` of the key in the source, and `ed25519.GeneratePrivateKey`.
  pub test_key : Outcome Bytes
  pub generate_private_key : Outcome Bytes
  pub estimate_units : Rules → List TxAction → Bytes → Outcome (Dimensions × MarketUnits)
  pub mul_sum : Dimensions → Dimensions → Outcome ℕ
  pub now : ℤ
  pub unix_r_milli : ℤ → ℤ → ℤ
  pub sign : Base → List TxAction → Bytes → Outcome T
  pub digest : T → Outcome Bytes
  pub verify : T → Bytes → Outcome (Unit {0})
  pub tx_id : T → Bytes
  -- `Submit` of the controller, an error or nil for each transaction.
  pub submit : T → List (Option Error)
  -- `SubmitTx` of hypersdk's client.
  pub submit_tx : T → Outcome Bytes

module _ {P T : Type 0} (crypto : Crypto P) (kit : TxKit T) where
  open kit use {
    id_from_string, test_key, generate_private_key, estimate_units, mul_sum, now, unix_r_milli,
    sign, digest, verify, tx_id, submit, submit_tx,
  }

  abbrev pub msg_action : Address → Bytes → Bytes → TxAction
  msg_action sender chain_id payload =
      sequencer_msg (record {
        chain_id = chain_id;
        payload = payload;
        from_address = sender;
        relayer_id = pos 0;
      })

  abbrev pub first_error : List (Option Error) → Outcome (Unit {0})
  first_error [] = panic
  first_error (e ∷ es) = from_pair tt e

  -- `reply.TxID` is set although the submission may fail.
  abbrev pub submitted : T → Action Bytes (Unit {0})
  submitted tx reply = (first_error (submit tx), tx_id tx)

  pub submit_msg_tx : Controller → SubmitMsgTxArgs → Action Bytes (Unit {0})
  submit_msg_tx c args = lift (id_from_string args.chain_id) >>= λ chain_id.
      lift c.unit_prices >>= λ unit_prices. lift test_key >>= λ priv.
      lift generate_private_key >>= λ tpriv.
      let sender = new_ed25519_address crypto (crypto.public_key tpriv) in
      let acts = map (msg_action sender args.secondary_chain_id) args.payloads in
      let rules = parser_rules (server_parser c args.network_id chain_id) in
      lift (estimate_units rules acts priv) >>= λ (max_units, market).
      lift (
        msg_max_fee (mul_sum unit_prices max_units) market
          (c.name_spaces_price (namespaces market)))
      >>= λ max_fee.
          lift (
            wrap failed_to_sign_transaction (
              sign
                (record {
                  timestamp = unix_r_milli now rules.g.validity_window;
                  chain_id = chain_id;
                  priority_fee = 0;
                  max_fee = max_fee;
                })
                acts priv))
          >>= λ tx. lift (digest tx) >>= λ msg. lift (verify tx msg) >> submitted tx

  -- The rules are those of the client's parser, the prices those that hypersdk's client is told.
  pub generate_and_submit_tx :
      Outcome Rules
      → Bytes
      → Outcome Dimensions
      → (List Bytes → Outcome (List ℕ))
      → Bytes
      → List TxAction
      → ℕ
      → Outcome Bytes
  generate_and_submit_tx parser chain_id prices name_spaces_price auth_fac actions priority_fee =
      then_outcome parser λ rules. then_outcome prices λ unit_prices.
        then_outcome (estimate_units rules actions auth_fac) λ (units, market).
          then_outcome
            (estimated_fee (mul_sum unit_prices units) market
              (name_spaces_price (namespaces market)) priority_fee)
            λ fee.
              then_outcome
                (wrap failed_to_sign_transaction (
                  sign
                    (record {
                      timestamp = unix_r_milli now rules.g.validity_window;
                      chain_id = chain_id;
                      priority_fee = priority_fee;
                      max_fee = fee;
                    })
                    actions auth_fac))
                submit_tx
