-- ===== src/Outcome.antt =====
-- How a Go call ends: a value, an error value, or a run-time panic; and calls on the chain state.
-- Errors are those of actions/errors.go and storage/errors.go, and one constructor for each
-- `fmt.Errorf` of the modelled code; `wrapped` is its `%w`.
pub mod Chains
use nodekit_seq.Prelude.{ℕ, ◌≡◌, refl, Bool, true, false, Option, none, some, ◌⊎◌, inl, inr, arith}

-- Where an error is wrapped.
pub data Context : Type 0 where
  could_not_add_balance could_not_subtract_balance : Context
  unable_to_get_namespaces authorization_failed authorization_failed_update : Context
  unable_to_set_info_create unable_to_set_info_update unable_to_set_info_exit : Context
  unable_to_get_existing_info : Context
  failed_to_parse_public_key failed_to_parse_signature : Context
  genesis_allocation : Context
  failed_to_sign_transaction failed_to_unmarshal unable_to_read_genesis : Context

pub data Error : Type 0 where
  -- `database.ErrNotFound` of avalanchego.
  not_found : Error
  -- Any other error that comes from code outside the repository.
  external : ℕ → Error
  invalid_balance : Error
  output_value_zero output_memo_too_large : Error
  not_white_listed invalid_bidder_signature parsed_builder_seq_address_mismatch : Error
  namespace_not_registered not_authorized : Error
  -- The `fmt.Errorf` of each action, in the order of the source.
  bid_epoch_not_valid : Error
  epoch_mismatch exit_namespace_not_registered exit_already_exists exit_not_found : Error
  exit_op_code_not_supported : Error
  namespace_mismatch namespace_too_long create_epoch_not_valid exit_epoch_not_zero : Error
  exit_epoch_not_valid rollup_op_code_not_supported : Error
  -- types/types.go and types/commit.go.
  integer_out_of_range : Error
  height_required timestamp_required l1_head_required transactions_root_required : Error
  root_required : Error
  -- archiver/orm_archiver.go.
  id_not_specified first_height_too_small blocks_not_consecutive : Error
  blocks_not_consecutive_between : ℕ → ℕ → Error
  -- rpc/errors.go and rpc/jsonrpc_server.go.
  tx_not_found block_id_not_provided no_such_rollup : Error
  wrapped : Context → Error → Error

-- `errors.Is(err, database.ErrNotFound)`.
abbrev pub is_not_found : Error → Bool
is_not_found not_found = true
is_not_found (wrapped c e) = is_not_found e
is_not_found e = false

-- `err == database.ErrNotFound`, which does not unwrap.
abbrev pub equals_not_found : Error → Bool
equals_not_found not_found = true
equals_not_found e = false

pub data Outcome {ℓ} (A : Type ℓ) : Type ℓ where
  ok : A → Outcome A
  err : Error → Outcome A
  panic : Outcome A

-- A Go pair (value, error) as an outcome.
abbrev pub from_pair {ℓ} : {A : Type ℓ} → A → Option Error → Outcome A
from_pair a none = ok a
from_pair a (some e) = err e

abbrev pub map_ok {ℓ κ} : {A : Type ℓ} {B : Type κ} → (A → B) → Outcome A → Outcome B
map_ok f (ok a) = ok (f a)
map_ok f (err e) = err e
map_ok f panic = panic

-- Chaining outcomes that read no state.
abbrev pub then_outcome {ℓ κ} : {A : Type ℓ} {B : Type κ} → Outcome A → (A → Outcome B) → Outcome B
then_outcome (ok a) f = f a
then_outcome (err e) f = err e
then_outcome panic f = panic

-- An error branch that answers with an error of its own.
abbrev pub replace_error {ℓ} : {A : Type ℓ} → Error → Outcome A → Outcome A
replace_error e (ok a) = ok a
replace_error e (err e') = err e
replace_error e panic = panic

-- `fmt.Errorf("…: %w", err)`.
abbrev pub wrap {ℓ} : {A : Type ℓ} → Context → Outcome A → Outcome A
wrap c (ok a) = ok a
wrap c (err e) = err (wrapped c e)
wrap c panic = panic

-- A call on a state. What was written before an error or a panic stays written.
abbrev pub Action : Type 0 → Type 0 → Type 0
Action S A = S → Outcome A × S

module _ {S A : Type 0} where
  abbrev pub pure : A → Action S A
  pure a s = (ok a, s)

  abbrev pub raise : Error → Action S A
  raise e s = (err e, s)

  abbrev pub lift : Outcome A → Action S A
  lift o s = (o, s)

  abbrev pub gets : (S → Outcome A) → Action S A
  gets f s = (f s, s)

  -- The context of every error of a call.
  abbrev pub wrap_errors : Context → Action S A → Action S A
  wrap_errors c m s = let (r, s') = m s in (wrap c r, s')

-- A write to the state; a refused one leaves the state alone.
abbrev pub written : {S : Type 0} → S → Outcome S → Outcome (Unit {0}) × S
written s (ok s') = (ok tt, s')
written s (err e) = (err e, s)
written s panic = (panic, s)

abbrev pub modify : {S : Type 0} → (S → Outcome S) → Action S (Unit {0})
modify f s = written s (f s)

abbrev pub and_then : {S A B : Type 0} → (A → Action S B) → Outcome A × S → Outcome B × S
and_then f (ok a, s) = f a s
and_then f (err e, s) = (err e, s)
and_then f (panic, s) = (panic, s)

infixl 5 ◌>>=◌ ◌>>◌
abbrev pub ◌>>=◌ : {S A B : Type 0} → Action S A → (A → Action S B) → Action S B
◌>>=◌ m f s = and_then f (m s)

abbrev pub ◌>>◌ : {S B : Type 0} → Action S (Unit {0}) → Action S B → Action S B
◌>>◌ m k s = and_then (λ _. k) (m s)

abbrev pub raise_if : {S : Type 0} → Bool → Error → Action S (Unit {0})
raise_if true e s = (err e, s)
raise_if false e s = (ok tt, s)

pub ok-injective {ℓ} : {A : Type ℓ} {a b : A} → ok a ≡ ok b → a ≡ b
ok-injective e = cc

pub Outcome-cases {ℓ} :
    {A : Type ℓ} (o : Outcome A)
    → ((a : A) × (o ≡ ok a)) ⊎ (((e : Error) × (o ≡ err e)) ⊎ (o ≡ panic))
Outcome-cases (ok a) = inl (a, refl)
Outcome-cases (err e) = inr (inl (e, refl))
Outcome-cases panic = inr (inr refl)

-- Inversion of a chain that returned a value.
pub and_then-ok :
    {S A B : Type 0} (f : A → Action S B) (m : Outcome A × S) {b : B} {s' : S}
    → and_then f m ≡ (ok b, s')
    → (a : A) × (m ≡ (ok a, m.1)) × (f a m.1 ≡ (ok b, s'))
and_then-ok f (ok a, s) h = (a, refl, h)
and_then-ok f (err e, s) h = ground arith
and_then-ok f (panic, s) h = ground arith
