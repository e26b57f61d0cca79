-- ===== src/Registry.antt =====
-- registry/registry.go, and the codec of an action that it stands for: the parsers of hypersdk in
-- which each action and each authentication is registered under its type ID (actions/consts.go,
-- auth/consts.go).
pub mod Codec
mod Distinct
mod Tests
use nodekit_seq.Prelude.{ℕ, Option, none, some, List, [], ◌∷◌, map}
use nodekit_seq.Outcome.{Error, Outcome, ok, panic, map_ok}
use nodekit_seq.Actions.Transfer.{Transfer}
use nodekit_seq.Actions.SequencerMsg.{SequencerMsg}
use nodekit_seq.Actions.RollupRegistration.{RollupRegistration}
use nodekit_seq.Actions.EpochExit.{EpochExit}
use nodekit_seq.Actions.Auction.{Auction, bls_id}
use nodekit_seq.Actions.Wire.{
  Packer, marshal_transfer, unmarshal_transfer, marshal_msg, unmarshal_msg, marshal_auction,
  unmarshal_auction, marshal_epoch_exit, unmarshal_epoch_exit, marshal_rollup_register,
  unmarshal_rollup_register,
}
use nodekit_seq.Auth.Ed25519.{ed25519_id}

-- `codec.TypeParser`, with the unmarshal functions `F`.
pub record TypeParser (F R : Type 0) : Type 0 where
  pub new_type_parser : R
  pub register : ℕ → F → R → Option Error × R
  pub lookup : ℕ → R → Option F

-- A value of `chain.Action` of this repository.
pub data ChainAction : Type 0 where
  transfer : Transfer → ChainAction
  sequencer_msg : SequencerMsg → ChainAction
  rollup_registration : RollupRegistration → ChainAction
  epoch_exit : EpochExit → ChainAction
  auction : Auction → ChainAction

-- The type IDs that hypersdk's actions package has.
pub record HypersdkIds : Type 0 where
  pub rollup_register_id : ℕ
  pub epoch_exit_id : ℕ

abbrev pub transfer_id : ℕ
transfer_id = 0

abbrev pub msg_id : ℕ
msg_id = 1

abbrev pub auction_id : ℕ
auction_id = 2

-- `GetTypeID` of each action.
abbrev pub get_type_id : HypersdkIds → ChainAction → ℕ
get_type_id ids (transfer t) = transfer_id
get_type_id ids (sequencer_msg m) = msg_id
get_type_id ids (rollup_registration r) = ids.rollup_register_id
get_type_id ids (epoch_exit e) = ids.epoch_exit_id
get_type_id ids (auction a) = auction_id

abbrev pub ActionDecoder : Type 0 → Type 0
ActionDecoder P = P → Outcome ChainAction × P

-- A pointer to an action as a value of the interface.
abbrev pub as_action : {P A : Type 0} → (A → ChainAction) → (P → Outcome A × P) → ActionDecoder P
as_action f unmarshal p = let (a, p') = unmarshal p in (map_ok f a, p')

module _ {P : Type 0} (packer : Packer P) where
  -- `Marshal` of each action.
  abbrev pub marshal_action : ChainAction → P → P
  marshal_action (transfer t) p = marshal_transfer packer t p
  marshal_action (sequencer_msg m) p = marshal_msg packer m p
  marshal_action (rollup_registration r) p = marshal_rollup_register packer r p
  marshal_action (epoch_exit e) p = marshal_epoch_exit packer e p
  marshal_action (auction a) p = marshal_auction packer a p

  -- The registrations, in the order of the source.
  abbrev pub action_entries : HypersdkIds → List (ℕ × ActionDecoder P)
  action_entries ids =
      (transfer_id, as_action transfer (unmarshal_transfer packer))
      ∷ (msg_id, as_action sequencer_msg (unmarshal_msg packer))
      ∷ (ids.rollup_register_id, as_action rollup_registration (unmarshal_rollup_register packer))
      ∷ (ids.epoch_exit_id, as_action epoch_exit (unmarshal_epoch_exit packer))
      ∷ (auction_id, as_action auction (unmarshal_auction packer))
      ∷ []

-- `GetTypeID` of the two authentications.
abbrev pub auth_entries : {A : Type 0} → A → A → List (ℕ × A)
auth_entries unmarshal_ed25519 unmarshal_bls =
    (ed25519_id, unmarshal_ed25519) ∷ (bls_id, unmarshal_bls) ∷ []

-- `errs.Add`: the first error is kept.
abbrev pub first_error : Option Error → Option Error → Option Error
first_error (some e) e' = some e
first_error none e' = e'

-- Every registration runs, whatever the ones before it gave.
unfoldable pub register_all : {F R : Type 0} → TypeParser F R → List (ℕ × F) → R → Option Error × R
register_all parser [] r = (none, r)
register_all parser ((id, f) ∷ entries) r =
    let (e, r') = parser.register id f r in
    let (e', r'') = register_all parser entries r' in (first_error e e', r'')

-- `if errs.Errored() { panic(errs.Err) }`.
abbrev pub checked : {A : Type 0} → Option Error → A → Outcome A
checked none a = ok a
checked (some e) a = panic

-- `init`, which fills `consts.ActionRegistry` and `consts.AuthRegistry`.
unfoldable pub init_registry :
    {F G R Q : Type 0}
    → TypeParser F R
    → TypeParser G Q
    → List (ℕ × F)
    → List (ℕ × G)
    → Outcome (R × Q)
init_registry actions auths action_list auth_list =
    let (e, r) = register_all actions action_list actions.new_type_parser in
    let (e', q) = register_all auths auth_list auths.new_type_parser in
    checked (first_error e e') (r, q)
