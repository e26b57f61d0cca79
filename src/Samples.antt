-- ===== src/Samples.antt =====
-- Concrete accounts, states and rules, at which the theorems are applied.
use mathlib.Core.List.{tail-eq_of_cons-eq}
use nodekit_seq.Prelude.{
  Bytes, bytes_eq, length, take, ◌==◌, if◌then◌else◌, some, [], ◌∷◌, put_be, replicate, arith, not,
  ◌&&◌, ◌||◌, leb, ltb,
}
use nodekit_seq.Prelude.Int.{pos}
use nodekit_seq.Vm.{Address, RollupInfo}
use nodekit_seq.Outcome.{ok, err, external}
use nodekit_seq.Actions.EpochExit.{EpochExit}
use nodekit_seq.Actions.Auction.{Bls}
use nodekit_seq.RollupRegistry.{Lifecycle}
use nodekit_seq.Genesis.{Rules, default_genesis}
use nodekit_seq.Actions.RollupRegistration.{RollupRegistration}
use nodekit_seq.Vm.Example.{Store, example_vm}
use nodekit_seq.Storage.KeyLaws.{KeyLaws}
use nodekit_seq.Storage.Keys.{balance_key}

abbrev pub alice : Address
alice = replicate 33 1

abbrev pub bob : Address
bob = replicate 33 2

abbrev pub carol : Address
carol = replicate 33 3

-- Alice holds 100 and Bob 7; Carol has no account.
abbrev pub start : Store
start = (balance_key alice, some (put_be 8 100)) ∷ (balance_key bob, some (put_be 8 7)) ∷ []

pub example-KeyLaws : KeyLaws example_vm
unfolding balance_key
example-KeyLaws = record {
  info_injective = λ m n p. tail-eq_of_cons-eq p;
  exits_injective = λ m n p. ground arith;
  bid_injective = λ m n p. ground arith;
  info_ne_registry = λ n p. ground arith;
  info_ne_exits = λ n e p. ground arith;
  registry_ne_exits = λ e p. ground arith;
  info_ne_bid = λ n e p. ground arith;
  registry_ne_bid = λ e p. ground arith;
  exits_ne_bid = λ d e p. ground arith;
  info_ne_balance = λ n a p. ground arith;
  registry_ne_balance = λ a p. ground arith;
  exits_ne_balance = λ e a p. ground arith;
  bid_ne_balance = λ e a p. ground arith;
}

-- Carol is whitelisted.
abbrev pub rules : Rules
rules = record {
  g = default_genesis;
  network_id = 1;
  chain_id = [];
  parsed_white_listed_address = carol ∷ [];
}

abbrev pub rollup_name : Bytes
rollup_name = 7 ∷ 8 ∷ []

-- A rollup of Alice's, from epoch 3 on.
abbrev pub rollup : RollupInfo
rollup = record {
  namespace = rollup_name;
  fee_recipient = bob;
  authority_seq_address = alice;
  sequencer_public_key = 9 ∷ [];
  start_epoch = 3;
  exit_epoch = 0;
}

abbrev pub registration : RollupRegistration
registration = record { info = rollup; namespace = rollup_name; op_code = pos 0 }

abbrev pub announce : EpochExit
announce = record {
  info = record { namespace = rollup_name; epoch = 5 };
  epoch = 5;
  op_code = pos 0;
}

-- A key is any 48 bytes, and a signature 96 bytes that begin as what is signed does.
abbrev pub example_bls : Bls
example_bls = record {
  PublicKey = Bytes;
  Signature = Bytes;
  public_key_from_bytes = λ b. if length b == 48 then ok b else err (external 5);
  signature_from_bytes = λ b. if length b == 96 then ok b else err (external 6);
  verify = λ digest key sig. bytes_eq (take 16 sig) (take 16 digest);
  create_address = λ n id. n ∷ id;
  to_id = take 32;
  sum256 = take 32;
}

-- A rollup is valid from its start, and until its exit if it has one.
abbrev pub example_life : Lifecycle
example_life = record {
  id = λ r. r.namespace;
  valid_at_epoch =
      λ r epoch. leb r.start_epoch epoch && (r.exit_epoch == 0 || ltb epoch r.exit_epoch);
  exited = λ r epoch. not (r.exit_epoch == 0) && leb r.exit_epoch epoch;
}
