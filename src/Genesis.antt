-- ===== src/Genesis.antt =====
-- genesis/genesis.go and genesis/rules.go: the genesis document, its defaults, the loading of the
-- allocations into the first state, and the rules that blocks and actions read.
pub mod Supply
pub mod Getters
mod Tests
use Prim.Native.String.{String}
use text.Mathlib.Text.{◌==◌ as str_eq}
use nodekit_seq.Prelude.{
  ℕ, ◌*◌, Bytes, ltb, length, Bool, true, false, Option, none, some, List, [], ◌∷◌, if◌then◌else◌,
}
use nodekit_seq.Prelude.Int.{ℤ, pos}
use nodekit_seq.Outcome.{
  Outcome, ok, err, Action, pure, lift, wrap, failed_to_unmarshal, wrap_errors, genesis_allocation,
  ◌>>=◌, ◌>>◌,
}
use nodekit_seq.Vm.{Vm, Address}
use nodekit_seq.Storage.Keys.{balance_chunks}
use nodekit_seq.Storage.Balance.{set_balance}

-- `fees.Dimensions`: five words.
abbrev pub Dimensions : Type 0
Dimensions = List ℕ

pub record CustomAllocation : Type 0 where
  pub address : String
  pub balance : ℕ

pub record Genesis : Type 0 where
  pub state_branch_factor : ℕ
  pub min_block_gap : ℤ
  pub min_empty_block_gap : ℤ
  pub epoch_length : ℤ
  pub min_unit_price : Dimensions
  pub unit_price_change_denominator : Dimensions
  pub window_target_units : Dimensions
  pub max_block_units : Dimensions
  pub fee_market_min_units : ℕ
  pub fee_market_window_target_units : ℕ
  pub fee_market_price_change_denominator : ℕ
  pub validity_window : ℤ
  pub max_actions_per_tx : ℕ
  pub max_outputs_per_action : ℕ
  pub base_compute_units : ℕ
  pub storage_key_read_units : ℕ
  pub storage_value_read_units : ℕ
  pub storage_key_allocate_units : ℕ
  pub storage_value_allocate_units : ℕ
  pub storage_key_write_units : ℕ
  pub storage_value_write_units : ℕ
  pub custom_allocation : List CustomAllocation

abbrev five : ℕ → ℕ → Dimensions
five a b = a ∷ b ∷ b ∷ b ∷ b ∷ []

-- `Default()`. `merkledb.BranchFactor16` is 16, and `MillisecondsPerSecond` 1000.
unfoldable pub default_genesis : Genesis
default_genesis = record {
  state_branch_factor = 16;
  min_block_gap = pos 1_000;
  min_empty_block_gap = pos 1_000;
  epoch_length = pos 6;
  min_unit_price = five 100 100;
  unit_price_change_denominator = five 48 48;
  window_target_units = five 20_000_000 1_000;
  max_block_units = five 1_800_000 2_000;
  fee_market_min_units = 100;
  fee_market_window_target_units = 600 * 1024;
  fee_market_price_change_denominator = 48;
  validity_window = pos (60 * 1000);
  max_actions_per_tx = 16;
  max_outputs_per_action = 1;
  base_compute_units = 1;
  storage_key_read_units = 5;
  storage_value_read_units = 2;
  storage_key_allocate_units = 20;
  storage_value_allocate_units = 5;
  storage_key_write_units = 10;
  storage_value_write_units = 3;
  custom_allocation = [];
}

-- `New`, over the decoder of JSON, which overlays a document on a genesis.
unfoldable pub new_genesis : (Bytes → Genesis → Outcome Genesis) → Bytes → Outcome Genesis
unfolding default_genesis
new_genesis json_unmarshal b =
    if ltb 0 (length b)
    then wrap failed_to_unmarshal (json_unmarshal b default_genesis)
    else ok default_genesis

-- The rules are the genesis and what the node knows: its network, chain and white list.
pub record Rules : Type 0 where
  pub g : Genesis
  pub network_id : ℕ
  pub chain_id : List ℕ
  pub parsed_white_listed_address : List Address

-- `FetchCustom`, whose flag is false on both branches.
abbrev pub fetch_custom : Rules → String → Option (List Address) × Bool
fetch_custom r s =
    if str_eq s "whitelisted.Addresses"
    then (some r.parsed_white_listed_address, false)
    else (none, false)

abbrev pub get_epoch_length : Rules → ℤ
get_epoch_length r = r.g.epoch_length

-- `codec.ParseAddressBech32` with the prefix of the chain, and `BranchFactor.Valid`.
pub record GenesisLibrary : Type 0 where
  pub parse_address : String → Outcome Address
  pub branch_factor_valid : ℕ → Outcome (Unit {0})

module _ {S : Type 0} (vm : Vm S) (lib : GenesisLibrary) where
  -- The loop of `Load`, by what is left of the allocations; `supply` is checked for overflow only.
  pub load_allocations : List CustomAllocation → ℕ → Action S (Unit {0})
  load_allocations [] supply = pure tt
  load_allocations (alloc ∷ rest) supply = do
    pk ← lift (lib.parse_address alloc.address)
    total ← lift (vm.add64 supply alloc.balance)
    wrap_errors genesis_allocation (set_balance vm pk alloc.balance)
    load_allocations rest total

  pub load : Genesis → Action S (Unit {0})
  unfolding load_allocations
  load g = do
    lift (lib.branch_factor_valid g.state_branch_factor)
    load_allocations g.custom_allocation 0
