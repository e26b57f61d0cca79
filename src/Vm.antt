-- ===== src/Vm.antt =====
-- What the modelled code takes from outside the repository, as one record of operations: the
-- state view of hypersdk (`state.Mutable`, `state.Immutable`), the keys, encoders and constants of
-- hypersdk/actions and hypersdk/consts, and the checked arithmetic of avalanchego/utils/math.
-- What the code relies on of them is stated by the law records at the end.
pub mod Arithmetic
pub mod Example
use nodekit_seq.Prelude.{
  ℕ, ◌+◌, ◌-◌, ◌^◌, ◌≤◌, ◌<◌, ◌≡◌, Option, none, some, List, [], Bytes, bytes_eq, if◌then◌else◌,
}
use nodekit_seq.Outcome.{Error, not_found, Outcome, ok, err}
use nodekit_seq.Outcome.Chains.{Returns}

-- `codec.Address`: 33 bytes.
abbrev pub Address : Type 0
Address = Bytes

-- `hactions.RollupInfo`, by the fields that the repository sets and reads.
pub record RollupInfo : Type 0 where
  pub namespace : Bytes
  pub fee_recipient : Address
  pub authority_seq_address : Address
  pub sequencer_public_key : Bytes
  pub start_epoch : ℕ
  pub exit_epoch : ℕ

-- `hactions.EpochInfo`; an `hactions.EpochExitInfo` is the list of its `Exits`.
pub record EpochInfo : Type 0 where
  pub namespace : Bytes
  pub epoch : ℕ

pub record Vm (S : Type 0) : Type 0 where
  -- `GetValue`, `Insert` and `Remove` of a state view.
  pub get_value : Bytes → S → Bytes × Option Error
  pub insert : Bytes → Bytes → S → Outcome S
  pub remove : Bytes → S → Outcome S
  -- hypersdk/actions: keys.
  pub arcadia_bid_key : ℕ → Bytes
  pub epoch_exits_key : ℕ → Bytes
  pub rollup_info_key : Bytes → Bytes
  pub rollup_registry_key : Bytes
  -- hypersdk/actions and hypersdk/codec: `Marshal` into a writer of a size hint, and `Unmarshal`.
  pub rollup_info_size : RollupInfo → ℕ
  pub marshal_rollup_info : ℕ → RollupInfo → Outcome Bytes
  pub unmarshal_rollup_info : Bytes → Outcome RollupInfo
  pub epoch_info_size : EpochInfo → ℕ
  pub marshal_epoch_exits : ℕ → List EpochInfo → Outcome Bytes
  pub unmarshal_epoch_exits : Bytes → Outcome (List EpochInfo)
  pub pack_namespaces : List Bytes → Outcome Bytes
  pub unpack_namespaces : Bytes → Outcome (List Bytes)
  pub max_namespace_len : ℕ
  -- avalanchego/utils/math.
  pub add64 : ℕ → ℕ → Outcome ℕ
  pub sub : ℕ → ℕ → Outcome ℕ

module _ {S : Type 0} (vm : Vm S) where
  open vm use {
    get_value, insert, remove, marshal_rollup_info, unmarshal_rollup_info, marshal_epoch_exits,
    unmarshal_epoch_exits, pack_namespaces, unpack_namespaces, add64, sub,
  }

  -- A view is a map: a write is read back at its key and leaves every other key alone.
  pub record StateLaws : Type 0 where
    pub get_value-insert :
        (k v j : Bytes) (s : S) {s' : S}
        → insert k v s ≡ ok s'
        → get_value j s' ≡ (if bytes_eq k j then (v, none) else get_value j s)
    pub get_value-remove :
        (k j : Bytes) (s : S) {s' : S}
        → remove k s ≡ ok s'
        → get_value j s' ≡ (if bytes_eq k j then ([], some not_found) else get_value j s)

  -- The view refuses no write.
  pub record AcceptsWrites : Type 0 where
    pub inserts : (k v : Bytes) (s : S) → (s' : S) × (insert k v s ≡ ok s')
    pub removes : (k : Bytes) (s : S) → (s' : S) × (remove k s ≡ ok s')

  -- What was encoded is decoded.
  pub record CodecLaws : Type 0 where
    pub unmarshal-marshal_rollup_info :
        (n : ℕ) (i : RollupInfo) {v : Bytes}
        → marshal_rollup_info n i ≡ ok v
        → unmarshal_rollup_info v ≡ ok i
    pub unmarshal-marshal_epoch_exits :
        (n : ℕ) (es : List EpochInfo) {v : Bytes}
        → marshal_epoch_exits n es ≡ ok v
        → unmarshal_epoch_exits v ≡ ok es
    pub unpack-pack_namespaces :
        (ns : List Bytes) {v : Bytes} → pack_namespaces ns ≡ ok v → unpack_namespaces v ≡ ok ns

  -- Checked arithmetic on 64-bit words.
  pub record MathLaws : Type 0 where
    pub add64_fits : (a b : ℕ) → a + b < 2 ^ 64 → add64 a b ≡ ok (a + b)
    pub add64_overflow : (a b : ℕ) → 2 ^ 64 ≤ a + b → (e : Error) × (add64 a b ≡ err e)
    pub sub_fits : (a b : ℕ) → b ≤ a → sub a b ≡ ok (a - b)
    pub sub_underflow : (a b : ℕ) → a < b → (e : Error) × (sub a b ≡ err e)

  -- No call panics by itself.
  pub record NoPanics : Type 0 where
    pub insert_returns : (k v : Bytes) (s : S) → Returns (insert k v s)
    pub marshal_rollup_info_returns : (n : ℕ) (i : RollupInfo) → Returns (marshal_rollup_info n i)
    pub unmarshal_rollup_info_returns : (v : Bytes) → Returns (unmarshal_rollup_info v)
    pub marshal_epoch_exits_returns :
        (n : ℕ) (es : List EpochInfo) → Returns (marshal_epoch_exits n es)
    pub unmarshal_epoch_exits_returns : (v : Bytes) → Returns (unmarshal_epoch_exits v)
    pub pack_namespaces_returns : (ns : List Bytes) → Returns (pack_namespaces ns)
    pub unpack_namespaces_returns : (v : Bytes) → Returns (unpack_namespaces v)
