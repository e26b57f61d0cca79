-- ===== src/Storage/KeyLaws.antt =====
-- The keys of hypersdk/actions name one thing each, and none of them is a balance key.
use nodekit_seq.Prelude.{ℕ, ◌≡◌, ◌≢◌, Bytes}
use nodekit_seq.Vm.{Vm, Address}
use nodekit_seq.Storage.Keys.{balance_key}

pub record KeyLaws {S : Type 0} (vm : Vm S) : Type 0 where
  pub info_injective : (m n : Bytes) → vm.rollup_info_key m ≡ vm.rollup_info_key n → m ≡ n
  pub exits_injective : (m n : ℕ) → vm.epoch_exits_key m ≡ vm.epoch_exits_key n → m ≡ n
  pub bid_injective : (m n : ℕ) → vm.arcadia_bid_key m ≡ vm.arcadia_bid_key n → m ≡ n
  pub info_ne_registry : (n : Bytes) → vm.rollup_info_key n ≢ vm.rollup_registry_key
  pub info_ne_exits : (n : Bytes) (e : ℕ) → vm.rollup_info_key n ≢ vm.epoch_exits_key e
  pub registry_ne_exits : (e : ℕ) → vm.rollup_registry_key ≢ vm.epoch_exits_key e
  pub info_ne_bid : (n : Bytes) (e : ℕ) → vm.rollup_info_key n ≢ vm.arcadia_bid_key e
  pub registry_ne_bid : (e : ℕ) → vm.rollup_registry_key ≢ vm.arcadia_bid_key e
  pub exits_ne_bid : (d e : ℕ) → vm.epoch_exits_key d ≢ vm.arcadia_bid_key e
  pub info_ne_balance : (n : Bytes) (a : Address) → vm.rollup_info_key n ≢ balance_key a
  pub registry_ne_balance : (a : Address) → vm.rollup_registry_key ≢ balance_key a
  pub exits_ne_balance : (e : ℕ) (a : Address) → vm.epoch_exits_key e ≢ balance_key a
  pub bid_ne_balance : (e : ℕ) (a : Address) → vm.arcadia_bid_key e ≢ balance_key a
