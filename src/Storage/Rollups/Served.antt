-- ===== src/Storage/Rollups/Served.antt =====
-- The readers over a batch read that answers as the view does.
use nodekit_seq.Prelude.{◌≡◌, refl, Bytes}
use nodekit_seq.Vm.{Vm}
use nodekit_seq.Storage.ReadState.{ReadState}
use nodekit_seq.Storage.View.{Serves}
use nodekit_seq.Storage.Rollups.{
  get_rollup_info, get_rollup_info_from_state, get_rollup_registry, get_rollup_registry_from_state,
}

module _ {S : Type 0} (vm : Vm S) (f : ReadState) (s : S) (served : Serves vm f s) where
  pub rollup_info_served : (n : Bytes) → get_rollup_info_from_state vm f n ≡ get_rollup_info vm n s
  unfolding get_rollup_info_from_state get_rollup_info
  rollup_info_served n = rw (served (vm.rollup_info_key n)) refl

  pub rollup_registry_served : get_rollup_registry_from_state vm f ≡ get_rollup_registry vm s
  unfolding get_rollup_registry_from_state get_rollup_registry
  rollup_registry_served = rw (served vm.rollup_registry_key) refl
