-- ===== src/Storage/Rollups.antt =====
-- storage/rollup_info.go and storage/rollup_registry.go: the record of each rollup, and the list
-- of the registered namespaces.
pub mod ReadBack
pub mod Served
use nodekit_seq.Prelude.{Bool, Option, none, some, List, [], ◌∷◌, Bytes, if◌then◌else◌}
use nodekit_seq.Outcome.{
  Error, is_not_found, Outcome, ok, err, map_ok, then_outcome, Action, lift, modify, ◌>>=◌,
}
use nodekit_seq.Vm.{Vm, RollupInfo}
use nodekit_seq.Storage.ReadState.{ReadState, first}

module _ {S : Type 0} (vm : Vm S) where
  open vm use {
    get_value, insert, remove, rollup_info_key, rollup_registry_key, rollup_info_size,
    marshal_rollup_info, unmarshal_rollup_info, pack_namespaces, unpack_namespaces,
  }

  -- `none` is the nil pointer of a namespace with no record.
  unfoldable pub inner_get_rollup_info : Bytes → Option Error → Outcome (Option RollupInfo)
  inner_get_rollup_info v (some e) = if is_not_found e then ok none else err e
  inner_get_rollup_info v none = map_ok some (unmarshal_rollup_info v)

  unfoldable pub get_rollup_info : Bytes → S → Outcome (Option RollupInfo)
  unfolding inner_get_rollup_info
  get_rollup_info namespace s =
      let (v, e) = get_value (rollup_info_key namespace) s in inner_get_rollup_info v e

  pub get_rollup_info_from_state : ReadState → Bytes → Outcome (Option RollupInfo)
  unfolding inner_get_rollup_info
  get_rollup_info_from_state f namespace =
      then_outcome (first (f (rollup_info_key namespace ∷ [])))
        λ entry. inner_get_rollup_info entry.0 entry.1

  unfoldable pub set_rollup_info : Bytes → RollupInfo → Action S (Unit {0})
  set_rollup_info namespace info = do
    info_bytes ← lift (marshal_rollup_info (rollup_info_size info) info)
    modify (insert (rollup_info_key namespace) info_bytes)

  pub del_rollup_info : Bytes → Action S (Unit {0})
  del_rollup_info namespace = modify (remove (rollup_info_key namespace))

  -- The nil list of a chain with no registry is the empty list.
  unfoldable pub inner_get_registry : Bytes → Option Error → Outcome (List Bytes)
  inner_get_registry v (some e) = if is_not_found e then ok [] else err e
  inner_get_registry v none = unpack_namespaces v

  unfoldable pub get_rollup_registry : S → Outcome (List Bytes)
  unfolding inner_get_registry
  get_rollup_registry s = let (v, e) = get_value rollup_registry_key s in inner_get_registry v e

  pub get_rollup_registry_from_state : ReadState → Outcome (List Bytes)
  unfolding inner_get_registry
  get_rollup_registry_from_state f =
      then_outcome (first (f (rollup_registry_key ∷ [])))
        λ entry. inner_get_registry entry.0 entry.1

  unfoldable pub set_rollup_registry : List Bytes → Action S (Unit {0})
  set_rollup_registry namespaces = do
    packed ← lift (pack_namespaces namespaces)
    modify (insert rollup_registry_key packed)
