-- ===== src/Storage/Returning.antt =====
-- The records of package storage are read and written without a panic.
use nodekit_seq.Prelude.{ℕ, Bool-cases, inl, inr, none, some, Option, List, Bytes}
use nodekit_seq.Outcome.{Error, is_not_found}
use nodekit_seq.Outcome.Chains.{
  Returns, ok-Returns, err-Returns, map_ok-Returns, and_then-Returns, written-Returns,
}
use nodekit_seq.Vm.{Vm, RollupInfo, EpochInfo, NoPanics}
use nodekit_seq.Storage.Rollups.{
  inner_get_rollup_info, get_rollup_info, set_rollup_info, inner_get_registry, get_rollup_registry,
  set_rollup_registry,
}
use nodekit_seq.Storage.Exits.{inner_get_epoch_exits, get_epoch_exits, exits_size, set_epoch_exits}

module _ {S : Type 0} (vm : Vm S) (safe : NoPanics vm) where
  inner_get_rollup_info-Returns :
      (v : Bytes) (o : Option Error) → Returns (inner_get_rollup_info vm v o)
  unfolding inner_get_rollup_info
  inner_get_rollup_info-Returns v (some e) = elim (Bool-cases (is_not_found e)) [
    | inl p ↦ rw p (ok-Returns none)
    | inr p ↦ rw p (err-Returns e)
  ]
  inner_get_rollup_info-Returns v none =
      map_ok-Returns some (vm.unmarshal_rollup_info v) (safe.unmarshal_rollup_info_returns v)

  pub get_rollup_info-Returns : (n : Bytes) (s : S) → Returns (get_rollup_info vm n s)
  unfolding get_rollup_info
  get_rollup_info-Returns n s =
      let (v, e) = vm.get_value (vm.rollup_info_key n) s in inner_get_rollup_info-Returns v e

  inner_get_registry-Returns : (v : Bytes) (o : Option Error) → Returns (inner_get_registry vm v o)
  unfolding inner_get_registry
  inner_get_registry-Returns v (some e) = elim (Bool-cases (is_not_found e)) [
    | inl p ↦ rw p (ok-Returns _)
    | inr p ↦ rw p (err-Returns e)
  ]
  inner_get_registry-Returns v none = safe.unpack_namespaces_returns v

  pub get_rollup_registry-Returns : (s : S) → Returns (get_rollup_registry vm s)
  unfolding get_rollup_registry
  get_rollup_registry-Returns s =
      let (v, e) = vm.get_value vm.rollup_registry_key s in inner_get_registry-Returns v e

  inner_get_epoch_exits-Returns :
      (v : Bytes) (o : Option Error) → Returns (inner_get_epoch_exits vm v o)
  unfolding inner_get_epoch_exits
  inner_get_epoch_exits-Returns v (some e) = elim (Bool-cases (is_not_found e)) [
    | inl p ↦ rw p (ok-Returns none)
    | inr p ↦ rw p (err-Returns e)
  ]
  inner_get_epoch_exits-Returns v none =
      map_ok-Returns some (vm.unmarshal_epoch_exits v) (safe.unmarshal_epoch_exits_returns v)

  pub get_epoch_exits-Returns : (d : ℕ) (s : S) → Returns (get_epoch_exits vm d s)
  unfolding get_epoch_exits
  get_epoch_exits-Returns d s =
      let (v, e) = vm.get_value (vm.epoch_exits_key d) s in inner_get_epoch_exits-Returns v e

  pub set_rollup_info-Returns :
      (n : Bytes) (i : RollupInfo) (s : S) → Returns (set_rollup_info vm n i s).0
  unfolding set_rollup_info
  set_rollup_info-Returns n i s =
      and_then-Returns _ (vm.marshal_rollup_info (vm.rollup_info_size i) i, s)
        (safe.marshal_rollup_info_returns (vm.rollup_info_size i) i)
        λ v _.
          written-Returns s (vm.insert (vm.rollup_info_key n) v s)
            (safe.insert_returns (vm.rollup_info_key n) v s)

  pub set_rollup_registry-Returns :
      (ns : List Bytes) (s : S) → Returns (set_rollup_registry vm ns s).0
  unfolding set_rollup_registry
  set_rollup_registry-Returns ns s =
      and_then-Returns _ (vm.pack_namespaces ns, s) (safe.pack_namespaces_returns ns)
        λ v _.
          written-Returns s (vm.insert vm.rollup_registry_key v s)
            (safe.insert_returns vm.rollup_registry_key v s)

  pub set_epoch_exits-Returns :
      (d : ℕ) (es : List EpochInfo) (s : S) → Returns (set_epoch_exits vm d es s).0
  unfolding set_epoch_exits
  set_epoch_exits-Returns d es s =
      and_then-Returns _ (vm.marshal_epoch_exits (exits_size vm es) es, s)
        (safe.marshal_epoch_exits_returns (exits_size vm es) es)
        λ v _.
          written-Returns s (vm.insert (vm.epoch_exits_key d) v s)
            (safe.insert_returns (vm.epoch_exits_key d) v s)
