-- ===== src/Storage/Exits.antt =====
-- storage/epoch_exit.go: the exits of an epoch, as one list at the epoch's key.
pub mod ReadBack
use nodekit_seq.Prelude.{ℕ, ◌+◌, Bool, Option, none, some, List, [], ◌∷◌, Bytes, if◌then◌else◌}
use nodekit_seq.Outcome.{
  Error, is_not_found, Outcome, ok, err, map_ok, then_outcome, Action, lift, modify, ◌>>=◌,
}
use nodekit_seq.Vm.{Vm, EpochInfo}
use nodekit_seq.Storage.ReadState.{ReadState, first}

module _ {S : Type 0} (vm : Vm S) where
  open vm use {
    get_value, insert, epoch_exits_key, epoch_info_size, marshal_epoch_exits, unmarshal_epoch_exits,
  }

  -- `none` is the nil pointer, which comes with a false flag.
  unfoldable pub inner_get_epoch_exits : Bytes → Option Error → Outcome (Option (List EpochInfo))
  inner_get_epoch_exits v (some e) = if is_not_found e then ok none else err e
  inner_get_epoch_exits v none = map_ok some (unmarshal_epoch_exits v)

  unfoldable pub get_epoch_exits : ℕ → S → Outcome (Option (List EpochInfo))
  unfolding inner_get_epoch_exits
  get_epoch_exits epoch s =
      let (v, e) = get_value (epoch_exits_key epoch) s in inner_get_epoch_exits v e

  pub get_epoch_exits_from_state : ReadState → ℕ → Outcome (Option (List EpochInfo))
  unfolding inner_get_epoch_exits
  get_epoch_exits_from_state f epoch =
      then_outcome (first (f (epoch_exits_key epoch ∷ [])))
        λ entry. inner_get_epoch_exits entry.0 entry.1

  -- The size hint of the writer: the sizes of the exits.
  pub exits_size : List EpochInfo → ℕ
  exits_size [] = 0
  exits_size (e ∷ exits) = epoch_info_size e + exits_size exits

  unfoldable pub set_epoch_exits : ℕ → List EpochInfo → Action S (Unit {0})
  unfolding exits_size
  set_epoch_exits epoch exits = do
    info_bytes ← lift (marshal_epoch_exits (exits_size exits) exits)
    modify (insert (epoch_exits_key epoch) info_bytes)
