-- ===== src/Actions/Utils/Authority.antt =====
-- What a check of authority tells.
use nodekit_seq.Prelude.{
  ◌≡◌, refl, Bool-cases, inl, inr, Option, none, some, bytes_eq, bytes_eq→eq, arith,
}
use nodekit_seq.Outcome.{ok, then_outcome, not_authorized}
use nodekit_seq.Outcome.Chains.{Returns, ok-Returns, err-Returns}
use nodekit_seq.Vm.{Address, RollupInfo}
use nodekit_seq.Actions.Utils.{deref, check_authority}

-- A check of authority that passes has found a record, and the actor in it.
pub authority_of :
    (o : Option RollupInfo) (actor : Address)
    → then_outcome (deref o) (check_authority actor) ≡ ok tt
    → (info : RollupInfo) × (o ≡ some info) × (info.authority_seq_address ≡ actor)
authority_of none actor h = ground arith
authority_of (some info) actor h = elim (Bool-cases (bytes_eq info.authority_seq_address actor)) [
  | inl same ↦ (info, refl, bytes_eq→eq info.authority_seq_address actor same)
  | inr other ↦ cc (rw other at h)
]

pub check_authority-Returns :
    (actor : Address) (info : RollupInfo) → Returns (check_authority actor info)
check_authority-Returns actor info = elim (Bool-cases (bytes_eq info.authority_seq_address actor)) [
  | inl p ↦ rw p (ok-Returns tt)
  | inr p ↦ rw p (err-Returns not_authorized)
]
