-- ===== src/Actions/Utils.antt =====
-- actions/utils.go: membership tests, the Arcadia fund, authorization and epochs.
pub mod Members
pub mod Authority
use nodekit_seq.Prelude.{
  ℕ, ◌+◌, ◌/◌, Bool, true, false, not, Option, none, some, List, [], ◌∷◌, ◌++◌, Bytes, bytes_eq,
  replicate, ◌==◌, if◌then◌else◌,
}
use nodekit_seq.Prelude.Int.{ℤ, negsuc, to_uint64}
use nodekit_seq.Outcome.{
  namespace_not_registered, not_authorized, Outcome, ok, err, panic, then_outcome,
}
use nodekit_seq.Vm.{Vm, Address, RollupInfo}
use nodekit_seq.Genesis.{Rules, fetch_custom}
use nodekit_seq.Storage.Rollups.{get_rollup_info}

unfoldable pub contains_address : List Address → Address → Bool
contains_address [] addr = false
contains_address (a ∷ addrs) addr = if bytes_eq a addr then true else contains_address addrs addr

-- The assertion to `[]codec.Address` panics on what is not there.
unfoldable pub is_white_listed : Rules → Address → Outcome Bool
is_white_listed rules actor = elim ((fetch_custom rules "whitelisted.Addresses").0) [
  | none ↦ panic
  | some addrs ↦ ok (contains_address addrs actor)
]

unfoldable pub contains : List Bytes → Bytes → Bool
contains [] ns = false
contains (v ∷ arr) ns = if bytes_eq v ns then true else contains arr ns

-- 33 bytes, the last of them 1.
abbrev pub arcadia_fund_address : Address
arcadia_fund_address = replicate 32 0 ++ (0x1 ∷ [])

-- A division by zero panics.
unfoldable pub epoch : ℕ → ℤ → Outcome ℕ
epoch block_height epoch_length =
    if to_uint64 epoch_length == 0 then panic else ok (block_height / to_uint64 epoch_length)

-- The dereference of a pointer, which panics on nil.
abbrev pub deref {ℓ} : {A : Type ℓ} → Option A → Outcome A
deref none = panic
deref (some a) = ok a

-- `info.AuthoritySEQAddress != actor`.
abbrev pub check_authority : Address → RollupInfo → Outcome (Unit {0})
check_authority actor info =
    if bytes_eq info.authority_seq_address actor then ok tt else err not_authorized

unfoldable pub authorization_checks :
    {S : Type 0} → Vm S → Address → List Bytes → Bytes → S → Outcome (Unit {0})
authorization_checks vm actor namespaces ns im =
    if contains namespaces ns
    then (then_outcome (get_rollup_info vm ns im)
        λ info. then_outcome (deref info) (check_authority actor))
    else err namespace_not_registered

-- `DefaultNMTNamespace` of actions/consts.go.
abbrev pub default_nmt_namespace : Bytes
default_nmt_namespace = replicate 8 0

-- `ValidRange` of every action: always valid.
abbrev pub always : ℤ × ℤ
always = (negsuc 0, negsuc 0)
