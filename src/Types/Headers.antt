-- ===== src/Types/Headers.antt =====
-- types/types.go: the header of a block, its commitment, and how it is read from JSON. The JSON
-- decoder gives a record of pointers, in which a missing field is `none`.
use nodekit_seq.Prelude.{ℕ, Option, none, some, [], ◌∷◌, Bytes}
use nodekit_seq.Outcome.{
  Error, height_required, timestamp_required, l1_head_required, transactions_root_required,
  root_required, Outcome, ok, err, then_outcome, Action, lift, ◌>>=◌, ◌>>◌,
}
use nodekit_seq.Types.Commitments.{
  Commitment, new_raw_commitment_builder, uint64_field, field, var_size_field, finalize,
}

pub record NmtRoot : Type 0 where
  pub root : Bytes

pub record Header : Type 0 where
  pub height : ℕ
  pub timestamp : ℕ
  pub l1_head : ℕ
  pub transactions_root : NmtRoot

-- The strings of the two commitments, in ASCII.
abbrev pub block_name : Bytes
block_name = 0x42 ∷ 0x4C ∷ 0x4F ∷ 0x43 ∷ 0x4B ∷ []

abbrev pub nmt_root_name : Bytes
nmt_root_name = 0x4E ∷ 0x4D ∷ 0x54 ∷ 0x52 ∷ 0x4F ∷ 0x4F ∷ 0x54 ∷ []

abbrev pub root_name : Bytes
root_name = 0x72 ∷ 0x6F ∷ 0x6F ∷ 0x74 ∷ []

abbrev pub height_name : Bytes
height_name = 0x68 ∷ 0x65 ∷ 0x69 ∷ 0x67 ∷ 0x68 ∷ 0x74 ∷ []

abbrev pub timestamp_name : Bytes
timestamp_name = 0x74 ∷ 0x69 ∷ 0x6D ∷ 0x65 ∷ 0x73 ∷ 0x74 ∷ 0x61 ∷ 0x6D ∷ 0x70 ∷ []

abbrev pub l1_head_name : Bytes
l1_head_name = 0x6C ∷ 0x31 ∷ 0x5F ∷ 0x68 ∷ 0x65 ∷ 0x61 ∷ 0x64 ∷ []

abbrev pub transactions_root_name : Bytes
transactions_root_name =
    0x74 ∷ 0x72 ∷ 0x61 ∷ 0x6E ∷ 0x73 ∷ 0x61 ∷ 0x63 ∷ 0x74 ∷ 0x69 ∷ 0x6F ∷ 0x6E ∷ 0x73 ∷ 0x5F ∷ 0x72
    ∷ 0x6F ∷ 0x6F ∷ 0x74 ∷ []

module _ (keccak : Bytes → Bytes) where
  unfoldable pub commit_root : NmtRoot → Outcome Commitment
  commit_root r =
      then_outcome (new_raw_commitment_builder nmt_root_name)
        λ b. then_outcome (var_size_field root_name r.root b) λ b'. ok (finalize keccak b')

  unfoldable pub commit : Header → Outcome Commitment
  unfolding commit_root
  commit h = then_outcome (new_raw_commitment_builder block_name) λ b.
      then_outcome (uint64_field height_name h.height b) λ b'.
        then_outcome (uint64_field timestamp_name h.timestamp b') λ b''.
          then_outcome (uint64_field l1_head_name h.l1_head b'') λ b'''.
            then_outcome (commit_root h.transactions_root) λ c.
              then_outcome (field transactions_root_name c b''') λ b''''. ok (finalize keccak b'''')

-- The local types `Dec`.
pub record HeaderDec : Type 0 where
  pub height : Option ℕ
  pub timestamp : Option ℕ
  pub l1_head : Option ℕ
  pub transactions_root : Option NmtRoot

pub record NmtRootDec : Type 0 where
  pub root : Option Bytes

-- A field that must be there, and what is done with it.
abbrev pub required : {A B : Type 0} → Error → Option A → (A → B → B) → Action B (Unit {0})
required e none f b = (err e, b)
required e (some a) f b = (ok tt, f a b)

module _ (json_unmarshal : Bytes → Outcome HeaderDec) where
  -- The receiver keeps the fields that were set before one was missing.
  unfoldable pub unmarshal_header : Bytes → Action Header (Unit {0})
  unmarshal_header b = lift (json_unmarshal b) >>= λ dec.
      required height_required dec.height (λ x h. record h { height = x })
      >> required timestamp_required dec.timestamp (λ x h. record h { timestamp = x })
      >> required l1_head_required dec.l1_head (λ x h. record h { l1_head = x })
      >> required transactions_root_required dec.transactions_root
          (λ x h. record h { transactions_root = x })

module _ (json_unmarshal : Bytes → Outcome NmtRootDec) where
  unfoldable pub unmarshal_nmt_root : Bytes → Action NmtRoot (Unit {0})
  unmarshal_nmt_root b = lift (json_unmarshal b) >>= λ dec.
      required root_required dec.root (λ x r. record { root = x })
