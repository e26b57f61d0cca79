-- ===== src/Types/Tests.antt =====
-- A commitment and its integer, and two headers under a hash that counts.
use nodekit_seq.Prelude.{
  ◌^◌, ◌<◌, ◌≤◌, ◌≡◌, ◌⊎◌, refl, none, some, [], ◌∷◌, Bytes, length, put_be, length-put_be, arith,
}
use nodekit_seq.Prelude.Int.{pos, negsuc}
use nodekit_seq.Outcome.{err, ok, integer_out_of_range, l1_head_required}
use nodekit_seq.Types.Commitments.{Commitment, commitment_from_uint256, uint256, big_bytes, digits}
use nodekit_seq.Types.Headers.{Header, unmarshal_header}
use nodekit_seq.Types.Integers.{uint256-commitment_from_uint256}
use nodekit_seq.Types.Binding.{Collision, commit-binding}

in_two_bytes : big_bytes (negsuc 257) ≡ 1 ∷ 2 ∷ []
unfolding big_bytes digits
in_two_bytes = refl

uint256-commitment_from_uint256_example :
    ((258 < 256 ^ 32)
      × ((c : Commitment) × (commitment_from_uint256 (pos 258) ≡ ok c)
          × (length c ≡ 32)
          × (uint256 c ≡ pos 258)))
    ⊎ ((256 ^ 32 ≤ 258) × (commitment_from_uint256 (pos 258) ≡ err integer_out_of_range))
uint256-commitment_from_uint256_example = uint256-commitment_from_uint256 (pos 258)

abbrev header : Header
header = record {
  height = 3;
  timestamp = 30;
  l1_head = 90;
  transactions_root = record { root = 1 ∷ 2 ∷ [] };
}

-- The length of what is hashed, in 32 bytes.
abbrev length_hash : Bytes → Bytes
length_hash x = put_be 32 (length x)

commit-binding_example : (header ≡ header) ⊎ Collision length_hash
commit-binding_example =
    commit-binding length_hash (λ x. length-put_be 32 (length x)) header header (ground arith)
      (ground arith) refl

-- The height is set although a later field is missing.
no_l1_head :
    unmarshal_header
      (λ b.
        ok (record {
          height = some 4;
          timestamp = some 40;
          l1_head = none;
          transactions_root = none;
        }))
      []
      header
    ≡ (err l1_head_required, record header { height = 4; timestamp = 40 })
unfolding unmarshal_header
no_l1_head = refl
