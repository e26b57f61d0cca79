-- ===== src/Auth/Bls.antt =====
-- auth/bls.go: the authentication of a transaction by a BLS key, over hypersdk's crypto.
use nodekit_seq.Prelude.{ℕ, ◌+◌, Bool, Option, Bytes, bytes_eq, if◌then◌else◌}
use nodekit_seq.Prelude.Int.{ℤ, negsuc}
use nodekit_seq.Outcome.{Error, Outcome, ok, err, from_pair, then_outcome}
use nodekit_seq.Vm.{Address}
use nodekit_seq.Auth.Ed25519.{empty_address}
use nodekit_seq.Actions.Auction.{bls_id}

-- hypersdk/crypto/bls with its keys `K`, signatures `G` and private keys `R`, addresses, and the fixed
-- bytes of a packer `P`.
pub record BlsCrypto (K G R P : Type 0) : Type 0 where
  pub verify_bls : Bytes → K → G → Bool
  pub invalid_bls_signature : Error
  pub sign_bls : Bytes → R → G
  pub public_from_private_key : R → K
  pub public_key_to_bytes : K → Bytes
  pub signature_to_bytes : G → Bytes
  pub public_key_from_bytes : Bytes → Outcome K
  pub signature_from_bytes : Bytes → Outcome G
  pub create_address : ℕ → Bytes → Address
  pub to_id : Bytes → Bytes
  pub pack_fixed_bytes : Bytes → P → P
  pub unpack_fixed_bytes : ℕ → P → Bytes × P
  pub packer_err : P → Option Error
  pub public_key_len : ℕ
  pub signature_len : ℕ

pub record BlsAuth (K G : Type 0) : Type 0 where
  pub signer : K
  pub signature : G
  pub addr : Address

abbrev pub bls_compute_units : ℕ
bls_compute_units = 10

module _ {K G R P : Type 0} (crypto : BlsCrypto K G R P) where
  open crypto use {
    verify_bls, invalid_bls_signature, sign_bls, public_from_private_key, public_key_to_bytes,
    signature_to_bytes, public_key_from_bytes, signature_from_bytes, create_address, to_id,
    pack_fixed_bytes, unpack_fixed_bytes, packer_err, public_key_len, signature_len,
  }

  abbrev pub bls_size : ℕ
  bls_size = public_key_len + signature_len

  abbrev pub new_bls_address : K → Address
  new_bls_address pk = create_address bls_id (to_id (public_key_to_bytes pk))

  -- The address, and what the call leaves in the receiver.
  abbrev pub bls_own_address : BlsAuth K G → Address × BlsAuth K G
  bls_own_address b =
      if bytes_eq b.addr empty_address
      then (new_bls_address b.signer, record b { addr = new_bls_address b.signer })
      else (b.addr, b)

  -- `Actor` and `Sponsor`.
  abbrev pub bls_actor : BlsAuth K G → Address × BlsAuth K G
  bls_actor b = bls_own_address b

  abbrev pub bls_sponsor : BlsAuth K G → Address × BlsAuth K G
  bls_sponsor b = bls_own_address b

  abbrev pub bls_valid_range : BlsAuth K G → ℤ × ℤ
  bls_valid_range b = (negsuc 0, negsuc 0)

  abbrev pub verify_bls_auth : Bytes → BlsAuth K G → Outcome (Unit {0})
  verify_bls_auth msg b =
      if verify_bls msg b.signer b.signature then ok tt else err invalid_bls_signature

  abbrev pub marshal_bls : BlsAuth K G → P → P
  marshal_bls b p =
      pack_fixed_bytes (signature_to_bytes b.signature)
        (pack_fixed_bytes (public_key_to_bytes b.signer) p)

  -- The two encodings are decoded before the packer's error is looked at.
  abbrev pub unmarshal_bls : P → Outcome (BlsAuth K G) × P
  unmarshal_bls p =
      let (signer, p₁) = unpack_fixed_bytes public_key_len p in
      let (signature, p₂) = unpack_fixed_bytes signature_len p₁ in
      (
        then_outcome (public_key_from_bytes signer) λ pk.
            then_outcome (signature_from_bytes signature) λ sig.
              from_pair (record { signer = pk; signature = sig; addr = empty_address })
                (packer_err p₂),
        p₂,
      )

  -- `BLSFactory`, by its private key.
  abbrev pub bls_factory_sign : R → Bytes → BlsAuth K G
  bls_factory_sign priv msg = record {
    signer = public_from_private_key priv;
    signature = sign_bls msg priv;
    addr = empty_address;
  }

  abbrev pub bls_max_units : ℕ × ℕ
  bls_max_units = (bls_size, bls_compute_units)

  abbrev pub bls_factory_address : R → Address
  bls_factory_address priv = new_bls_address (public_from_private_key priv)
