-- ===== src/Auth/Ed25519.antt =====
-- auth/ed25519.go: the authentication of a transaction by an ed25519 key, over hypersdk's crypto.
use nodekit_seq.Prelude.{ℕ, Bool, Option, Bytes, bytes_eq, replicate, if◌then◌else◌}
use nodekit_seq.Prelude.Int.{ℤ, negsuc}
use nodekit_seq.Outcome.{Error, Outcome, ok, err, from_pair}
use nodekit_seq.Vm.{Address}

-- hypersdk/crypto/ed25519, `codec.CreateAddress` of `utils.ToID`, and fixed bytes of a packer.
pub record Crypto (P : Type 0) : Type 0 where
  pub verify_signature : Bytes → Bytes → Bytes → Bool
  pub invalid_signature : Error
  pub sign_with : Bytes → Bytes → Bytes
  pub public_key : Bytes → Bytes
  pub create_address : ℕ → Bytes → Address
  pub to_id : Bytes → Bytes
  pub pack_fixed_bytes : Bytes → P → P
  pub unpack_fixed_bytes : ℕ → P → Bytes × P
  pub packer_err : P → Option Error
  pub public_key_len : ℕ
  pub signature_len : ℕ

abbrev pub ed25519_id : ℕ
ed25519_id = 0

-- `addr` is filled at the first use.
pub record Ed25519 : Type 0 where
  pub signer : Bytes
  pub signature : Bytes
  pub addr : Address

abbrev pub empty_address : Address
empty_address = replicate 33 0

abbrev pub type_id : Ed25519 → ℕ
type_id d = ed25519_id

abbrev pub auth_compute_units : Ed25519 → ℕ
auth_compute_units d = 5

abbrev pub auth_valid_range : Ed25519 → ℤ × ℤ
auth_valid_range d = (negsuc 0, negsuc 0)

module _ {P : Type 0} (crypto : Crypto P) where
  open crypto use {
    verify_signature, invalid_signature, sign_with, public_key, create_address, to_id,
    pack_fixed_bytes, unpack_fixed_bytes, packer_err, public_key_len, signature_len,
  }

  abbrev pub new_ed25519_address : Bytes → Address
  new_ed25519_address pk = create_address ed25519_id (to_id pk)

  -- The address, and what the call leaves in the receiver.
  abbrev pub own_address : Ed25519 → Address × Ed25519
  own_address d =
      if bytes_eq d.addr empty_address
      then (new_ed25519_address d.signer, record d { addr = new_ed25519_address d.signer })
      else (d.addr, d)

  -- `Actor` and `Sponsor`.
  abbrev pub actor : Ed25519 → Address × Ed25519
  actor d = own_address d

  abbrev pub sponsor : Ed25519 → Address × Ed25519
  sponsor d = own_address d

  abbrev pub verify_auth : Bytes → Ed25519 → Outcome (Unit {0})
  verify_auth msg d =
      if verify_signature msg d.signer d.signature then ok tt else err invalid_signature

  abbrev pub marshal_auth : Ed25519 → P → P
  marshal_auth d p = pack_fixed_bytes d.signature (pack_fixed_bytes d.signer p)

  abbrev pub unmarshal_auth : P → Outcome Ed25519 × P
  unmarshal_auth p =
      let (signer, p₁) = unpack_fixed_bytes public_key_len p in
      let (signature, p₂) = unpack_fixed_bytes signature_len p₁ in
      (
        from_pair (record { signer = signer; signature = signature; addr = empty_address })
            (packer_err p₂),
        p₂,
      )

  -- `ED25519Factory`, by its private key.
  abbrev pub factory_sign : Bytes → Bytes → Ed25519
  factory_sign priv msg = record {
    signer = public_key priv;
    signature = sign_with msg priv;
    addr = empty_address;
  }

  abbrev pub factory_address : Bytes → Address
  factory_address priv = new_ed25519_address (public_key priv)
