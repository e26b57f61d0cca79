-- ===== src/Types/Binding.antt =====
-- A header's commitment determines the header, up to a collision of the hash.
use nodekit_seq.Prelude.{
  ℕ, ◌^◌, ◌<◌, ◌≡◌, ◌≢◌, refl, sym, ◌∙◌, ◌⊎◌, inl, inr, [], ◌++◌, Bytes, bytes_eq, bytes_eq→eq,
  bytes_eq→ne, length, put_be, length-put_be, put_be-injective, length-append, append-injective,
  append-injective_end, Bool-cases, arith,
}
use mathlib.Core.List.{append-nil}
use nodekit_seq.Outcome.{ok, ok-injective}
use nodekit_seq.Encoding.Buffers.{overlay-replicate}
use nodekit_seq.Types.Commitments.{
  Commitment, constant_string, fixed_size_bytes, invalid_utf8, uint64_value, var_size_bytes,
  finalize, utf8_scan, lead,
}
use nodekit_seq.Types.Headers.{
  NmtRoot, Header, block_name, nmt_root_name, root_name, height_name, timestamp_name, l1_head_name,
  transactions_root_name, commit_root, commit,
}

-- A constant string that was accepted.
abbrev string : Bytes → Bytes → Bytes
string s b = fixed_size_bytes invalid_utf8 (b ++ s)

-- What is hashed of a root, and of a header by the commitment of its root.
abbrev root_preimage : NmtRoot → Bytes
root_preimage r = var_size_bytes r.root (string root_name (string nmt_root_name []))

abbrev height_part : Header → Bytes
height_part h = uint64_value h.height (string height_name (string block_name []))

abbrev timestamp_part : Header → Bytes
timestamp_part h = uint64_value h.timestamp (string timestamp_name (height_part h))

abbrev l1_head_part : Header → Bytes
l1_head_part h = uint64_value h.l1_head (string l1_head_name (timestamp_part h))

abbrev preimage : Header → Commitment → Bytes
preimage h c = fixed_size_bytes c (string transactions_root_name (l1_head_part h))

-- The fields of a header are 64-bit words.
abbrev pub Fits : Header → Type 0
Fits h = (h.height < 2 ^ 64) × (h.timestamp < 2 ^ 64) × (h.l1_head < 2 ^ 64)

string-injective : (s p q : Bytes) → string s p ≡ string s q → p ≡ q
string-injective s p q e =
    (append-injective_end p q refl (append-injective_end (p ++ s) (q ++ s) refl e).0).0

-- A 64-bit field and what follows it are told apart.
field_split :
    (m n : ℕ) (name p q : Bytes)
    → m < 2 ^ 64
    → n < 2 ^ 64
    → uint64_value m (string name p) ≡ uint64_value n (string name q)
    → (m ≡ n) × (p ≡ q)
field_split m n name p q hm hn e =
    let words =
      append-injective_end (string name p) (string name q)
        (length-put_be 8 m ∙ sym (length-put_be 8 n)) e in
    (put_be-injective 8 m n hm hn words.1, string-injective name p q words.0)

length-uint64_value : (m n : ℕ) (b : Bytes) → length (uint64_value m b) ≡ length (uint64_value n b)
length-uint64_value m n b = omega (
  arith,
  length-append b (put_be 8 m),
  length-append b (put_be 8 n),
  length-put_be 8 m,
  length-put_be 8 n,
)

root_preimage-injective : (r s : NmtRoot) → root_preimage r ≡ root_preimage s → r.root ≡ s.root
root_preimage-injective r s e =
    let front = string root_name (string nmt_root_name []) in
    let words =
      append-injective (uint64_value (length r.root) front) (uint64_value (length s.root) front)
        (length-uint64_value (length r.root) (length s.root) front) e in
    words.1

preimage-injective :
    (h k : Header) (c d : Commitment)
    → length c ≡ 32
    → length d ≡ 32
    → Fits h
    → Fits k
    → preimage h c ≡ preimage k d
    → (h.height ≡ k.height) × (h.timestamp ≡ k.timestamp) × (h.l1_head ≡ k.l1_head) × (c ≡ d)
preimage-injective h k c d lc ld (a, b, l) (a', b', l') e =
    let roots =
      append-injective_end (string transactions_root_name (l1_head_part h))
        (string transactions_root_name (l1_head_part k)) (lc ∙ sym ld) e in
    let fields =
      string-injective transactions_root_name (l1_head_part h) (l1_head_part k) roots.0 in
    let heads =
      field_split h.l1_head k.l1_head l1_head_name (timestamp_part h) (timestamp_part k) l l'
        fields in
    let times =
      field_split h.timestamp k.timestamp timestamp_name (height_part h) (height_part k) b b'
        heads.1 in
    let heights =
      field_split h.height k.height height_name (string block_name []) (string block_name []) a a'
        times.1 in
    (heights.0, times.0, heads.0, roots.1)

module _ (keccak : Bytes → Bytes) where
  commit_root-preimage :
      (r : NmtRoot) → commit_root keccak r ≡ ok (finalize keccak (root_preimage r))
  unfolding commit_root constant_string utf8_scan lead
  commit_root-preimage r = refl

  commit-preimage :
      (h : Header)
      → commit keccak h
        ≡ ok (finalize keccak (preimage h (finalize keccak (root_preimage h.transactions_root))))
  unfolding commit commit_root constant_string utf8_scan lead
  commit-preimage r = refl

  -- Two inputs of the hash that it does not tell apart.
  abbrev pub Collision : Type 0
  Collision = (x : Bytes) × (y : Bytes) × (x ≢ y) × (keccak x ≡ keccak y)

  module _ (length-keccak : (x : Bytes) → length (keccak x) ≡ 32) where
    finalize_lem : (x : Bytes) → finalize keccak x ≡ keccak x
    unfolding finalize
    finalize_lem x =
        rw (overlay-replicate (keccak x) 32 0 0 (omega (arith, length-keccak x)))
          (append-nil (keccak x))

    finalize-injective : (x y : Bytes) → finalize keccak x ≡ finalize keccak y → (x ≡ y) ⊎ Collision
    finalize-injective x y e = elim (Bool-cases (bytes_eq x y)) [
      | inl same ↦ inl (bytes_eq→eq x y same)
      | inr differ ↦ inr (x, y, bytes_eq→ne x y differ, sym (finalize_lem x) ∙ e ∙ finalize_lem y)
    ]

    length-finalize : (x : Bytes) → length (finalize keccak x) ≡ 32
    length-finalize x = rw (finalize_lem x) (length-keccak x)

    -- Two headers of 64-bit fields that have one commitment are the same header, or two inputs of the
    -- hash collide; the hash has 32 bytes.
    pub commit-binding :
        (h k : Header) → Fits h → Fits k → commit keccak h ≡ commit keccak k → (h ≡ k) ⊎ Collision
    commit-binding h k fh fk e =
        let c = finalize keccak (root_preimage h.transactions_root) in
        let d = finalize keccak (root_preimage k.transactions_root) in
        let outer = ok-injective (sym (commit-preimage h) ∙ e ∙ commit-preimage k) in
        elim (finalize-injective (preimage h c) (preimage k d) outer) [
          | inr collides ↦ inr collides
          | inl same ↦
              let (heights, times, heads, roots) =
                preimage-injective h k c d (length-finalize _) (length-finalize _) fh fk same in
              elim (finalize-injective _ _ roots) [
                | inr collides ↦ inr collides
                | inl root ↦
                    let roots' =
                      root_preimage-injective h.transactions_root k.transactions_root root in
                    inl (cc (heights, times, heads, roots'))
              ]
        ]

    -- A commitment is an output of the hash.
    pub commit-keccak :
        (h : Header) (c : Commitment) → commit keccak h ≡ ok c → (x : Bytes) × (c ≡ keccak x)
    commit-keccak h c e = (_, ok-injective (sym e ∙ commit-preimage h) ∙ finalize_lem _)
