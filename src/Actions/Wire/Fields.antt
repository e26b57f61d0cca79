-- ===== src/Actions/Wire/Fields.antt =====
-- The fields that are packed one after another, and what a packer does with them.
use nodekit_seq.Prelude.{
  ℕ, ◌+◌, ◌≡◌, ◌≢◌, ◌≤◌, ◌<◌, ◌^◌, Bool, true, false, none, List, [], ◌∷◌, ◌++◌, Bytes, length,
  IsBytes, replicate, dec_lt, arith,
}
use mathlib.Core.Path.{subst}
use mathlib.Core.List.{append-nil, append_assoc}
use nodekit_seq.Prelude.Int.{ℤ, pos, negsuc}
use nodekit_seq.Outcome.{ok}
use nodekit_seq.Vm.{Address, EpochInfo, RollupInfo}
use nodekit_seq.Actions.Wire.{Packer}

pub data Field : Type 0 where
  address : Address → Field
  word : ℕ → Field
  bytes : Bytes → Field
  int : ℤ → Field
  epoch_info : EpochInfo → Field
  rollup_info : RollupInfo → Field

-- The bytes that a record of hypersdk takes, and the records that its reader gives back.
pub record Formats : Type 1 where
  pub epoch_info_size : EpochInfo → ℕ
  pub rollup_info_size : RollupInfo → ℕ
  pub EpochInfoFits : EpochInfo → Type 0
  pub RollupInfoFits : RollupInfo → Type 0

-- The integers that `PackInt` keeps: it writes 32 bits, and they are read back unsigned.
abbrev pub IsPackable : ℤ → Type 0
IsPackable (pos n) = n < 2 ^ 32
IsPackable (negsuc n) = ⊥

-- The byte strings that `UnpackBytes` takes under its limit, where a negative one is none, and under
-- its flag.
abbrev pub Under : ℤ → Bytes → Type 0
Under (pos limit) b = length b ≤ limit
Under (negsuc n) b = Unit {0}

abbrev pub Present : Bool → Bytes → Type 0
Present true b = b ≢ []
Present false b = Unit {0}

module _ (formats : Formats) where
  -- The bytes that a field takes. A byte string has its length in front.
  abbrev pub field_size : Field → ℕ
  field_size (address a) = 33
  field_size (word n) = 8
  field_size (bytes b) = 4 + length b
  field_size (int z) = 4
  field_size (epoch_info i) = formats.epoch_info_size i
  field_size (rollup_info i) = formats.rollup_info_size i

  abbrev pub sizes : List Field → ℕ
  sizes [] = 0
  sizes (f ∷ fs) = field_size f + sizes fs

  -- The fields that their bytes keep.
  abbrev pub Storable : Field → Type 0
  Storable (address a) = (length a ≡ 33) × IsBytes a
  Storable (word n) = n < 2 ^ 64
  Storable (bytes b) = (length b < 2 ^ 32) × IsBytes b
  Storable (int z) = IsPackable z
  Storable (epoch_info i) = formats.EpochInfoFits i
  Storable (rollup_info i) = formats.RollupInfoFits i

  abbrev pub AllStorable : List Field → Type 0
  AllStorable [] = Unit {0}
  AllStorable (f ∷ fs) = Storable f × AllStorable fs

module _ {P : Type 0} (packer : Packer P) where
  abbrev pub pack : Field → P → P
  pack (address a) p = packer.pack_address a p
  pack (word n) p = packer.pack_uint64 n p
  pack (bytes b) p = packer.pack_bytes b p
  pack (int z) p = packer.pack_int z p
  pack (epoch_info i) p = packer.marshal_epoch_info i p
  pack (rollup_info i) p = packer.marshal_rollup_info i p

  abbrev pub pack_all : List Field → P → P
  pack_all [] p = p
  pack_all (f ∷ fs) p = pack_all fs (pack f p)

  -- A writer under a limit takes a field when its bytes fit and is in error otherwise, for good. What
  -- it holds without an error is read in order by a reader of the same limit, as long as a required
  -- field is not zero, an address is not the empty one, and no byte string is over the limit that it
  -- is read under.
  pub record PackerLaws (formats : Formats) : Type 1 where
    -- A writer of the limit that holds so many bytes, without an error.
    pub Used : ℕ → ℕ → P → Type 0
    -- The fields that a writer holds, and those that a reader has in front of it.
    pub Wrote : List Field → P → Type 0
    pub Reads : List Field → P → Type 0
    pub small_limit : packer.network_size_limit < 2 ^ 32
    pub used_new : (initial limit : ℕ) → Used limit 0 (packer.new_writer initial limit)
    pub wrote_new : (initial limit : ℕ) → Wrote [] (packer.new_writer initial limit)
    pub used_none : (limit n : ℕ) (p : P) → Used limit n p → packer.packer_err p ≡ none
    pub used_field :
        (limit n : ℕ) (p : P) (f : Field)
        → n + field_size formats f ≤ limit
        → Used limit n p
        → Used limit (n + field_size formats f) (pack f p)
    pub too_large :
        (limit n : ℕ) (p : P) (f : Field)
        → limit < n + field_size formats f
        → Used limit n p
        → packer.packer_err (pack f p) ≢ none
    pub keeps_error :
        (p : P) (f : Field) → packer.packer_err p ≢ none → packer.packer_err (pack f p) ≢ none
    pub wrote_field :
        (limit n : ℕ) (fs : List Field) (p : P) (f : Field)
        → n + field_size formats f ≤ limit
        → Storable formats f
        → Used limit n p
        → Wrote fs p
        → Wrote (fs ++ (f ∷ [])) (pack f p)
    pub reads_wrote :
        (limit n : ℕ) (fs : List Field) (p : P)
        → Used limit n p
        → Wrote fs p
        → Reads fs (packer.new_reader limit p)
    pub read_none : (fs : List Field) (p : P) → Reads fs p → packer.packer_err p ≡ none
    pub read_address :
        (fs : List Field) (p : P) (a : Address)
        → a ≢ replicate 33 0
        → Reads (address a ∷ fs) p
        → ((packer.unpack_address p).0 ≡ a) × Reads fs (packer.unpack_address p).1
    pub read_uint64 :
        (fs : List Field) (p : P) (n : ℕ)
        → n ≢ 0
        → Reads (word n ∷ fs) p
        → ((packer.unpack_uint64 true p).0 ≡ n) × Reads fs (packer.unpack_uint64 true p).1
    pub read_bytes :
        (fs : List Field) (p : P) (b : Bytes) (limit : ℤ) (required : Bool)
        → Under limit b
        → Present required b
        → Reads (bytes b ∷ fs) p
        → ((packer.unpack_bytes limit required p).0 ≡ b)
          × Reads fs (packer.unpack_bytes limit required p).1
    pub read_int :
        (fs : List Field) (p : P) (z : ℤ)
        → Reads (int z ∷ fs) p
        → ((packer.unpack_int false p).0 ≡ z) × Reads fs (packer.unpack_int false p).1
    pub read_epoch_info :
        (fs : List Field) (p : P) (i : EpochInfo)
        → Reads (epoch_info i ∷ fs) p
        → ((packer.unmarshal_epoch_info p).0 ≡ ok i) × Reads fs (packer.unmarshal_epoch_info p).1
    pub read_rollup_info :
        (fs : List Field) (p : P) (i : RollupInfo)
        → Reads (rollup_info i ∷ fs) p
        → ((packer.unmarshal_rollup_info p).0 ≡ ok i) × Reads fs (packer.unmarshal_rollup_info p).1

module _ {P : Type 0} (packer : Packer P) (formats : Formats)
    (laws : PackerLaws packer formats) where
  open laws use {Used, Wrote, Reads}

  pack_all-Used :
      (limit n : ℕ) (p : P) (fs : List Field)
      → n + sizes formats fs ≤ limit
      → Used limit n p
      → Used limit (n + sizes formats fs) (pack_all packer fs p)
  pack_all-Used limit n p [] h used =
      let same : n ≡ n + 0 = omega arith in subst (λ m. Used limit m p) same used
  pack_all-Used limit n p (f ∷ fs) h used =
      let next = laws.used_field limit n p f (omega arith) used in
      let rest =
        pack_all-Used limit (n + field_size formats f) (pack packer f p) fs (omega arith) next in
      let same : (n + field_size formats f) + sizes formats fs
          ≡ n + (field_size formats f + sizes formats fs) =
        omega arith in
      subst (λ m. Used limit m (pack_all packer fs (pack packer f p))) same rest

  pack_all-keeps :
      (p : P) (fs : List Field)
      → packer.packer_err p ≢ none
      → packer.packer_err (pack_all packer fs p) ≢ none
  pack_all-keeps p [] h = h
  pack_all-keeps p (f ∷ fs) h = pack_all-keeps (pack packer f p) fs (laws.keeps_error p f h)

  -- Fields that together do not fit leave an error.
  pack_all-refused :
      (limit n : ℕ) (p : P) (fs : List Field)
      → n ≤ limit
      → limit < n + sizes formats fs
      → Used limit n p
      → packer.packer_err (pack_all packer fs p) ≢ none
  pack_all-refused limit n p [] low high used = absurd (omega arith)
  pack_all-refused limit n p (f ∷ fs) low high used =
      elim (dec_lt limit (n + field_size formats f)) [
        | yes over ↦ pack_all-keeps (pack packer f p) fs (laws.too_large limit n p f over used)
        | no fits ↦
            pack_all-refused limit (n + field_size formats f) (pack packer f p) fs (omega arith)
              (omega arith) (laws.used_field limit n p f (omega arith) used)
      ]

  pack_all-Wrote :
      (limit n : ℕ) (before : List Field) (p : P) (fs : List Field)
      → n + sizes formats fs ≤ limit
      → AllStorable formats fs
      → Used limit n p
      → Wrote before p
      → Wrote (before ++ fs) (pack_all packer fs p)
  pack_all-Wrote limit n before p [] h all used wrote = rw (append-nil before) wrote
  pack_all-Wrote limit n before p (f ∷ fs) h (one, all) used wrote =
      rw (← append_assoc before (f ∷ []) fs) (
        pack_all-Wrote limit (n + field_size formats f) (before ++ (f ∷ [])) (pack packer f p) fs
          (omega arith) all (laws.used_field limit n p f (omega arith) used)
          (laws.wrote_field limit n before p f (omega arith) one used wrote))

  -- A new writer takes fields that fit its limit, without an error.
  pub pack_all-none :
      (initial limit : ℕ) (fs : List Field)
      → sizes formats fs ≤ limit
      → packer.packer_err (pack_all packer fs (packer.new_writer initial limit)) ≡ none
  pack_all-none initial limit fs h =
      laws.used_none limit _ _
        (pack_all-Used limit 0 _ fs (omega arith) (laws.used_new initial limit))

  pub pack_all-too_large :
      (initial limit : ℕ) (fs : List Field)
      → limit < sizes formats fs
      → packer.packer_err (pack_all packer fs (packer.new_writer initial limit)) ≢ none
  pack_all-too_large initial limit fs h =
      pack_all-refused limit 0 _ fs (omega arith) (omega arith) (laws.used_new initial limit)

  -- A reader of the same limit has those fields in front of it.
  pub pack_all-Reads :
      (initial limit : ℕ) (fs : List Field)
      → sizes formats fs ≤ limit
      → AllStorable formats fs
      → Reads fs (packer.new_reader limit (pack_all packer fs (packer.new_writer initial limit)))
  pack_all-Reads initial limit fs h all =
      let used = laws.used_new initial limit in
      laws.reads_wrote limit _ fs _ (pack_all-Used limit 0 _ fs (omega arith) used)
        (pack_all-Wrote limit 0 [] _ fs (omega arith) all used (laws.wrote_new initial limit))
