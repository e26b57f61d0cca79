-- ===== src/Actions/Wire/Tape.antt =====
-- A packer that keeps its fields, under a limit on their bytes.
use nodekit_seq.Prelude.{
  ℕ, ◌+◌, ◌-◌, ◌%◌, ◌^◌, ◌≤◌, ◌<◌, ◌≡◌, refl, ◌≢◌, Bool, true, false, not, ◌&&◌, Option, none, some,
  List, [], ◌∷◌, ◌++◌, Bytes, bytes_eq, ne→bytes_eq, replicate, length, leb, ◌==◌, if◌then◌else◌,
  ap, ◌∙◌, arith,
}
use nodekit_seq.Prelude.Int.{ℤ, pos, negsuc}
use nodekit_seq.Outcome.{Error, external, Outcome, ok, err}
use nodekit_seq.Vm.{EpochInfo, RollupInfo}
use nodekit_seq.Actions.Wire.{Packer}
use nodekit_seq.Actions.Wire.Fields.{
  Field, address, word, bytes, int, epoch_info, rollup_info, Formats, field_size, sizes, Storable,
  Under, Present, pack, PackerLaws,
}

-- The limit, the first error, and the fields that were written or are to be read.
abbrev pub Tape : Type 0
Tape = ℕ × Option Error × List Field

abbrev pub tape_formats : Formats
tape_formats = record {
  epoch_info_size = λ i. 24;
  rollup_info_size = λ i. 99;
  EpochInfoFits = λ i. Unit {0};
  RollupInfoFits = λ i. Unit {0};
}

abbrev failed : {A : Type 0} → A → ℕ → A × Tape
failed zero_value l = (zero_value, (l, some (external 8), []))

abbrev read_address : Tape → Bytes × Tape
read_address (l, e, address a ∷ fs) =
    if bytes_eq a (replicate 33 0) then failed [] l else (a, (l, e, fs))
read_address (l, e, fs) = failed [] l

abbrev read_word : Bool → Tape → ℕ × Tape
read_word required (l, e, word n ∷ fs) = if required && n == 0 then failed 0 l else (n, (l, e, fs))
read_word required (l, e, fs) = failed 0 l

abbrev read_int : Bool → Tape → ℤ × Tape
read_int required (l, e, int z ∷ fs) = (z, (l, e, fs))
read_int required (l, e, fs) = failed (pos 0) l

abbrev read_epoch_info : Tape → Outcome EpochInfo × Tape
read_epoch_info (l, e, epoch_info i ∷ fs) = (ok i, (l, e, fs))
read_epoch_info p = (err (external 9), p)

abbrev read_rollup_info : Tape → Outcome RollupInfo × Tape
read_rollup_info (l, e, rollup_info i ∷ fs) = (ok i, (l, e, fs))
read_rollup_info p = (err (external 9), p)

abbrev pub within : ℤ → ℕ → Bool
within (pos limit) n = leb n limit
within (negsuc k) n = true

abbrev read_bytes : ℤ → Bool → Tape → Bytes × Tape
read_bytes limit required (l, e, bytes b ∷ fs) =
    if within limit (length b) && not (required && length b == 0)
    then (b, (l, e, fs))
    else failed [] l
read_bytes limit required (l, e, fs) = failed [] l

-- A word keeps 64 bits, and an integer 32.
abbrev pub stored : Field → Field
stored (word n) = word (n % 2 ^ 64)
stored (int (pos n)) = int (pos (n % 2 ^ 32))
stored (int (negsuc n)) = int (pos (2 ^ 32 - 1 - n % 2 ^ 32))
stored (address a) = address a
stored (bytes b) = bytes b
stored (epoch_info i) = epoch_info i
stored (rollup_info i) = rollup_info i

abbrev pub put : Field → Tape → Tape
put f (l, some e, fs) = (l, some e, fs)
put f (l, none, fs) =
    if leb (sizes tape_formats fs + field_size tape_formats f) l
    then (l, none, fs ++ (stored f ∷ []))
    else (l, some (external 8), fs)

abbrev pub tape_packer : Packer Tape
tape_packer = record {
  pack_address = λ a. put (address a);
  pack_uint64 = λ n. put (word n);
  pack_bytes = λ b. put (bytes b);
  pack_int = λ z. put (int z);
  unpack_address = read_address;
  unpack_uint64 = read_word;
  unpack_bytes = read_bytes;
  unpack_int = read_int;
  packer_err = λ p. p.1;
  new_writer = λ initial limit. (limit, none, []);
  new_reader = λ limit p. (limit, none, p.2);
  network_size_limit = 2_000_000;
  marshal_epoch_info = λ i. put (epoch_info i);
  unmarshal_epoch_info = read_epoch_info;
  marshal_rollup_info = λ i. put (rollup_info i);
  unmarshal_rollup_info = read_rollup_info;
}

pub not_zero : (n : ℕ) → n ≢ 0 → (n == 0) ≡ false
not_zero n ne = ground arith

pub accepts :
    (limit : ℤ) (required : Bool) (b : Bytes)
    → Under limit b
    → Present required b
    → within limit (length b) && not (required && length b == 0) ≡ true
accepts (pos n) false b under present = ground arith
accepts (negsuc n) false b under present = ground arith
accepts (pos n) true [] under present = absurd (present refl)
accepts (negsuc n) true [] under present = absurd (present refl)
accepts (pos n) true (x ∷ xs) under present = ground arith
accepts (negsuc n) true (x ∷ xs) under present = ground arith

pub sizes-put :
    (fs : List Field) (f : Field)
    → sizes tape_formats (fs ++ (stored f ∷ [])) ≡ sizes tape_formats fs + field_size tape_formats f
sizes-put [] (address a) = omega arith
sizes-put [] (word n) = omega arith
sizes-put [] (bytes b) = omega arith
sizes-put [] (int (pos n)) = omega arith
sizes-put [] (int (negsuc n)) = omega arith
sizes-put [] (epoch_info i) = omega arith
sizes-put [] (rollup_info i) = omega arith
sizes-put (g ∷ fs) f = omega (arith, sizes-put fs f)

pub stored_lem : (f : Field) → Storable tape_formats f → stored f ≡ f
stored_lem (address a) h = refl
stored_lem (word n) h = ap word (omega arith)
stored_lem (bytes b) h = refl
stored_lem (int (pos n)) h = ap (λ m. int (pos m)) (omega arith)
stored_lem (int (negsuc n)) h = elim h [ ]
stored_lem (epoch_info i) h = refl
stored_lem (rollup_info i) h = refl

pub pack-put : (f : Field) (p : Tape) → pack tape_packer f p ≡ put f p
pack-put (address a) p = refl
pack-put (word n) p = refl
pack-put (bytes b) p = refl
pack-put (int z) p = refl
pack-put (epoch_info i) p = refl
pack-put (rollup_info i) p = refl

abbrev pub Filled : ℕ → ℕ → Tape → Type 0
Filled limit n p = (p.0 ≡ limit) × (p.1 ≡ none) × (sizes tape_formats p.2 ≡ n)

abbrev pub Faces : List Field → Tape → Type 0
Faces fs p = (p.1 ≡ none) × (p.2 ≡ fs)

pub put_fits :
    (limit n : ℕ) (p : Tape) (f : Field)
    → n + field_size tape_formats f ≤ limit
    → Filled limit n p
    → put f p ≡ (limit, none, p.2 ++ (stored f ∷ []))
put_fits limit n (l, none, fs) f h (same, e, used) =
    let fits : leb (sizes tape_formats fs + field_size tape_formats f) l ≡ true = ground arith in
    rw (fits, same) refl
put_fits limit n (l, some x, fs) f h (same, e, used) = cc e

pub put_over :
    (limit n : ℕ) (p : Tape) (f : Field)
    → limit < n + field_size tape_formats f
    → Filled limit n p
    → (put f p).1 ≢ none
put_over limit n (l, none, fs) f h (same, e, used) none_left =
    let over : leb (sizes tape_formats fs + field_size tape_formats f) l ≡ false = ground arith in
    let bad = rw over at none_left in cc bad
put_over limit n (l, some x, fs) f h (same, e, used) none_left = cc e

pub put_keeps : (p : Tape) (f : Field) → p.1 ≢ none → (put f p).1 ≢ none
put_keeps (l, none, fs) f h = absurd (h refl)
put_keeps (l, some x, fs) f h = h

pub reads_address :
    (fs : List Field) (p : Tape) (a : Bytes)
    → a ≢ replicate 33 0
    → Faces (address a ∷ fs) p
    → ((read_address p).0 ≡ a) × Faces fs (read_address p).1
reads_address fs (l, e, gs) a ne (fine, same) =
    rw (same, ne→bytes_eq a (replicate 33 0) ne) (refl, (fine, refl))

pub reads_word :
    (fs : List Field) (p : Tape) (n : ℕ)
    → n ≢ 0
    → Faces (word n ∷ fs) p
    → ((read_word true p).0 ≡ n) × Faces fs (read_word true p).1
reads_word fs (l, e, gs) n ne (fine, same) = rw (same, not_zero n ne) (refl, (fine, refl))

pub reads_bytes :
    (fs : List Field) (p : Tape) (b : Bytes) (limit : ℤ) (required : Bool)
    → Under limit b
    → Present required b
    → Faces (bytes b ∷ fs) p
    → ((read_bytes limit required p).0 ≡ b) × Faces fs (read_bytes limit required p).1
reads_bytes fs (l, e, gs) b limit required under present (fine, same) =
    rw (same, accepts limit required b under present) (refl, (fine, refl))

pub reads_int :
    (fs : List Field) (p : Tape) (z : ℤ)
    → Faces (int z ∷ fs) p
    → ((read_int false p).0 ≡ z) × Faces fs (read_int false p).1
reads_int fs (l, e, gs) z (fine, same) = rw same (refl, (fine, refl))

pub reads_epoch_info :
    (fs : List Field) (p : Tape) (i : EpochInfo)
    → Faces (epoch_info i ∷ fs) p
    → ((read_epoch_info p).0 ≡ ok i) × Faces fs (read_epoch_info p).1
reads_epoch_info fs (l, e, gs) i (fine, same) = rw same (refl, (fine, refl))

pub reads_rollup_info :
    (fs : List Field) (p : Tape) (i : RollupInfo)
    → Faces (rollup_info i ∷ fs) p
    → ((read_rollup_info p).0 ≡ ok i) × Faces fs (read_rollup_info p).1
reads_rollup_info fs (l, e, gs) i (fine, same) = rw same (refl, (fine, refl))

pub in_32_bits : tape_packer.network_size_limit < 2 ^ 32
in_32_bits = omega arith

abbrev pub tape_laws : PackerLaws tape_packer tape_formats
tape_laws = record {
  Used = Filled;
  Wrote = λ fs p. p.2 ≡ fs;
  Reads = Faces;
  small_limit = in_32_bits;
  used_new = λ initial limit. (refl, refl, refl);
  wrote_new = λ initial limit. refl;
  used_none = λ limit n p used. used.1;
  used_field = λ limit n p f h used.
      rw (pack-put f p, put_fits limit n p f h used)
        (refl, refl, sizes-put p.2 f ∙ ap (λ m. m + field_size tape_formats f) used.2);
  too_large = λ limit n p f h used. rw (pack-put f p) (put_over limit n p f h used);
  keeps_error = λ p f h. rw (pack-put f p) (put_keeps p f h);
  wrote_field = λ limit n fs p f h kept used wrote.
      rw (pack-put f p, put_fits limit n p f h used, wrote, stored_lem f kept) refl;
  reads_wrote = λ limit n fs p used wrote. (refl, wrote);
  read_none = λ fs p faces. faces.0;
  read_address = reads_address;
  read_uint64 = reads_word;
  read_bytes = reads_bytes;
  read_int = reads_int;
  read_epoch_info = reads_epoch_info;
  read_rollup_info = reads_rollup_info;
}
