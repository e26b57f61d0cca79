-- ===== src/Vm/Example.antt =====
-- A concrete instance of what the code takes from outside: a view that records its writes, and
-- one encoding for lists of byte strings. It meets the laws that the theorems assume.
use nodekit_seq.Prelude.{
  ℕ, zero, suc, ◌+◌, ◌-◌, ◌^◌, ◌≡◌, refl, Option, none, some, List, [], ◌∷◌, ◌++◌, map, Bytes,
  bytes_eq, length, ltb, if◌then◌else◌, arith,
}
use nodekit_seq.Outcome.{Error, not_found, external, Outcome, ok, err, ok-injective, map_ok}
use nodekit_seq.Outcome.Chains.{Returns, ok-Returns, err-Returns, map_ok-Returns}
use nodekit_seq.Vm.{
  Vm, RollupInfo, EpochInfo, StateLaws, AcceptsWrites, CodecLaws, MathLaws, NoPanics,
}

-- The writes, newest first; a removal is recorded too.
abbrev pub Store : Type 0
Store = List (Bytes × Option Bytes)

abbrev entry : Option Bytes → Bytes × Option Error
entry none = ([], some not_found)
entry (some v) = (v, none)

unfoldable pub read : Bytes → Store → Bytes × Option Error
read j [] = ([], some not_found)
read j ((k, e) ∷ s) = if bytes_eq k j then entry e else read j s

abbrev record_insert : Bytes → Bytes → Store → Outcome Store
record_insert k v s = ok ((k, some v) ∷ s)

abbrev record_remove : Bytes → Store → Outcome Store
record_remove k s = ok ((k, none) ∷ s)

-- Each part is written one higher, and ended by a 0.
unfoldable pub encode : List Bytes → Bytes
encode [] = []
encode (p ∷ ps) = map suc p ++ (0 ∷ encode ps)

abbrev extend : ℕ → List Bytes → List Bytes
extend b [] = (b ∷ []) ∷ []
extend b (p ∷ ps) = (b ∷ p) ∷ ps

unfoldable pub decode : Bytes → List Bytes
decode [] = []
decode (zero ∷ bs) = [] ∷ decode bs
decode (suc b ∷ bs) = extend b (decode bs)

decode-append : (p rest : Bytes) → decode (map suc p ++ (0 ∷ rest)) ≡ p ∷ decode rest
unfolding decode
decode-append [] rest = refl
decode-append (b ∷ p) rest = rw (decode-append p rest)

decode-encode : (ps : List Bytes) → decode (encode ps) ≡ ps
unfolding encode decode
decode-encode [] = refl
decode-encode (p ∷ ps) = rw (decode-append p (encode ps), decode-encode ps)

abbrev info_parts : RollupInfo → List Bytes
info_parts i =
    i.namespace
    ∷ i.fee_recipient
    ∷ i.authority_seq_address
    ∷ i.sequencer_public_key
    ∷ (i.start_epoch ∷ i.exit_epoch ∷ [])
    ∷ []

abbrev info_of_parts : List Bytes → Outcome RollupInfo
info_of_parts (n ∷ f ∷ a ∷ k ∷ (s ∷ e ∷ []) ∷ []) = ok (record {
  namespace = n;
  fee_recipient = f;
  authority_seq_address = a;
  sequencer_public_key = k;
  start_epoch = s;
  exit_epoch = e;
})
info_of_parts parts = err (external 1)

abbrev exit_part : EpochInfo → Bytes
exit_part e = e.epoch ∷ e.namespace

abbrev exits_of_parts : List Bytes → Outcome (List EpochInfo)
exits_of_parts [] = ok []
exits_of_parts ([] ∷ ps) = err (external 2)
exits_of_parts ((e ∷ n) ∷ ps) =
    map_ok (λ es. record { namespace = n; epoch = e } ∷ es) (exits_of_parts ps)

exits_of_parts-map : (es : List EpochInfo) → exits_of_parts (map exit_part es) ≡ ok es
exits_of_parts-map [] = refl
exits_of_parts-map (e ∷ es) = rw (exits_of_parts-map es)

abbrev pub example_vm : Vm Store
example_vm = record {
  get_value = read;
  insert = record_insert;
  remove = record_remove;
  arcadia_bid_key = λ e. 0xf0 ∷ e ∷ [];
  epoch_exits_key = λ e. 0xf1 ∷ e ∷ [];
  rollup_info_key = λ n. 0xf2 ∷ n;
  rollup_registry_key = 0xf3 ∷ [];
  rollup_info_size = λ i. length i.namespace + 162;
  marshal_rollup_info = λ n i. ok (encode (info_parts i));
  unmarshal_rollup_info = λ v. info_of_parts (decode v);
  epoch_info_size = λ e. length e.namespace + 8;
  marshal_epoch_exits = λ n es. ok (encode (map exit_part es));
  unmarshal_epoch_exits = λ v. exits_of_parts (decode v);
  pack_namespaces = λ ns. ok (encode ns);
  unpack_namespaces = λ v. ok (decode v);
  max_namespace_len = 32;
  add64 = λ a b. if ltb (a + b) (2 ^ 64) then ok (a + b) else err (external 3);
  sub = λ a b. if ltb a b then err (external 4) else ok (a - b);
}

pub example-StateLaws : StateLaws example_vm
unfolding read
example-StateLaws = record {
  get_value-insert = λ k v j s e. rw (← ok-injective e) refl;
  get_value-remove = λ k j s e. rw (← ok-injective e) refl;
}

pub example-AcceptsWrites : AcceptsWrites example_vm
example-AcceptsWrites = record { inserts = λ k v s. (_, refl); removes = λ k s. (_, refl) }

pub example-CodecLaws : CodecLaws example_vm
example-CodecLaws = record {
  unmarshal-marshal_rollup_info = λ n i e. rw (← ok-injective e, decode-encode (info_parts i)) refl;
  unmarshal-marshal_epoch_exits =
      λ n es e. rw (← ok-injective e, decode-encode (map exit_part es)) (exits_of_parts-map es);
  unpack-pack_namespaces = λ ns e. rw (← ok-injective e, decode-encode ns) refl;
}

pub example-MathLaws : MathLaws example_vm
example-MathLaws = record {
  add64_fits = λ a b h. ground arith;
  add64_overflow = λ a b h. (external 3, ground arith);
  sub_fits = λ a b h. ground arith;
  sub_underflow = λ a b h. (external 4, ground arith);
}

info_of_parts-Returns : (parts : List Bytes) → Returns (info_of_parts parts)
info_of_parts-Returns parts = ground arith

exits_of_parts-Returns : (parts : List Bytes) → Returns (exits_of_parts parts)
exits_of_parts-Returns [] = ok-Returns []
exits_of_parts-Returns ([] ∷ ps) = err-Returns (external 2)
exits_of_parts-Returns ((e ∷ n) ∷ ps) =
    map_ok-Returns _ (exits_of_parts ps) (exits_of_parts-Returns ps)

pub example-NoPanics : NoPanics example_vm
example-NoPanics = record {
  insert_returns = λ k v s. ok-Returns _;
  marshal_rollup_info_returns = λ n i. ok-Returns _;
  unmarshal_rollup_info_returns = λ v. info_of_parts-Returns (decode v);
  marshal_epoch_exits_returns = λ n es. ok-Returns _;
  unmarshal_epoch_exits_returns = λ v. exits_of_parts-Returns (decode v);
  pack_namespaces_returns = λ ns. ok-Returns _;
  unpack_namespaces_returns = λ v. ok-Returns _;
}
