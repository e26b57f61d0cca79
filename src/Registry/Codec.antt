-- ===== src/Registry/Codec.antt =====
-- An action on the wire: what `Marshal` writes, read by the function that the registry has under the
-- type ID of the action.
use nodekit_seq.Prelude.{
  ℕ, ◌≡◌, refl, ◌≢◌, ◌≤◌, ◌<◌, ◌⊎◌, true, none, some, List, [], inl, inr, In, length, replicate, ap,
  dec_lt, arith,
}
use nodekit_seq.Prelude.Int.{pos}
use nodekit_seq.Outcome.{ok, map_ok}
use nodekit_seq.Actions.Transfer.{max_memo_size}
use nodekit_seq.Actions.Wire.{
  Packer, marshal_transfer, marshal_msg, marshal_auction, marshal_auction_info, marshal_epoch_exit,
  marshal_rollup_register,
}
use nodekit_seq.Actions.Wire.Fields.{
  Field, Formats, PackerLaws, sizes, AllStorable, Under, Present, pack_all, pack_all-none,
  pack_all-too_large, pack_all-Reads,
}
use nodekit_seq.Actions.Wire.RoundTrip.{
  transfer_fields, msg_fields, auction_fields, exit_fields, registration_fields,
  unmarshal_transfer-Reads, unmarshal_msg-Reads, unmarshal_auction-Reads,
  unmarshal_epoch_exit-Reads, unmarshal_rollup_register-Reads,
}
use nodekit_seq.Registry.{
  TypeParser, ChainAction, transfer, sequencer_msg, rollup_registration, epoch_exit, auction,
  HypersdkIds, get_type_id, ActionDecoder, marshal_action, action_entries, auth_entries,
  register_all, init_registry,
}
use nodekit_seq.Registry.Distinct.{
  TypeParserLaws, Distinct, new_type_parser-Unused, register_all-none, lookup-register_all,
}

-- Two lists of registrations under IDs that differ within each list.
pub init_registry-ok :
    {F G R Q : Type 0} {actions : TypeParser F R} {auths : TypeParser G Q}
    → (action_laws : TypeParserLaws actions) (auth_laws : TypeParserLaws auths) (fs : List (ℕ × F))
      (gs : List (ℕ × G))
    → Distinct fs
    → Distinct gs
    → init_registry actions auths fs gs
      ≡ ok (
        (register_all actions fs actions.new_type_parser).1,
        (register_all auths gs auths.new_type_parser).1,
      )
unfolding init_registry
init_registry-ok {actions = actions} {auths = auths} action_laws auth_laws fs gs distinct_f
      distinct_g =
    rw
      (
        register_all-none actions action_laws fs actions.new_type_parser distinct_f
            (new_type_parser-Unused actions action_laws fs),
        register_all-none auths auth_laws gs auths.new_type_parser distinct_g
            (new_type_parser-Unused auths auth_laws gs),
      )
      refl

-- The fields of an action on the wire.
abbrev pub action_fields : ChainAction → List Field
action_fields (transfer t) = transfer_fields t
action_fields (sequencer_msg m) = msg_fields m
action_fields (rollup_registration r) = registration_fields r
action_fields (epoch_exit e) = exit_fields e
action_fields (auction a) = auction_fields a

-- The actions whose required fields are there: words are not zero, addresses are not the empty one,
-- and byte strings are not empty and not too long.
abbrev pub Complete : ChainAction → Type 0
Complete (transfer t) = (t.to ≢ replicate 33 0) × (t.value ≢ 0) × (length t.memo ≤ max_memo_size)
Complete (sequencer_msg m) =
    (m.from_address ≢ replicate 33 0) × (m.payload ≢ []) × (m.chain_id ≢ [])
Complete (rollup_registration r) = Unit {0}
Complete (epoch_exit e) = e.epoch ≢ 0
Complete (auction a) =
    ((a.auction_info.epoch_number ≢ 0)
      × (a.auction_info.bid_price ≢ 0)
      × (a.auction_info.builder_seq_address ≢ replicate 33 0))
    × (Under (pos 48) a.builder_public_key × Present true a.builder_public_key)
    × (Under (pos 96) a.builder_signature × Present true a.builder_signature)

marshal_action-pack_all :
    {P : Type 0} (packer : Packer P) (a : ChainAction) (w : P)
    → marshal_action packer a w ≡ pack_all packer (action_fields a) w
unfolding marshal_transfer marshal_msg marshal_auction marshal_auction_info marshal_epoch_exit
    marshal_rollup_register
marshal_action-pack_all packer (transfer t) w = refl
marshal_action-pack_all packer (sequencer_msg m) w = refl
marshal_action-pack_all packer (rollup_registration r) w = refl
marshal_action-pack_all packer (epoch_exit e) w = refl
marshal_action-pack_all packer (auction a) w = refl

module _ {P : Type 0} (packer : Packer P) (formats : Formats) (laws : PackerLaws packer formats)
    (ids : HypersdkIds) where
  -- The entry of an action reads it from its fields.
  decoder_of :
      (a : ChainAction)
      → Complete a
      → (u : ActionDecoder P) × In (get_type_id ids a, u) (action_entries packer ids)
        × ((r : P) → laws.Reads (action_fields a) r → (u r).0 ≡ ok a)
  decoder_of (transfer t) (to, positive, short) = (
    _,
    inl refl,
    λ r reads.
        ap (map_ok transfer)
          (unmarshal_transfer-Reads packer formats laws t r to positive short reads),
  )
  decoder_of (sequencer_msg m) (from, payload, chain) = (
    _,
    inr (inl refl),
    λ r reads.
        ap (map_ok sequencer_msg)
          (unmarshal_msg-Reads packer formats laws m r from payload chain reads),
  )
  decoder_of (rollup_registration g) complete = (
    _,
    inr (inr (inl refl)),
    λ r reads.
        ap (map_ok rollup_registration)
          (unmarshal_rollup_register-Reads packer formats laws g r reads),
  )
  decoder_of (epoch_exit e) epoch = (
    _,
    inr (inr (inr (inl refl))),
    λ r reads.
        ap (map_ok epoch_exit) (unmarshal_epoch_exit-Reads packer formats laws e r epoch reads),
  )
  decoder_of (auction a) ((epoch, price, builder), (key_short, key), (sig_short, sig)) = (
    _,
    inr (inr (inr (inr (inl refl)))),
    λ r reads. ap (map_ok auction) (
        unmarshal_auction-Reads packer formats laws a r epoch price builder key_short key sig_short
          sig reads),
  )

  -- The registration at start-up does not panic if the type IDs of the five actions differ. Take an
  -- action whose fields are storable (64-bit words, addresses of 33 bytes, 32-bit integers that are
  -- not negative, byte strings of bytes with a 32-bit length, and records that hypersdk reads back)
  -- and complete (required words are not zero, addresses are not the empty one, and required byte
  -- strings are not empty and within their limits). The registry has a function under its type ID,
  -- and a new writer of any limit either has the bytes of the action within its limit, when `Marshal`
  -- leaves no error and the function gives the action back from what was written, or the bytes are
  -- over the limit and `Marshal` leaves an error.
  pub init_registry-decodes :
      {G R Q : Type 0} {actions : TypeParser (ActionDecoder P) R} {auths : TypeParser G Q}
      → (action_laws : TypeParserLaws actions) (auth_laws : TypeParserLaws auths)
        (unmarshal_ed25519 unmarshal_bls : G) (a : ChainAction) (initial limit : ℕ)
      → Distinct (action_entries packer ids)
      → AllStorable formats (action_fields a)
      → Complete a
      → (registries : R × Q) × (init_registry actions auths
            (action_entries packer ids)
            (auth_entries unmarshal_ed25519 unmarshal_bls)
          ≡ ok registries)
        × (u : ActionDecoder P) × (actions.lookup (get_type_id ids a) registries.0 ≡ some u)
        × (((sizes formats (action_fields a) ≤ limit)
              × (packer.packer_err (marshal_action packer a (packer.new_writer initial limit))
                  ≡ none)
              × ((u (
                    packer.new_reader limit
                      (marshal_action packer a (packer.new_writer initial limit)))).0
                  ≡ ok a))
            ⊎ ((limit < sizes formats (action_fields a))
                × (packer.packer_err (marshal_action packer a (packer.new_writer initial limit))
                    ≢ none)))
  init_registry-decodes {actions = actions} action_laws auth_laws ed bls a initial limit distinct
        storable complete =
      let (u, listed, reads) = decoder_of a complete in
      let w = packer.new_writer initial limit in
      (
        _,
        init_registry-ok action_laws auth_laws (action_entries packer ids) (auth_entries ed bls)
            distinct (((λ e. ground arith), tt), (tt, tt)),
        u,
        lookup-register_all actions action_laws _ u (action_entries packer ids)
            actions.new_type_parser distinct
            (new_type_parser-Unused actions action_laws (action_entries packer ids)) listed,
        rw (marshal_action-pack_all packer a w)
            (elim (dec_lt limit (sizes formats (action_fields a))) [
              | yes over ↦ inr (
                over,
                pack_all-too_large packer formats laws initial limit (action_fields a) over,
              )
              | no fits ↦ inl (
                omega arith,
                pack_all-none packer formats laws initial limit (action_fields a) (omega arith),
                reads _ (
                    pack_all-Reads packer formats laws initial limit (action_fields a) (omega arith)
                      storable),
              )
            ]),
      )
