-- ===== src/Chain/Invariant.antt =====
-- The registry and the exits stay sound under every order of executions, so that no execution that
-- relies on them panics.
use nodekit_seq.Prelude.{ℕ, ◌≡◌, ◌≢◌, sym, true, false, some, [], Bytes, ◌==◌}
use nodekit_seq.Prelude.Int.{to_uint64}
use nodekit_seq.Outcome.{ok, ok-injective, not_found}
use nodekit_seq.Outcome.Chains.{Returns}
use nodekit_seq.Vm.{Vm, Address, StateLaws, CodecLaws, NoPanics}
use nodekit_seq.Genesis.{Rules, get_epoch_length}
use nodekit_seq.Storage.Keys.{balance_key}
use nodekit_seq.Storage.KeyLaws.{KeyLaws}
use nodekit_seq.Storage.Rollups.{get_rollup_info, get_rollup_registry, inner_get_registry}
use nodekit_seq.Storage.Exits.{get_epoch_exits, inner_get_epoch_exits}
use nodekit_seq.Actions.Utils.{contains, arcadia_fund_address}
use nodekit_seq.Actions.Utils.Members.{contains_fresh, contains_none}
use nodekit_seq.Actions.Transfer.{Transfer, state_keys as transfer_keys}
use nodekit_seq.Actions.Transfer.Ends.{execute_frame as transfer_frame}
use nodekit_seq.Actions.EpochExit.{EpochExit, execute as epoch_exit_execute}
use nodekit_seq.Actions.EpochExit.Effect.{execute-OnlyAt as exit-OnlyAt}
use nodekit_seq.Actions.EpochExit.Sound.{ExitsSound, execute-ExitsSound}
use nodekit_seq.Actions.EpochExit.Panics.{execute-Returns as exit-Returns}
use nodekit_seq.Actions.RollupRegistration.{
  RollupRegistration, state_keys as registration_keys, execute as registration_execute,
}
use nodekit_seq.Actions.RollupRegistration.Frame.{registration_frame}
use nodekit_seq.Actions.RollupRegistration.Registered.{Registered}
use nodekit_seq.Actions.RollupRegistration.Invariant.{execute-Registered}
use nodekit_seq.Actions.RollupRegistration.Panics.{execute-Returns as registration-Returns}
use nodekit_seq.Actions.Auction.{Bls, Auction, state_keys as auction_keys}
use nodekit_seq.Actions.Auction.Frame.{auction_frame}
use nodekit_seq.Chain.{Step, transferred, auctioned, exited, registered, Reaches, here, next}

module _ {S : Type 0} (vm : Vm S) where
  open vm use {get_value, rollup_info_key, rollup_registry_key, epoch_exits_key}

  -- Every registered namespace has a record, and every epoch's exits are sound.
  abbrev pub Sound : S → Type 0
  Sound s = Registered vm s × ExitsSound vm s

  -- With nothing registered and no exits, there is nothing to be unsound.
  pub fresh_Sound :
      (s : S)
      → get_value rollup_registry_key s ≡ ([], some not_found)
      → ((d : ℕ) → get_value (epoch_exits_key d) s ≡ ([], some not_found))
      → Sound s
  unfolding Registered ExitsSound get_rollup_registry get_epoch_exits inner_get_registry
      inner_get_epoch_exits contains
  fresh_Sound s er ee = (
    λ ns n h there.
        let none_yet : ok [] ≡ ok ns = rw er at h in
        let listed : contains [] n ≡ true = rw (sym (ok-injective none_yet)) at there in cc listed,
    λ d exits h. cc (rw (ee d) at h),
  )

  same_registry :
      (s s' : S)
      → get_value rollup_registry_key s' ≡ get_value rollup_registry_key s
      → ((n : Bytes) → get_value (rollup_info_key n) s' ≡ get_value (rollup_info_key n) s)
      → Registered vm s
      → Registered vm s'
  unfolding Registered get_rollup_registry get_rollup_info
  same_registry s s' er ei have ns n h there =
      let (i, found) = have ns n (rw er at h) there in (i, rw (ei n) found)

  same_exits :
      (s s' : S)
      → ((d : ℕ) → get_value (epoch_exits_key d) s' ≡ get_value (epoch_exits_key d) s)
      → ExitsSound vm s
      → ExitsSound vm s'
  unfolding ExitsSound get_epoch_exits
  same_exits s s' e sound d exits h = sound d exits (rw (e d) at h)

  -- A key that no balance and no bid is stored at.
  abbrev NotMoney : Bytes → Type 0
  NotMoney j = ((a : Address) → balance_key a ≢ j) × ((d : ℕ) → vm.arcadia_bid_key d ≢ j)

  transfer_outside :
      (t : Transfer) (actor : Address) (j : Bytes)
      → NotMoney j
      → contains (transfer_keys t actor) j ≡ false
  unfolding transfer_keys
  transfer_outside t actor j (nb, na) =
      contains_fresh _ _ j (nb actor) (contains_fresh _ _ j (nb t.to) (contains_none j))

  auction_outside : (a : Auction) (j : Bytes) → NotMoney j → contains (auction_keys vm a) j ≡ false
  unfolding auction_keys
  auction_outside a j (nb, na) = contains_fresh _ _ j (nb a.auction_info.builder_seq_address) (
      contains_fresh _ _ j (nb arcadia_fund_address)
        (contains_fresh _ _ j (na a.auction_info.epoch_number) (contains_none j)))

  registration_outside :
      (r : RollupRegistration) (d : ℕ)
      → KeyLaws vm
      → contains (registration_keys vm r) (epoch_exits_key d) ≡ false
  unfolding registration_keys
  registration_outside r d keys =
      contains_fresh _ _ _ (keys.info_ne_exits r.namespace d)
        (contains_fresh _ _ _ (keys.registry_ne_exits d) (contains_none _))

  module _ (laws : StateLaws vm) (keys : KeyLaws vm) where
    info_NotMoney : (n : Bytes) → NotMoney (rollup_info_key n)
    info_NotMoney n = (λ a p. keys.info_ne_balance n a (sym p), λ d p. keys.info_ne_bid n d (sym p))

    registry_NotMoney : NotMoney rollup_registry_key
    registry_NotMoney =
        (λ a p. keys.registry_ne_balance a (sym p), λ d p. keys.registry_ne_bid d (sym p))

    exits_NotMoney : (d : ℕ) → NotMoney (epoch_exits_key d)
    exits_NotMoney d =
        (λ a p. keys.exits_ne_balance d a (sym p), λ e p. keys.exits_ne_bid d e (sym p))

    -- An execution that moves money alone.
    money_Sound :
        (s s' : S)
        → ((j : Bytes) → NotMoney j → get_value j s' ≡ get_value j s)
        → Sound s
        → Sound s'
    money_Sound s s' kept (reg, exits) = (
      same_registry s s' (kept rollup_registry_key registry_NotMoney)
          (λ n. kept (rollup_info_key n) (info_NotMoney n)) reg,
      same_exits s s' (λ d. kept (epoch_exits_key d) (exits_NotMoney d)) exits,
    )

    module _ (codec : CodecLaws vm) (bls : Bls) (rules : Rules) where
      exit-Sound :
          (e : EpochExit) (actor : Address) (s : S)
          → Sound s
          → Sound (epoch_exit_execute vm e actor s).1
      exit-Sound e actor s (reg, exits) =
          let s' = (epoch_exit_execute vm e actor s).1 in
          let only = exit-OnlyAt vm laws e actor s in
          (
            same_registry s s'
                (only rollup_registry_key (λ p. keys.registry_ne_exits e.epoch (sym p)))
                (λ n. only (rollup_info_key n) (λ p. keys.info_ne_exits n e.epoch (sym p))) reg,
            execute-ExitsSound vm e actor s laws codec keys exits,
          )

      registration-Sound :
          (r : RollupRegistration) (hght : ℕ) (actor : Address) (s : S)
          → Sound s
          → Sound (registration_execute vm rules hght actor r s).1
      registration-Sound r hght actor s (reg, exits) =
          let s' = (registration_execute vm rules hght actor r s).1 in
          (
            execute-Registered vm laws codec keys rules hght actor r s reg,
            same_exits s s'
                (λ d.
                  registration_frame vm laws rules hght actor r s _ (registration_outside r d keys))
                exits,
          )

      Step-Sound : {s s' : S} → Step bls vm rules s s' → Sound s → Sound s'
      Step-Sound {s} (transferred t actor) sound =
          money_Sound s _ (λ j h. transfer_frame vm laws t actor s j (transfer_outside t actor j h))
            sound
      Step-Sound {s} (auctioned a hght actor) sound =
          money_Sound s _
            (λ j h. auction_frame bls vm rules hght laws a actor s j (auction_outside a j h)) sound
      Step-Sound {s} (exited e actor) sound = exit-Sound e actor s sound
      Step-Sound {s} (registered r hght actor) sound = registration-Sound r hght actor s sound

      -- Soundness holds of every state that executions reach.
      pub Reaches-Sound : {s s' : S} → Reaches bls vm rules s s' → Sound s → Sound s'
      Reaches-Sound here sound = sound
      Reaches-Sound (next path step) sound = Step-Sound step (Reaches-Sound path sound)

      -- Nowhere on the way does an exit or a registration dereference nil.
      pub Reaches-Returns :
          {s s' : S}
          → NoPanics vm
          → (to_uint64 (get_epoch_length rules) == 0) ≡ false
          → Sound s
          → Reaches bls vm rules s s'
          → ((e : EpochExit) (actor : Address) → Returns (epoch_exit_execute vm e actor s').0)
            × ((r : RollupRegistration) (hght : ℕ) (actor : Address)
                → Returns (registration_execute vm rules hght actor r s').0)
      Reaches-Returns {s} {s'} safe nonzero sound path =
          let (reg, _) = Reaches-Sound path sound in
          (
            λ e actor. exit-Returns vm e actor s' safe reg,
            λ r hght actor. registration-Returns vm safe actor rules hght nonzero r s' reg,
          )
