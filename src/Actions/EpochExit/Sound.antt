-- ===== src/Actions/EpochExit/Sound.antt =====
-- The lists of exits stay sound: each namespace once, and each exit under its own epoch.
use nodekit_seq.Prelude.{
  ℕ, zero, suc, ◌≡◌, refl, ◌≢◌, sym, ◌∙◌, inl, inr, none, some, Option, List, arith, ◌==◌,
  Bool-cases,
}
use nodekit_seq.Prelude.Int.{ℤ, pos, negsuc}
use nodekit_seq.Outcome.{ok}
use nodekit_seq.Vm.{Vm, Address, EpochInfo, StateLaws, CodecLaws}
use nodekit_seq.Storage.KeyLaws.{KeyLaws}
use nodekit_seq.Storage.Exits.{get_epoch_exits}
use nodekit_seq.Storage.Exits.ReadBack.{get_epoch_exits-OnlyAt, get-set_epoch_exits}
use nodekit_seq.Actions.EpochExit.{EpochExit, by_op_code, execute}
use nodekit_seq.Actions.EpochExit.Exits.{
  Once, InEpoch, Once-append, InEpoch-append, Once-without, InEpoch-without,
}
use nodekit_seq.Actions.EpochExit.Effect.{
  listed, create_exit-ok, delete_exit-ok, execute-Accepted, execute-Atomic, execute-OnlyAt,
}

-- The exits that are stored under an epoch.
abbrev pub SoundAt : ℕ → List EpochInfo → Type 0
SoundAt d exits = Once exits × InEpoch d exits

by_op_code-SoundAt :
    (op : ℤ) (info : EpochInfo) (before : Option (List EpochInfo)) (after : List EpochInfo)
    → SoundAt info.epoch (listed before)
    → by_op_code op info before ≡ ok after
    → SoundAt info.epoch after
by_op_code-SoundAt (pos zero) info before after (once, all) h =
    let (fresh, added) = create_exit-ok info before after h in
    rw added (
      Once-append info (listed before) once fresh,
      InEpoch-append info.epoch info (listed before) all refl,
    )
by_op_code-SoundAt (pos (suc zero)) info before after (once, all) h =
    let (idx, hit, gone) = delete_exit-ok info before after h in
    rw (gone, hit.left)
      (
        Once-without hit.pre hit.exit hit.post (rw hit.split at once),
        InEpoch-without info.epoch hit.pre hit.exit hit.post (rw hit.split at all),
      )
by_op_code-SoundAt (pos (suc (suc n))) info before after sound h = cc h
by_op_code-SoundAt (negsuc n) info before after sound h = cc h

module _ {S : Type 0} (vm : Vm S) where
  -- Every epoch's exits are sound.
  unfoldable pub ExitsSound : S → Type 0
  ExitsSound s =
      (d : ℕ) (exits : List EpochInfo) → get_epoch_exits vm d s ≡ ok (some exits) → SoundAt d exits

  listed_SoundAt :
      (d : ℕ) (before : Option (List EpochInfo)) (s : S)
      → ExitsSound s
      → get_epoch_exits vm d s ≡ ok before
      → SoundAt d (listed before)
  unfolding ExitsSound
  listed_SoundAt d none s sound h = (tt, tt)
  listed_SoundAt d (some exits) s sound h = sound d exits h

  -- An exit action keeps every list sound, however it ends.
  pub execute-ExitsSound :
      (e : EpochExit) (actor : Address) (s : S)
      → StateLaws vm
      → CodecLaws vm
      → KeyLaws vm
      → ExitsSound s
      → ExitsSound (execute vm e actor s).1
  unfolding ExitsSound
  execute-ExitsSound e actor s laws codec keys sound d exits h =
      elim (execute-Atomic vm e actor s) [
        | inr same ↦ sound d exits (rw same at h)
        | inl (u, done) ↦ elim (Bool-cases (d == e.epoch)) [
          | inr other ↦
              let ne : vm.epoch_exits_key e.epoch ≢ vm.epoch_exits_key d =
                λ p. ground (arith, keys.exits_injective e.epoch d p) in
              sound d exits (
                sym (
                  get_epoch_exits-OnlyAt vm (vm.epoch_exits_key e.epoch) d s _
                    (execute-OnlyAt vm laws e actor s) ne)
                ∙ h)
          | inl same ↦
              let here : d ≡ e.epoch = ground arith in
              let s' = (execute vm e actor s).1 in
              let a = execute-Accepted vm e actor s s' done in
              let now : ok (some a.after) ≡ ok (some exits) =
                sym (get-set_epoch_exits vm laws e.epoch a.after s s' codec a.stored)
                ∙ (rw here at h) in
              let stored : a.after ≡ exits = cc now in
              let was : SoundAt e.info.epoch (listed a.before) =
                rw a.same_epoch at (listed_SoundAt e.epoch a.before s sound a.read_exits) in
              let after_sound =
                by_op_code-SoundAt e.op_code e.info a.before a.after was a.changed in
              rw (here, ← stored, a.same_epoch) after_sound
        ]
      ]
