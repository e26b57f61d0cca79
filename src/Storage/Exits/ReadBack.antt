-- ===== src/Storage/Exits/ReadBack.antt =====
-- The exits of an epoch are read back, and are read from the epoch's own key.
use nodekit_seq.Prelude.{ℕ, ◌≡◌, refl, ◌≢◌, inl, inr, some, List, Bytes}
use nodekit_seq.Outcome.{ok, Outcome-cases}
use nodekit_seq.Vm.{Vm, EpochInfo, StateLaws, CodecLaws}
use nodekit_seq.Storage.View.{OnlyAt, get_value-insert_self, written-ok, modify_insert-OnlyAt}
use nodekit_seq.Storage.Exits.{get_epoch_exits, set_epoch_exits, exits_size}

module _ {S : Type 0} (vm : Vm S) where
  open vm use {epoch_exits_key}

  pub get_epoch_exits-OnlyAt :
      (k : Bytes) (e : ℕ) (s s' : S)
      → OnlyAt vm k s s'
      → k ≢ epoch_exits_key e
      → get_epoch_exits vm e s' ≡ get_epoch_exits vm e s
  unfolding get_epoch_exits
  get_epoch_exits-OnlyAt k e s s' only ne = rw (only (epoch_exits_key e) ne)

  module _ (laws : StateLaws vm) where
    pub set_epoch_exits-OnlyAt :
        (e : ℕ) (es : List EpochInfo) (s : S)
        → OnlyAt vm (epoch_exits_key e) s (set_epoch_exits vm e es s).1
    unfolding set_epoch_exits
    set_epoch_exits-OnlyAt e es s =
        elim (Outcome-cases (vm.marshal_epoch_exits (exits_size vm es) es)) [
          | inl (v, p) ↦ rw p (modify_insert-OnlyAt vm laws (epoch_exits_key e) v s)
          | inr (inl (x, p)) ↦ rw p (λ j ne. refl)
          | inr (inr p) ↦ rw p (λ j ne. refl)
        ]

    pub get-set_epoch_exits :
        (e : ℕ) (es : List EpochInfo) (s s' : S)
        → CodecLaws vm
        → set_epoch_exits vm e es s ≡ (ok tt, s')
        → get_epoch_exits vm e s' ≡ ok (some es)
    unfolding set_epoch_exits get_epoch_exits
    get-set_epoch_exits e es s s' codec h =
        elim (Outcome-cases (vm.marshal_epoch_exits (exits_size vm es) es)) [
          | inl (v, p) ↦
              let stored : vm.insert (epoch_exits_key e) v s ≡ ok s' = written-ok s _ (rw p at h) in
              rw (
                get_value-insert_self vm laws (epoch_exits_key e) v s stored,
                codec.unmarshal-marshal_epoch_exits (exits_size vm es) es p,
              )
          | inr (inl (x, p)) ↦ cc (rw p at h)
          | inr (inr p) ↦ cc (rw p at h)
        ]
