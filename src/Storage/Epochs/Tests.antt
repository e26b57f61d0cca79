-- ===== src/Storage/Epochs/Tests.antt =====
-- Epochs on the tape.
use nodekit_seq.Prelude.{
  ℕ, ◌≡◌, ◌≢◌, ◌≤◌, ◌<◌, ◌^◌, ◌⊎◌, ◌↔◌, true, none, some, List, [], ◌∷◌, In, inl, inr, refl, arith,
}
use nodekit_seq.Outcome.{ok}
use nodekit_seq.Actions.Wire.Fields.{Field, address, word, bytes, int, epoch_info, rollup_info}
use nodekit_seq.Actions.Wire.Tape.{Tape, Faces, tape_packer, tape_formats, tape_laws}
use nodekit_seq.Storage.Epochs.{pack_epochs, unpack_epochs}
use nodekit_seq.Storage.Epochs.RoundTrip.{StickyErrors, unpack_epochs-pack_epochs}

refuses_zero :
    (fs : List Field) (p : Tape)
    → Faces (word 0 ∷ fs) p
    → tape_packer.packer_err (tape_packer.unpack_uint64 true p).1 ≢ none
refuses_zero fs (l, e, gs) (fine, same) = rw same (λ z. cc z)

stays :
    (p : Tape)
    → tape_packer.packer_err p ≢ none
    → tape_packer.packer_err (tape_packer.unpack_uint64 true p).1 ≢ none
stays (l, none, fs) h e = h refl
stays (l, some e', []) h e = cc e
stays (l, some e', word n ∷ fs) h e = ground (arith, e)
stays (l, some e', address n ∷ fs) h e = cc e
stays (l, some e', bytes n ∷ fs) h e = cc e
stays (l, some e', int n ∷ fs) h e = cc e
stays (l, some e', epoch_info n ∷ fs) h e = cc e
stays (l, some e', rollup_info n ∷ fs) h e = cc e

sticky : StickyErrors tape_packer tape_formats tape_laws
sticky = record { read_zero = refuses_zero; keeps_error = stays }

two_epochs : (e : ℕ) → In e (4 ∷ 9 ∷ []) → e < 2 ^ 64
two_epochs e (inl same) = omega arith
two_epochs e (inr (inl same)) = omega arith
two_epochs e (inr (inr none_left)) = elim none_left [ ]

unpack_epochs-pack_epochs_example :
    ((20 ≤ 2_000_000)
      × ((pack_epochs tape_packer (4 ∷ 9 ∷ [])).1 ≡ none)
      × ((unpack_epochs tape_packer (pack_epochs tape_packer (4 ∷ 9 ∷ [])).0 ≡ ok (4 ∷ 9 ∷ []))
          ↔ (In {A = ℕ} 0 (4 ∷ 9 ∷ []) → ⊥)))
    ⊎ ((2_000_000 < 20) × ((pack_epochs tape_packer (4 ∷ 9 ∷ [])).1 ≢ none))
unpack_epochs-pack_epochs_example =
    unpack_epochs-pack_epochs tape_packer tape_formats tape_laws sticky (4 ∷ 9 ∷ []) two_epochs
