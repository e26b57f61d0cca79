-- ===== src/Storage/Epochs/RoundTrip.antt =====
-- Which lists of epochs come back from the wire.
use nodekit_seq.Prelude.{
  ℕ, zero, suc, ◌+◌, ◌*◌, ◌≤◌, ◌≡◌, ◌≢◌, ◌<◌, ◌^◌, ◌↔◌, ◌⊎◌, refl, Option, true, false, none, some,
  List, [], ◌∷◌, length, In, inl, inr, ◌==◌, Bool-cases, dec_lt, arith,
}
use nodekit_seq.Prelude.Int.{pos}
use nodekit_seq.Outcome.{Error, ok, from_pair}
use nodekit_seq.Actions.Wire.{Packer}
use nodekit_seq.Actions.Wire.Fields.{
  Field, word, int, Formats, PackerLaws, sizes, AllStorable, pack_all, pack_all-none,
  pack_all-too_large, pack_all-Reads,
}
use nodekit_seq.Storage.Epochs.{pack_each, pack_epochs, unpack_each, unpack_epochs}

-- A required word that is 0 is an error, and an error stays.
pub record StickyErrors {P : Type 0} (packer : Packer P) (formats : Formats)
    (laws : PackerLaws packer formats) : Type 0 where
  pub read_zero :
      (fs : List Field) (p : P)
      → laws.Reads (word 0 ∷ fs) p
      → packer.packer_err (packer.unpack_uint64 true p).1 ≢ none
  pub keeps_error :
      (p : P)
      → packer.packer_err p ≢ none
      → packer.packer_err (packer.unpack_uint64 true p).1 ≢ none

abbrev pub words : List ℕ → List Field
words [] = []
words (e ∷ epochs) = word e ∷ words epochs

from_pair-ok : {A : Type 0} (a b : A) (o : Option Error) → from_pair a o ≡ ok b → o ≡ none
from_pair-ok a b none h = refl
from_pair-ok a b (some e) h = cc h

module _ {P : Type 0} (packer : Packer P) (formats : Formats)
    (laws : PackerLaws packer formats) where
  pack_each-pack_all :
      (epochs : List ℕ) (p : P) → pack_each packer epochs p ≡ pack_all packer (words epochs) p
  unfolding pack_each
  pack_each-pack_all [] p = refl
  pack_each-pack_all (e ∷ epochs) p = pack_each-pack_all epochs (packer.pack_uint64 e p)

  sizes-words : (epochs : List ℕ) → sizes formats (words epochs) ≡ 8 * length epochs
  sizes-words [] = omega arith
  sizes-words (e ∷ epochs) = omega (arith, sizes-words epochs)

  words-AllStorable :
      (epochs : List ℕ) → ((e : ℕ) → In e epochs → e < 2 ^ 64) → AllStorable formats (words epochs)
  words-AllStorable [] small = tt
  words-AllStorable (e ∷ epochs) small =
      (small e (inl refl), words-AllStorable epochs (λ x m. small x (inr m)))

  -- Without a zero, the words come back and there is no error.
  unpack_each-Reads :
      (epochs : List ℕ) (p : P)
      → (In 0 epochs → ⊥)
      → laws.Reads (words epochs) p
      → ((unpack_each packer (length epochs) p).0 ≡ epochs)
        × (packer.packer_err (unpack_each packer (length epochs) p).1 ≡ none)
  unfolding unpack_each
  unpack_each-Reads [] p nz h = (refl, laws.read_none _ _ h)
  unpack_each-Reads (e ∷ epochs) p nz h =
      let (same, r) = laws.read_uint64 _ _ e (λ z. nz (inl z)) h in
      let (rest, fine) =
        unpack_each-Reads epochs (packer.unpack_uint64 true p).1 (λ m. nz (inr m)) r in
      (rw (same, rest) refl, fine)

  module _ (sticky : StickyErrors packer formats laws) where
    unpack_each-keeps :
        (n : ℕ) (p : P)
        → packer.packer_err p ≢ none
        → packer.packer_err (unpack_each packer n p).1 ≢ none
    unfolding unpack_each
    unpack_each-keeps zero p h = h
    unpack_each-keeps (suc n) p h =
        unpack_each-keeps n (packer.unpack_uint64 true p).1 (sticky.keeps_error p h)

    unpack_each-zero :
        (epochs : List ℕ) (p : P)
        → In 0 epochs
        → laws.Reads (words epochs) p
        → packer.packer_err (unpack_each packer (length epochs) p).1 ≢ none
    unfolding unpack_each
    unpack_each-zero [] p m h = elim m [ ]
    unpack_each-zero (e ∷ epochs) p m h = elim (Bool-cases (e == 0)) [
      | inl z ↦
          let zero_word : laws.Reads (word 0 ∷ words epochs) p =
            let is_zero : e ≡ 0 = ground arith in rw (← is_zero) h in
          unpack_each-keeps (length epochs) (packer.unpack_uint64 true p).1
            (sticky.read_zero _ p zero_word)
      | inr z ↦
          let ne : e ≢ 0 = ground arith in
          let (same, r) = laws.read_uint64 _ _ e ne h in
          elim m [
            | inl first ↦ absurd (ne first)
            | inr later ↦ unpack_each-zero epochs (packer.unpack_uint64 true p).1 later r
          ]
    ]

    -- The words come back in front of a reader exactly when none is 0.
    unpack_epochs-Reads :
        (epochs : List ℕ) (raw : P)
        → laws.Reads
            (int (pos (length epochs)) ∷ words epochs)
            (packer.new_reader packer.network_size_limit raw)
        → (unpack_epochs packer raw ≡ ok epochs) ↔ (In 0 epochs → ⊥)
    unpack_epochs-Reads epochs raw reads =
        let (count, r) = laws.read_int _ _ (pos (length epochs)) reads in
        let reader =
          (packer.unpack_int false (packer.new_reader packer.network_size_limit raw)).1 in
        rw count (
          λ back m. unpack_each-zero epochs reader m r (from_pair-ok _ _ _ back),
          λ nz. let (same, fine) = unpack_each-Reads epochs reader nz r in rw (same, fine) refl,
        )

    -- Epochs of 64 bits that take 4 bytes and 8 for each, within the network's limit, are packed
    -- without an error, and are unpacked as they were exactly when none of them is 0; over the limit,
    -- the packing is an error.
    pub unpack_epochs-pack_epochs :
        (epochs : List ℕ)
        → ((e : ℕ) → In e epochs → e < 2 ^ 64)
        → ((4 + 8 * length epochs ≤ packer.network_size_limit)
            × ((pack_epochs packer epochs).1 ≡ none)
            × ((unpack_epochs packer (pack_epochs packer epochs).0 ≡ ok epochs)
                ↔ (In 0 epochs → ⊥)))
          ⊎ ((packer.network_size_limit < 4 + 8 * length epochs)
              × ((pack_epochs packer epochs).1 ≢ none))
    unpack_epochs-pack_epochs epochs small =
        let limit = packer.network_size_limit in
        let initial = length epochs * 8 in
        let fields = int (pos (length epochs)) ∷ words epochs in
        let size = sizes-words epochs in
        rw
          (pack_each-pack_all epochs
            (packer.pack_int (pos (length epochs)) (packer.new_writer initial limit)))
          (elim (dec_lt limit (4 + 8 * length epochs)) [
            | yes over ↦ inr (
              over,
              pack_all-too_large packer formats laws initial limit fields (omega (arith, size)),
            )
            | no fits ↦
                let within : sizes formats fields ≤ limit = omega (arith, size) in
                let count : length epochs < 2 ^ 32 = omega (arith, laws.small_limit) in
                inl (
                  omega arith,
                  pack_all-none packer formats laws initial limit fields within,
                  unpack_epochs-Reads epochs _ (
                      pack_all-Reads packer formats laws initial limit fields within
                        (count, words-AllStorable epochs small)),
                )
          ])
