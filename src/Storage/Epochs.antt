-- ===== src/Storage/Epochs.antt =====
-- storage/utils.go: a list of epochs on the wire. `PackNamespaces` and `UnpackNamespaces` only call
-- hypersdk's, which are parameters of the state view.
pub mod RoundTrip
mod Tests
use nodekit_seq.Prelude.{ℕ, ◌*◌, zero, suc, true, false, Option, List, [], ◌∷◌, length}
use nodekit_seq.Prelude.Int.{ℤ, pos, negsuc}
use nodekit_seq.Outcome.{Error, Outcome, panic, from_pair}
use nodekit_seq.Actions.Wire.{Packer}

module _ {P : Type 0} (packer : Packer P) where
  open packer use {
    pack_uint64, pack_int, unpack_uint64, unpack_int, packer_err, new_writer, new_reader,
    network_size_limit,
  }

  unfoldable pub pack_each : List ℕ → P → P
  pack_each [] p = p
  pack_each (e ∷ epochs) p = pack_each epochs (pack_uint64 e p)

  -- `p.Bytes()`, as the writer that holds them, and `p.Err()`.
  abbrev pub pack_epochs : List ℕ → P × Option Error
  pack_epochs epochs =
      let p = new_writer (length epochs * 8) network_size_limit in
      let p' = pack_each epochs (pack_int (pos (length epochs)) p) in (p', packer_err p')

  -- The loop of `UnpackEpochs`, by the rounds that are left. An error does not end it.
  unfoldable pub unpack_each : ℕ → P → List ℕ × P
  unpack_each zero p = ([], p)
  unpack_each (suc n) p =
      let (e, p') = unpack_uint64 true p in
      let (epochs, p'') = unpack_each n p' in (e ∷ epochs, p'')

  -- A negative capacity is a panic of `make`.
  abbrev pub unpack_counted : ℤ × P → Outcome (List ℕ)
  unpack_counted (pos n, p) = let (epochs, p') = unpack_each n p in from_pair epochs (packer_err p')
  unpack_counted (negsuc n, p) = panic

  -- `raw` are the bytes of a packer.
  abbrev pub unpack_epochs : P → Outcome (List ℕ)
  unpack_epochs raw = unpack_counted (unpack_int false (new_reader network_size_limit raw))
