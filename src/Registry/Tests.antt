-- ===== src/Registry/Tests.antt =====
-- A parser that keeps a list, and a bid that is read back through the registry.
use nodekit_seq.Prelude.{
  ℕ, ◌≡◌, refl, ◌≢◌, ◌≤◌, ◌<◌, ◌⊎◌, true, false, Option, none, some, List, [], ◌∷◌, ◌==◌,
  if◌then◌else◌, replicate-IsBytes, replicate, arith,
}
use mathlib.Core.List.{head-eq_of_cons-eq}
use nodekit_seq.Outcome.{Error, external, ok}
use nodekit_seq.Actions.Auction.{Auction}
use nodekit_seq.Actions.Wire.Tape.{Tape, tape_packer, tape_formats, tape_laws}
use nodekit_seq.Registry.{
  TypeParser, auction, HypersdkIds, get_type_id, ActionDecoder, marshal_action, action_entries,
  auth_entries, init_registry,
}
use nodekit_seq.Registry.Distinct.{TypeParserLaws}
use nodekit_seq.Registry.Codec.{init_registry-decodes}
use nodekit_seq.Samples.{bob}

module _ {F : Type 0} where
  unfoldable find : ℕ → List (ℕ × F) → Option F
  find id [] = none
  find id ((other, f) ∷ entries) = if other == id then some f else find id entries

  abbrev registered : ℕ → F → List (ℕ × F) → Option F → Option Error × List (ℕ × F)
  registered id f entries none = (none, (id, f) ∷ entries)
  registered id f entries (some g) = (some (external 7), entries)

  abbrev listed : TypeParser F (List (ℕ × F))
  listed = record {
    new_type_parser = [];
    register = λ id f entries. registered id f entries (find id entries);
    lookup = find;
  }

  find_other :
      (id other : ℕ) (f : F) (entries : List (ℕ × F)) (o : Option F)
      → other ≢ id
      → find other (registered id f entries o).1 ≡ find other entries
  unfolding find
  find_other id other f entries none ne =
      let differ : (id == other) ≡ false = ground arith in rw differ refl
  find_other id other f entries (some g) ne = refl

  find_fresh :
      (id : ℕ) (f : F) (entries : List (ℕ × F))
      → find id entries ≡ none
      → ((registered id f entries (find id entries)).0 ≡ none)
        × (find id (registered id f entries (find id entries)).1 ≡ some f)
  unfolding find
  find_fresh id f entries free =
      let same : (id == id) ≡ true = ground arith in rw (free, same) (refl, refl)

  find_new : (id : ℕ) → find id [] ≡ none
  unfolding find
  find_new id = refl

  listed_laws : TypeParserLaws listed
  listed_laws = record {
    lookup_new = find_new;
    register_fresh = find_fresh;
    register_other = λ id other f r ne. find_other id other f r (find id r) ne;
  }

abbrev sample_ids : HypersdkIds
sample_ids = record { rollup_register_id = 3; epoch_exit_id = 4 }

abbrev sample_bid : Auction
sample_bid = record {
  auction_info = record { epoch_number = 5; bid_price = 70; builder_seq_address = bob };
  builder_public_key = 1 ∷ 2 ∷ [];
  builder_signature = 3 ∷ [];
}

bob-ne-empty : bob ≢ replicate 33 0
bob-ne-empty e = let first : ◌≡◌ {A = ℕ} 2 0 = head-eq_of_cons-eq e in ground arith

init_registry-decodes_example :
    (registries : List (ℕ × ActionDecoder Tape) × List (ℕ × ℕ)) × (init_registry listed listed
        (action_entries tape_packer sample_ids)
        (auth_entries 10 11)
      ≡ ok registries)
    × (u : ActionDecoder Tape) × (find (get_type_id sample_ids (auction sample_bid)) registries.0
        ≡ some u)
    × (((60 ≤ 100)
          × ((marshal_action tape_packer (auction sample_bid) (100, none, [])).1 ≡ none)
          × ((u (100, none, (marshal_action tape_packer (auction sample_bid) (100, none, [])).2)).0
              ≡ ok (auction sample_bid)))
        ⊎ ((100 < 60)
            × ((marshal_action tape_packer (auction sample_bid) (100, none, [])).1 ≢ none)))
init_registry-decodes_example =
    init_registry-decodes tape_packer tape_formats tape_laws sample_ids listed_laws listed_laws 10
      11 (auction sample_bid) 0 100
      (
        (
          (λ e. ground arith),
          ((λ e. ground arith), ((λ e. ground arith), ((λ e. ground arith), tt))),
        ),
        (
          ((λ e. ground arith), ((λ e. ground arith), ((λ e. ground arith), tt))),
          (((λ e. ground arith), ((λ e. ground arith), tt)), (((λ e. ground arith), tt), (tt, tt))),
        ),
      )
      (
        omega arith,
        (
          omega arith,
          (
            (refl, replicate-IsBytes 33 2 (omega arith)),
            (
              (omega arith, (omega arith, (omega arith, tt))),
              ((omega arith, (omega arith, tt)), tt),
            ),
          ),
        ),
      )
      (
        ((λ e. ground arith), (λ e. ground arith), bob-ne-empty),
        (omega arith, (λ e. ground arith)),
        (omega arith, (λ e. ground arith)),
      )
