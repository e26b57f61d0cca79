-- ===== src/Registry/Distinct.antt =====
-- Registration under IDs that are all different.
use nodekit_seq.Prelude.{ℕ, ◌≡◌, refl, sym, ◌∙◌, ◌≢◌, none, some, List, [], ◌∷◌, inl, inr, In, ap}
use nodekit_seq.Registry.{TypeParser, register_all}

-- hypersdk refuses an ID that it has. Of any other ID it keeps the function, and every other entry.
pub record TypeParserLaws {F R : Type 0} (parser : TypeParser F R) : Type 0 where
  pub lookup_new : (id : ℕ) → parser.lookup id parser.new_type_parser ≡ none
  pub register_fresh :
      (id : ℕ) (f : F) (r : R)
      → parser.lookup id r ≡ none
      → ((parser.register id f r).0 ≡ none) × (parser.lookup id (parser.register id f r).1 ≡ some f)
  pub register_other :
      (id other : ℕ) (f : F) (r : R)
      → other ≢ id
      → parser.lookup other (parser.register id f r).1 ≡ parser.lookup other r

-- No ID of the list is this one.
abbrev pub Fresh : {F : Type 0} → ℕ → List (ℕ × F) → Type 0
Fresh id [] = Unit {0}
Fresh id ((other, f) ∷ entries) = (other ≢ id) × Fresh id entries

abbrev pub Distinct : {F : Type 0} → List (ℕ × F) → Type 0
Distinct [] = Unit {0}
Distinct ((id, f) ∷ entries) = Fresh id entries × Distinct entries

-- The entries that a parser has none of.
abbrev pub Unused : {F R : Type 0} → TypeParser F R → R → List (ℕ × F) → Type 0
Unused parser r [] = Unit {0}
Unused parser r ((id, f) ∷ entries) = (parser.lookup id r ≡ none) × Unused parser r entries

module _ {F R : Type 0} (parser : TypeParser F R) (laws : TypeParserLaws parser) where
  pub new_type_parser-Unused :
      (entries : List (ℕ × F)) → Unused parser parser.new_type_parser entries
  new_type_parser-Unused [] = tt
  new_type_parser-Unused ((id, f) ∷ entries) = (laws.lookup_new id, new_type_parser-Unused entries)

  register-Unused :
      (id : ℕ) (f : F) (r : R) (entries : List (ℕ × F))
      → Fresh id entries
      → Unused parser r entries
      → Unused parser (parser.register id f r).1 entries
  register-Unused id f r [] fresh unused = tt
  register-Unused id f r ((other, g) ∷ entries) (ne, fresh) (free, unused) =
      (laws.register_other id other f r ne ∙ free, register-Unused id f r entries fresh unused)

  -- The entries leave any other ID as it was.
  lookup-register_all_other :
      (id : ℕ) (entries : List (ℕ × F)) (r : R)
      → Fresh id entries
      → parser.lookup id (register_all parser entries r).1 ≡ parser.lookup id r
  unfolding register_all
  lookup-register_all_other id [] r fresh = refl
  lookup-register_all_other id ((other, f) ∷ entries) r (ne, fresh) =
      lookup-register_all_other id entries (parser.register other f r).1 fresh
      ∙ laws.register_other other id f r (λ e. ne (sym e))

  -- Nothing is refused.
  pub register_all-none :
      (entries : List (ℕ × F)) (r : R)
      → Distinct entries
      → Unused parser r entries
      → (register_all parser entries r).0 ≡ none
  unfolding register_all
  register_all-none [] r distinct unused = refl
  register_all-none ((id, f) ∷ entries) r (fresh, distinct) (free, unused) =
      rw ((laws.register_fresh id f r free).0) (
        register_all-none entries (parser.register id f r).1 distinct
          (register-Unused id f r entries fresh unused))

  -- Every entry is found.
  pub lookup-register_all :
      (id : ℕ) (f : F) (entries : List (ℕ × F)) (r : R)
      → Distinct entries
      → Unused parser r entries
      → In (id, f) entries
      → parser.lookup id (register_all parser entries r).1 ≡ some f
  unfolding register_all
  lookup-register_all id f [] r distinct unused h = elim h [ ]
  lookup-register_all id f ((id', g) ∷ entries) r (fresh, distinct) (free, unused) (inl e) =
      let same : id' ≡ id = ap (λ q. q.0) e in
      let same_f : g ≡ f = ap (λ q. q.1) e in
      rw (← same, ← same_f)
        (lookup-register_all_other id' entries (parser.register id' g r).1 fresh
          ∙ (laws.register_fresh id' g r free).1)
  lookup-register_all id f ((id', g) ∷ entries) r (fresh, distinct) (free, unused) (inr h) =
      lookup-register_all id f entries (parser.register id' g r).1 distinct
        (register-Unused id' g r entries fresh unused) h
