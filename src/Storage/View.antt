-- ===== src/Storage/View.antt =====
-- Reading a state view after a write, from the laws of a view alone.
use nodekit_seq.Prelude.{
  ◌∷◌, Bool, true, false, ◌∙◌, inl, inr, ◌≡◌, refl, ◌≢◌, none, some, [], Bytes, bytes_eq_refl,
  ne→bytes_eq, arith,
}
use nodekit_seq.Outcome.{
  Action, Error, and_then, raise_if, Outcome-cases, not_found, Outcome, ok, err, panic, modify,
  written,
}
use nodekit_seq.Storage.ReadState.{ReadState}
use nodekit_seq.Vm.{Vm, StateLaws}

module _ {S : Type 0} (vm : Vm S) where
  open vm use {get_value, insert, remove}

  -- Nothing but the value at one key differs between two views.
  abbrev pub OnlyAt : Bytes → S → S → Type 0
  OnlyAt k s s' = (j : Bytes) → k ≢ j → get_value j s' ≡ get_value j s

  -- A chain leaves a key alone if each of its parts does.
  pub and_then-same :
      {A B : Type 0} (j : Bytes) (s : S) (f : A → Action S B) (m : Outcome A × S)
      → get_value j m.1 ≡ get_value j s
      → ((a : A) (u : S) → get_value j (f a u).1 ≡ get_value j u)
      → get_value j (and_then f m).1 ≡ get_value j s
  and_then-same j s f (ok a, u) e h = h a u ∙ e
  and_then-same j s f (err x, u) e h = e
  and_then-same j s f (panic, u) e h = e

  pub raise_if-same :
      (j : Bytes) (b : Bool) (x : Error) (s : S)
      → get_value j (raise_if {S = S} b x s).1 ≡ get_value j s
  raise_if-same j true x s = refl
  raise_if-same j false x s = refl

  module _ (laws : StateLaws vm) where
    pub insert-OnlyAt : (k v : Bytes) (s : S) {s' : S} → insert k v s ≡ ok s' → OnlyAt k s s'
    insert-OnlyAt k v s e j ne = rw (laws.get_value-insert k v j s e, ne→bytes_eq k j ne)

    pub get_value-insert_self :
        (k v : Bytes) (s : S) {s' : S} → insert k v s ≡ ok s' → get_value k s' ≡ (v, none)
    get_value-insert_self k v s e = rw (laws.get_value-insert k v k s e, bytes_eq_refl k)

    pub remove-OnlyAt : (k : Bytes) (s : S) {s' : S} → remove k s ≡ ok s' → OnlyAt k s s'
    remove-OnlyAt k s e j ne = rw (laws.get_value-remove k j s e, ne→bytes_eq k j ne)

    pub get_value-remove_self :
        (k : Bytes) (s : S) {s' : S} → remove k s ≡ ok s' → get_value k s' ≡ ([], some not_found)
    get_value-remove_self k s e = rw (laws.get_value-remove k k s e, bytes_eq_refl k)

    -- However the write ends.
    pub modify_insert-OnlyAt : (k v : Bytes) (s : S) → OnlyAt k s (modify (insert k v) s).1
    modify_insert-OnlyAt k v s = elim (Outcome-cases (insert k v s)) [
      | inl (t, e) ↦ rw e (insert-OnlyAt k v s e)
      | inr (inl (x, e)) ↦ rw e (λ j ne. refl)
      | inr (inr e) ↦ rw e (λ j ne. refl)
    ]

    pub modify_remove-OnlyAt : (k : Bytes) (s : S) → OnlyAt k s (modify (remove k) s).1
    modify_remove-OnlyAt k s = elim (Outcome-cases (remove k s)) [
      | inl (t, e) ↦ rw e (remove-OnlyAt k s e)
      | inr (inl (x, e)) ↦ rw e (λ j ne. refl)
      | inr (inr e) ↦ rw e (λ j ne. refl)
    ]

-- A write that returns has changed the state as the view says.
pub written-ok :
    {S : Type 0} (s : S) (r : Outcome S) {s' : S} → written s r ≡ (ok tt, s') → r ≡ ok s'
written-ok s (ok t) h = ground arith
written-ok s (err e) h = ground arith
written-ok s panic h = ground arith

-- A batch read that answers as the view does, key by key.
abbrev pub Serves : {S : Type 0} → Vm S → ReadState → S → Type 0
Serves vm f s = (k : Bytes) → f (k ∷ []) ≡ ((vm.get_value k s).0 ∷ [], (vm.get_value k s).1 ∷ [])
