-- ===== src/Outcome/Chains.antt =====
-- Reading a chain of calls backwards: what a chain that returned a value has passed, what a chain
-- keeps however it ends, and when it cannot panic.
use nodekit_seq.Prelude.{
  Option, none, some, ap, ◌≡◌, refl, ◌≢◌, Bool, true, false, ◌⊎◌, inl, inr, arith,
}
use nodekit_seq.Outcome.{
  Context, Error, Outcome, ok, err, panic, wrap, map_ok, then_outcome, Action, and_then, pure,
  raise_if, written, from_pair, ok-injective,
}

-- A run-time panic is the one end that is not a return.
abbrev pub Returns : {A : Type 0} → Outcome A → Type 0
Returns o = o ≢ panic

-- A call either writes and returns a value, or leaves the state alone.
abbrev pub Atomic : {S A : Type 0} → S → Outcome A × S → Type 0
Atomic {A} s m = ((a : A) × (m ≡ (ok a, m.1))) ⊎ (m.1 ≡ s)

pub wrap-ok : {A : Type 0} (c : Context) (o : Outcome A) {a : A} → wrap c o ≡ ok a → o ≡ ok a
wrap-ok c (ok a) h = h
wrap-ok c (err e) h = ground arith
wrap-ok c panic h = ground arith

pub wrap-Returns : {A : Type 0} (c : Context) (o : Outcome A) → Returns o → Returns (wrap c o)
wrap-Returns c (ok a) h = h
wrap-Returns c (err e) h = λ p. cc p
wrap-Returns c panic h = λ p. h refl

pub then_outcome-ok :
    {A B : Type 0} (f : A → Outcome B) (o : Outcome A) {b : B}
    → then_outcome o f ≡ ok b
    → (a : A) × (o ≡ ok a) × (f a ≡ ok b)
then_outcome-ok f (ok a) h = (a, refl, h)
then_outcome-ok f (err e) h = ground arith
then_outcome-ok f panic h = ground arith

pub map_ok-ok :
    {A B : Type 0} (f : A → B) (o : Outcome A) {b : B}
    → map_ok f o ≡ ok b
    → (a : A) × (o ≡ ok a) × (f a ≡ b)
map_ok-ok f (ok a) h = (a, refl, ok-injective h)
map_ok-ok f (err e) h = ground arith
map_ok-ok f panic h = ground arith

pub from_pair-ok :
    {A : Type 0} (p : A × Option Error) {a : A} → from_pair p.0 p.1 ≡ ok a → p ≡ (a, none)
from_pair-ok (a, none) h = ap (λ b. (b, none)) (ok-injective h)
from_pair-ok (a, some e) h = ground arith

module _ {S A B : Type 0} where
  pub lift-then :
      (f : A → Action S B) (o : Outcome A) (s : S) {b : B} {s' : S}
      → and_then f (o, s) ≡ (ok b, s')
      → (a : A) × (o ≡ ok a) × (f a s ≡ (ok b, s'))
  lift-then f (ok a) s h = (a, refl, h)
  lift-then f (err e) s h = ground arith
  lift-then f panic s h = ground arith

  pub and_then-keeps :
      (P : S → Type 0) (f : A → Action S B) (m : Outcome A × S)
      → P m.1
      → ((a : A) → m ≡ (ok a, m.1) → P (f a m.1).1)
      → P (and_then f m).1
  and_then-keeps P f (ok a, u) h k = k a refl
  and_then-keeps P f (err e, u) h k = h
  and_then-keeps P f (panic, u) h k = h

  pub and_then-Returns :
      (f : A → Action S B) (m : Outcome A × S)
      → Returns m.0
      → ((a : A) → m ≡ (ok a, m.1) → Returns (f a m.1).0)
      → Returns (and_then f m).0
  and_then-Returns f (ok a, u) h k = k a refl
  and_then-Returns f (err e, u) h k = λ p. cc p
  and_then-Returns f (panic, u) h k = λ p. h refl

  -- Reads in front of an atomic call.
  pub lift-Atomic :
      (f : A → Action S B) (o : Outcome A) (s : S)
      → ((a : A) → o ≡ ok a → Atomic s (f a s))
      → Atomic s (and_then f (o, s))
  lift-Atomic f (ok a) s k = k a refl
  lift-Atomic f (err e) s k = inr refl
  lift-Atomic f panic s k = inr refl

module _ {S B : Type 0} (k : Unit {0} → Action S B) where
  pub raise_if-then :
      (b : Bool) (x : Error) (s : S) {r : B} {s' : S}
      → and_then k (raise_if b x s) ≡ (ok r, s')
      → (b ≡ false) × (k tt s ≡ (ok r, s'))
  raise_if-then true x s h = ground arith
  raise_if-then false x s h = (refl, h)

  pub raise_if-keeps :
      (P : S → Type 0) (b : Bool) (x : Error) (s : S)
      → P s
      → (b ≡ false → P (k tt s).1)
      → P (and_then k (raise_if b x s)).1
  raise_if-keeps P true x s h f = h
  raise_if-keeps P false x s h f = f refl

  pub raise_if-Returns :
      (b : Bool) (x : Error) (s : S)
      → (b ≡ false → Returns (k tt s).0)
      → Returns (and_then k (raise_if b x s)).0
  raise_if-Returns true x s f = λ p. cc p
  raise_if-Returns false x s f = f refl

  pub raise_if-Atomic :
      (b : Bool) (x : Error) (s : S)
      → (b ≡ false → Atomic s (k tt s))
      → Atomic s (and_then k (raise_if b x s))
  raise_if-Atomic true x s f = inr refl
  raise_if-Atomic false x s f = f refl

pub written-Atomic : {S : Type 0} (s : S) (r : Outcome S) → Atomic s (written s r)
written-Atomic s (ok s') = inl (tt, refl)
written-Atomic s (err e) = inr refl
written-Atomic s panic = inr refl

-- A call whose value is put in place of the unit.
pub then-pure :
    {S B : Type 0} (x : B) (m : Outcome (Unit {0}) × S) {b : B} {s' : S}
    → and_then (λ _. pure x) m ≡ (ok b, s')
    → (m ≡ (ok tt, s')) × (x ≡ b)
then-pure x (ok tt, u) h = (cc h, cc h)
then-pure x (err e, u) h = ground arith
then-pure x (panic, u) h = ground arith

pub wrapped-ok :
    {S A : Type 0} (c : Context) (m : Outcome A × S) {a : A} {s' : S}
    → ◌≡◌ {A = Outcome A × S} (wrap c m.0, m.1) (ok a, s')
    → m ≡ (ok a, s')
wrapped-ok c (ok a, u) h = h
wrapped-ok c (err e, u) h = ground arith
wrapped-ok c (panic, u) h = ground arith

pub ok-Returns : {A : Type 0} (a : A) → Returns (ok a)
ok-Returns a p = cc p

pub err-Returns : {A : Type 0} (e : Error) → Returns {A = A} (err e)
err-Returns e p = cc p

pub map_ok-Returns : {A B : Type 0} (f : A → B) (o : Outcome A) → Returns o → Returns (map_ok f o)
map_ok-Returns f (ok a) h = λ p. cc p
map_ok-Returns f (err e) h = λ p. cc p
map_ok-Returns f panic h = λ p. h refl

pub then_outcome-Returns :
    {A B : Type 0} (f : A → Outcome B) (o : Outcome A)
    → Returns o
    → ((a : A) → o ≡ ok a → Returns (f a))
    → Returns (then_outcome o f)
then_outcome-Returns f (ok a) h k = k a refl
then_outcome-Returns f (err e) h k = λ p. cc p
then_outcome-Returns f panic h k = λ p. h refl

pub written-Returns : {S : Type 0} (s : S) (r : Outcome S) → Returns r → Returns (written s r).0
written-Returns s (ok s') h = λ p. cc p
written-Returns s (err e) h = λ p. cc p
written-Returns s panic h = λ p. h refl
