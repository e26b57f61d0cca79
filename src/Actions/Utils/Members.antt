-- ===== src/Actions/Utils/Members.antt =====
-- Membership in a list of byte strings.
use nodekit_seq.Prelude.{
  ◌≡◌, ◌≢◌, ◌⊎◌, ◌++◌, inl, inr, false, Bool-cases, List, [], ◌∷◌, Bytes, bytes_eq, bytes_eq→ne,
  bytes_eq→eq, ne→bytes_eq, true, refl,
}
use nodekit_seq.Actions.Utils.{contains}

pub contains_cons :
    (a : Bytes) (arr : List Bytes) (x : Bytes)
    → contains (a ∷ arr) x ≡ false
    → (a ≢ x) × (contains arr x ≡ false)
unfolding contains
contains_cons a arr x h = elim (Bool-cases (bytes_eq a x)) [
  | inl e ↦ cc (rw e at h)
  | inr e ↦ (bytes_eq→ne a x e, rw e at h)
]

pub contains_pair : (a b x : Bytes) → contains (a ∷ b ∷ []) x ≡ false → (a ≢ x) × (b ≢ x)
contains_pair a b x h =
    let (na, rest) = contains_cons a (b ∷ []) x h in
    let (nb, _) = contains_cons b [] x rest in (na, nb)

pub contains_triple :
    (a b c x : Bytes) → contains (a ∷ b ∷ c ∷ []) x ≡ false → (a ≢ x) × (b ≢ x) × (c ≢ x)
contains_triple a b c x h =
    let (na, rest) = contains_cons a (b ∷ c ∷ []) x h in
    let (nb, nc) = contains_pair b c x rest in (na, nb, nc)

pub contains_fresh :
    (a : Bytes) (arr : List Bytes) (x : Bytes)
    → a ≢ x
    → contains arr x ≡ false
    → contains (a ∷ arr) x ≡ false
unfolding contains
contains_fresh a arr x ne rest = rw (ne→bytes_eq a x ne, rest) refl

pub contains_none : (x : Bytes) → contains [] x ≡ false
unfolding contains
contains_none x = refl

pub contains-append :
    (a : List Bytes) (x n : Bytes)
    → contains (a ++ (x ∷ [])) n ≡ true
    → (contains a n ≡ true) ⊎ (x ≡ n)
unfolding contains
contains-append [] x n h = elim (Bool-cases (bytes_eq x n)) [
  | inl same ↦ inr (bytes_eq→eq x n same)
  | inr other ↦ cc (rw other at h)
]
contains-append (b ∷ a) x n h = elim (Bool-cases (bytes_eq b n)) [
  | inl same ↦ inl (rw same refl)
  | inr other ↦ rw other (contains-append a x n (rw other at h))
]
