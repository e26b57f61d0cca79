-- ===== src/Cmd/Waiting.antt =====
-- When the wait for a transaction ends.
use nodekit_seq.Prelude.{
  ◌≡◌, ◌≢◌, ◌↔◌, ◌⊎◌, refl, sym, Bool, true, false, inl, inr, Option, none, some, List, [], ◌∷◌,
  Bytes, bytes_eq, bytes_eq→eq, bytes_eq_refl, In, if◌then◌else◌,
}
use mathlib.Core.Path.{subst}
use nodekit_seq.Outcome.{Error, Outcome, ok, err, panic}
use nodekit_seq.Cmd.{Heard, round, listen, with_id, send_and_wait}

-- A message that ends the wait for a transaction: an error, whatever it is about, or its result.
abbrev pub EndsWait : Bytes → Heard → Type 0
EndsWait id m = (m.d_err ≢ none) ⊎ ((m.listen_err ≢ none) ⊎ (m.tx_id ≡ id))

round-none :
    (d e : Option Error) (same success : Bool) (rest : Option (Outcome Bool))
    → (round d e (if same then some (ok success) else rest) ≢ none)
      ↔ ((d ≢ none) ⊎ ((e ≢ none) ⊎ ((same ≡ true) ⊎ (rest ≢ none))))
round-none (some x) e same success rest = (λ h. inl (λ z. cc z), λ h z. cc z)
round-none none (some x) same success rest = (λ h. inr (inl (λ z. cc z)), λ h z. cc z)
round-none none none true success rest = (λ h. inr (inr (inl refl)), λ h z. cc z)
round-none none none false success rest = (
  λ h. inr (inr (inr h)),
  λ h. elim h [
    | inl a ↦ absurd (a refl)
    | inr t ↦ elim t [ inl b ↦ absurd (b refl) | inr u ↦ elim u [ inl c ↦ cc c | inr r ↦ r ] ]
  ],
)

listen-Ends :
    (id : Bytes) (heard : List Heard)
    → (listen id heard ≢ none) ↔ ((m : Heard) × In m heard × EndsWait id m)
unfolding listen
listen-Ends id [] = (λ h. absurd (h refl), λ (m, i, e). elim i [ ])
listen-Ends id (m ∷ ms) =
    let (out, into) =
      round-none m.d_err m.listen_err (bytes_eq m.tx_id id) m.success (listen id ms) in
    let (later, back) = listen-Ends id ms in
    (
      λ h. elim (out h) [
        | inl a ↦ (m, inl refl, inl a)
        | inr t ↦ elim t [
          | inl b ↦ (m, inl refl, inr (inl b))
          | inr u ↦ elim u [
            | inl same ↦ (m, inl refl, inr (inr (bytes_eq→eq m.tx_id id same)))
            | inr rest ↦ let (n, i, e) = later rest in (n, inr i, e)
          ]
        ]
      ],
      λ (n, i, e). elim i [
        | inr i' ↦ into (inr (inr (inr (back (n, i', e)))))
        | inl here ↦ elim (subst (EndsWait id) (sym here) e) [
          | inl a ↦ into (inl a)
          | inr t ↦ elim t [
            | inl b ↦ into (inr (inl b))
            | inr same ↦ into (inr (inr (inl (rw same (bytes_eq_refl id)))))
          ]
        ]
      ],
    )

with_id-none : (id : Bytes) (o : Option (Outcome Bool)) → (with_id id o ≢ none) ↔ (o ≢ none)
with_id-none id none = (λ h. absurd (h refl), λ h. absurd (h refl))
with_id-none id (some (ok b)) = (λ h z. cc z, λ h z. cc z)
with_id-none id (some (err e)) = (λ h z. cc z, λ h z. cc z)
with_id-none id (some panic) = (λ h z. cc z, λ h z. cc z)

module _ {R : Type 0} (parser : Outcome R) (generate_transaction : R → Outcome Bytes)
    (register_tx : Bytes → Outcome (Unit {0})) where
  -- The wait for a transaction that was made and registered ends exactly when one of the messages that
  -- arrive has an error, whatever transaction it is about, or is the result of the transaction.
  pub send_and_wait-Ends :
      (r : R) (id : Bytes) (heard : List Heard)
      → parser ≡ ok r
      → generate_transaction r ≡ ok id
      → register_tx id ≡ ok tt
      → (send_and_wait parser generate_transaction register_tx heard ≢ none)
        ↔ ((m : Heard) × In m heard × EndsWait id m)
  unfolding send_and_wait
  send_and_wait-Ends r id heard parsed made sent =
      let (out, into) = with_id-none id (listen id heard) in
      let (ended, ends) = listen-Ends id heard in
      rw (parsed, made, sent) (λ h. ended (out h), λ e. into (ends e))
