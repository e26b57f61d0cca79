-- ===== src/Controller/WhiteList.antt =====
-- controller/controller.go, `Rules`: the rules of a node, and who is on their white list.
use nodekit_seq.Prelude.{
  ℕ, ◌≡◌, ◌↔◌, refl, sym, ap, ◌∙◌, true, Bool-cases, inl, inr, List, [], ◌∷◌, Bytes, bytes_eq,
  bytes_eq→eq, bytes_eq_refl, In,
}
use nodekit_seq.Outcome.{Outcome, ok, ok-injective}
use nodekit_seq.Outcome.Chains.{then_outcome-ok}
use nodekit_seq.Vm.{Address}
use nodekit_seq.Genesis.{Genesis, Rules}
use nodekit_seq.Config.{
  Config, HyperDefaults, zero_config, set_default, decoded, parse_addresses, new_config,
}
use nodekit_seq.Actions.Utils.{contains_address, is_white_listed}

abbrev pub node_rules : Genesis → ℕ → Bytes → Config → Rules
node_rules genesis network_id chain_id config = record {
  g = genesis;
  network_id = network_id;
  chain_id = chain_id;
  parsed_white_listed_address = config.parsed_white_listed_addresses;
}

module _ (parse_address : Bytes → Outcome Address) where
  -- A text that parses to the address.
  abbrev pub Names : Address → List Bytes → Type 0
  Names actor texts = (text : Bytes) × In text texts × (parse_address text ≡ ok actor)

  contains-parse_addresses :
      (actor : Address) (texts : List Bytes) (addrs : List Address)
      → parse_addresses parse_address texts ≡ ok addrs
      → (contains_address addrs actor ≡ true) ↔ Names actor texts
  unfolding parse_addresses contains_address
  contains-parse_addresses actor [] addrs h =
      rw (← ok-injective h) (λ there. cc there, λ (text, m, e). elim m [ ])
  contains-parse_addresses actor (text ∷ texts) addrs h =
      let (addr, parsed, h₁) = then_outcome-ok _ (parse_address text) h in
      let (rest, h₂, h₃) = then_outcome-ok _ (parse_addresses parse_address texts) h₁ in
      let (out, into) = contains-parse_addresses actor texts rest h₂ in
      elim (Bool-cases (bytes_eq addr actor)) [
        | inl here ↦
            let same : addr ≡ actor = bytes_eq→eq addr actor here in
            rw (← ok-injective h₃, here)
              (λ there. (text, inl refl, parsed ∙ ap ok same), λ named. refl)
        | inr there ↦
            rw (← ok-injective h₃, there)
              (
                λ listed. let (t, m, e) = out listed in (t, inr m, e),
                λ (t, m, e). elim m [
                  | inr n ↦ into (t, n, e)
                  | inl first ↦
                      let one : ok addr ≡ ok actor = sym parsed ∙ ap parse_address first ∙ e in
                      let clash : bytes_eq addr actor ≡ true =
                        rw (ok-injective one) (bytes_eq_refl actor) in
                      cc (there, clash)
                ],
              )
      ]

  module _ (json_unmarshal : Bytes → Config → Outcome Config) where
    -- Under the rules of a node whose configuration was read without error, an address is white-listed
    -- exactly when one of the configured texts parses to it.
    pub is_white_listed-new_config :
        (genesis : Genesis) (network_id : ℕ) (chain_id : Bytes) (d : HyperDefaults)
        (node_id b : Bytes) (c : Config) (actor : Address)
        → new_config json_unmarshal parse_address d node_id b ≡ ok c
        → (is_white_listed (node_rules genesis network_id chain_id c) actor ≡ ok true)
          ↔ Names actor c.whitelisted_addresses
    unfolding is_white_listed new_config
    is_white_listed-new_config genesis network_id chain_id d node_id b c actor h =
        let (c₁, e₁, h₁) =
          then_outcome-ok _
            (decoded json_unmarshal parse_address b (set_default d (zero_config node_id))) h in
        let (sponsors, e₂, h₂) =
          then_outcome-ok _ (parse_addresses parse_address c₁.mempool_exempt_sponsors) h₁ in
        let (listed, e₃, h₃) =
          then_outcome-ok _ (parse_addresses parse_address c₁.whitelisted_addresses) h₂ in
        let (out, into) = contains-parse_addresses actor c₁.whitelisted_addresses listed e₃ in
        let same = ok-injective h₃ in
        rw (← same) (λ there. out (ok-injective there), λ named. ap ok (into named))
