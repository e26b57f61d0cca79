-- ===== src/Controller/Start/WhiteList.antt =====
-- Who is on the white list of a node that `Initialize` started.
use nodekit_seq.Prelude.{◌≡◌, ◌↔◌, refl, sym, ap, ◌∙◌, true, Bool-cases, inl, inr, Bytes, bytes_eq}
use nodekit_seq.Outcome.{ok, map_ok, ok-injective, wrap, unable_to_read_genesis}
use nodekit_seq.Outcome.Chains.{then_outcome-ok}
use nodekit_seq.Vm.{Address}
use nodekit_seq.Genesis.{Genesis, new_genesis}
use nodekit_seq.Config.{Config, new_config}
use nodekit_seq.Actions.Utils.{is_white_listed}
use nodekit_seq.Archiver.Opening.{sqlite_name, orm_archiver_from_config}
use nodekit_seq.Controller.WhiteList.{Names, is_white_listed-new_config}
use nodekit_seq.Controller.Start.{
  SnowContext, Environment, Started, with_archive, production, read_inputs, open_node, initialize,
  started_rules,
}

module _ {B S M H G D : Type 0} (env : Environment B S M H G D) (snow_ctx : SnowContext) where
  -- The parts that are opened do not change the configuration beyond the archive's name.
  open_node-config :
      (c : Config) (g : Genesis) (node : Started B S M H G D)
      → open_node env snow_ctx c g ≡ ok node
      → (node.config ≡ with_archive snow_ctx.node_id c) × (node.snow_ctx ≡ snow_ctx)
  open_node-config c g node h =
      let c' = with_archive snow_ctx.node_id c in
      let (dbs, e₁, h₁) = then_outcome-ok _ (env.open_databases snow_ctx.chain_data_dir) h in
      let (handler, e₂, h₂) = then_outcome-ok _ env.new_json_rpc_handler h₁ in
      let (archiver, e₃, h₃) =
        then_outcome-ok _ (orm_archiver_from_config env.drivers c'.archiver_config) h₂ in
      let (made, e₄, h₄) = then_outcome-ok _ (production env snow_ctx c') h₃ in
      let same = ok-injective h₄ in (ap (λ n. n.config) (sym same), ap (λ n. n.snow_ctx) (sym same))

  read_inputs-config :
      (genesis_bytes config_bytes : Bytes) (inputs : Config × Genesis)
      → read_inputs env snow_ctx genesis_bytes config_bytes ≡ ok inputs
      → new_config env.config_unmarshal env.parse_address env.defaults snow_ctx.node_id config_bytes
        ≡ ok inputs.0
  read_inputs-config genesis_bytes config_bytes inputs h =
      let (c, e₁, h₁) =
        then_outcome-ok _
          (new_config env.config_unmarshal env.parse_address env.defaults snow_ctx.node_id
            config_bytes)
          h in
      let (g, e₂, h₂) =
        then_outcome-ok _
          (wrap unable_to_read_genesis (new_genesis env.genesis_unmarshal genesis_bytes)) h₁ in
      e₁ ∙ ap (λ q. map_ok (λ r. r.0) q) h₂

  -- A started node has the configuration that was read, but for the archive's name.
  initialize-config :
      (genesis_bytes config_bytes : Bytes) (node : Started B S M H G D)
      → initialize env snow_ctx genesis_bytes config_bytes ≡ ok node
      → (c : Config) × (new_config env.config_unmarshal env.parse_address env.defaults
            snow_ctx.node_id config_bytes
          ≡ ok c)
        × (node.config ≡ with_archive snow_ctx.node_id c)
  unfolding initialize
  initialize-config genesis_bytes config_bytes node h =
      let (u, e₁, h₁) = then_outcome-ok _ env.new_metrics h in
      let (inputs, e₂, h₂) =
        then_outcome-ok _ (read_inputs env snow_ctx genesis_bytes config_bytes) h₁ in
      (
        inputs.0,
        read_inputs-config genesis_bytes config_bytes inputs e₂,
        (open_node-config inputs.0 inputs.1 node h₂).0,
      )

  -- The archive's name is no part of the white list.
  with_archive-Lists :
      (c : Config)
      → ((with_archive snow_ctx.node_id c).parsed_white_listed_addresses
          ≡ c.parsed_white_listed_addresses)
        × ((with_archive snow_ctx.node_id c).whitelisted_addresses ≡ c.whitelisted_addresses)
  with_archive-Lists c = elim (Bool-cases (bytes_eq c.archiver_config.archiver_type sqlite_name)) [
    | inl e ↦ rw e (refl, refl)
    | inr e ↦ rw e (refl, refl)
  ]

  -- Under the rules of a node that started, an address is white-listed exactly when one of the texts
  -- that its configuration lists parses to it.
  pub is_white_listed-initialize :
      (genesis_bytes config_bytes : Bytes) (node : Started B S M H G D) (actor : Address)
      → initialize env snow_ctx genesis_bytes config_bytes ≡ ok node
      → (is_white_listed (started_rules node) actor ≡ ok true)
        ↔ Names env.parse_address actor node.config.whitelisted_addresses
  unfolding is_white_listed
  is_white_listed-initialize genesis_bytes config_bytes node actor h =
      let (c, read, kept) = initialize-config genesis_bytes config_bytes node h in
      let (parsed, texts) = with_archive-Lists c in
      rw (kept, parsed, texts)
        (is_white_listed-new_config env.parse_address env.config_unmarshal node.genesis
          node.snow_ctx.network_id node.snow_ctx.chain_id env.defaults snow_ctx.node_id config_bytes
          c actor read)
