-- ===== src/Controller/Start.antt =====
-- controller/controller.go, `Initialize`: a node at its start. What an error leaves in the controller
-- is dropped, since the node stops then.
pub mod WhiteList
mod Tests
use nodekit_seq.Prelude.{ℕ, List, [], ◌∷◌, ◌++◌, Bytes, bytes_eq, if◌then◌else◌}
use nodekit_seq.Outcome.{Outcome, ok, wrap, then_outcome, unable_to_read_genesis}
use nodekit_seq.Vm.{Address}
use nodekit_seq.Genesis.{Genesis, Rules, new_genesis}
use nodekit_seq.Config.{Config, HyperDefaults, ProposerConfig, new_config}
use nodekit_seq.Controller.WhiteList.{node_rules}
use nodekit_seq.RollupRegistry.{Rollups, new_rollup_registry}
use nodekit_seq.Auth.Ed25519.{ed25519_id}
use nodekit_seq.Archiver.Opening.{Drivers, sqlite_name, orm_archiver_from_config}

-- `snow.Context`, by what is read of it; the identifier of the node is its text.
pub record SnowContext : Type 0 where
  pub node_id : Bytes
  pub network_id : ℕ
  pub chain_id : Bytes
  pub chain_data_dir : Bytes

-- What the start takes from other code: the metrics, hypersdk's databases (of blocks `B`, state `S`
-- and metadata `M`), its handler `H` and gossiper `G`, the archive's drivers, and the decoders.
pub record Environment (B S M H G D : Type 0) : Type 0 where
  pub new_metrics : Outcome (Unit {0})
  pub open_databases : Bytes → Outcome (B × S × M)
  pub new_json_rpc_handler : Outcome H
  pub new_proposer : ProposerConfig → Outcome G
  pub drivers : Drivers D
  pub config_unmarshal : Bytes → Config → Outcome Config
  pub genesis_unmarshal : Bytes → Genesis → Outcome Genesis
  pub parse_address : Bytes → Outcome Address
  pub defaults : HyperDefaults

-- The builder and the gossiper: both manual, or a timed builder and a proposer.
pub data Production (G : Type 0) : Type 0 where
  by_hand : Production G
  timed : G → Production G

-- The controller, and what `Initialize` returns with it.
pub record Started (B S M H G D : Type 0) : Type 0 where
  pub snow_ctx : SnowContext
  pub config : Config
  pub genesis : Genesis
  pub block_db : B
  pub state_db : S
  pub meta_db : M
  pub handler : H
  pub archiver : D
  pub rollup_registry : Rollups
  pub production : Production G
  pub engines : List ℕ

-- "/tmp/sqlite." and ".db".
abbrev pub sqlite_prefix : Bytes
sqlite_prefix =
    0x2F ∷ 0x74 ∷ 0x6D ∷ 0x70 ∷ 0x2F ∷ 0x73 ∷ 0x71 ∷ 0x6C ∷ 0x69 ∷ 0x74 ∷ 0x65 ∷ 0x2E ∷ []

abbrev pub db_suffix : Bytes
db_suffix = 0x2E ∷ 0x64 ∷ 0x62 ∷ []

-- The archive of a node under SQLite is named for the node. The case of the type matters here.
abbrev pub with_archive : Bytes → Config → Config
with_archive node_id c =
    if bytes_eq c.archiver_config.archiver_type sqlite_name
    then record c {
      archiver_config = record c.archiver_config { dsn = sqlite_prefix ++ (node_id ++ db_suffix) };
    }
    else c

-- `gcfg`.
abbrev pub gossip_config : Config → ProposerConfig
gossip_config c = record {
  gossip_max_size = c.gossip_max_size;
  gossip_proposer_diff = c.gossip_proposer_diff;
  gossip_proposer_depth = c.gossip_proposer_depth;
  no_gossip_builder_diff = c.no_gossip_builder_diff;
  verify_timeout = c.verify_timeout;
}

-- `auth.Engines`.
abbrev pub auth_engines : List ℕ
auth_engines = ed25519_id ∷ []

module _ {B S M H G D : Type 0} (env : Environment B S M H G D) (snow_ctx : SnowContext) where
  open env use {
    new_metrics, open_databases, new_json_rpc_handler, new_proposer, drivers, config_unmarshal,
    genesis_unmarshal, parse_address, defaults,
  }

  abbrev pub production : Config → Outcome (Production G)
  production c =
      if c.test_mode
      then ok by_hand
      else then_outcome (new_proposer (gossip_config c)) λ g. ok (timed g)

  -- The configuration and the genesis are read before a database is opened.
  abbrev pub read_inputs : Bytes → Bytes → Outcome (Config × Genesis)
  read_inputs genesis_bytes config_bytes =
      then_outcome
        (new_config config_unmarshal parse_address defaults snow_ctx.node_id config_bytes)
        λ c.
          then_outcome (wrap unable_to_read_genesis (new_genesis genesis_unmarshal genesis_bytes))
            λ g. ok (c, g)

  abbrev pub open_node : Config → Genesis → Outcome (Started B S M H G D)
  open_node c g = then_outcome (open_databases snow_ctx.chain_data_dir) λ (blocks, states, meta).
      then_outcome new_json_rpc_handler λ handler.
        then_outcome
          (orm_archiver_from_config drivers (with_archive snow_ctx.node_id c).archiver_config)
          λ archiver. then_outcome (production (with_archive snow_ctx.node_id c)) λ made.
            ok (record {
              snow_ctx = snow_ctx;
              config = with_archive snow_ctx.node_id c;
              genesis = g;
              block_db = blocks;
              state_db = states;
              meta_db = meta;
              handler = handler;
              archiver = archiver;
              rollup_registry = new_rollup_registry;
              production = made;
              engines = auth_engines;
            })

  unfoldable pub initialize : Bytes → Bytes → Outcome (Started B S M H G D)
  initialize genesis_bytes config_bytes =
      then_outcome new_metrics
        λ u. then_outcome (read_inputs genesis_bytes config_bytes) λ (c, g). open_node c g

-- `Rules` of a started controller.
abbrev pub started_rules : {B S M H G D : Type 0} → Started B S M H G D → Rules
started_rules node =
    node_rules node.genesis node.snow_ctx.network_id node.snow_ctx.chain_id node.config
