-- ===== src/Controller/Start/Tests.antt =====
-- A node that lists one address, by its bytes.
use nodekit_seq.Prelude.{
  ℕ, ◌≡◌, ◌↔◌, refl, true, [], ◌∷◌, Bytes, bytes_eq, length, ◌==◌, if◌then◌else◌,
}
use nodekit_seq.Prelude.Int.{pos}
use nodekit_seq.Outcome.{Outcome, ok, err, external}
use nodekit_seq.Vm.{Address}
use nodekit_seq.Genesis.{default_genesis, new_genesis}
use nodekit_seq.Actions.Utils.{is_white_listed}
use nodekit_seq.Config.{
  Config, HyperDefaults, set_default, zero_config, parse_addresses, new_config,
  continuous_profiler_config, replace_stars,
}
use nodekit_seq.Archiver.Opening.{default_dsn}
use nodekit_seq.Controller.WhiteList.{Names}
use nodekit_seq.Controller.Start.{
  SnowContext, Environment, Started, timed, initialize, started_rules,
}
use nodekit_seq.Controller.Start.WhiteList.{is_white_listed-initialize}
use nodekit_seq.Samples.{carol}

abbrev defaults : HyperDefaults
defaults = record {
  log_level = pos 0;
  auth_verification_cores = pos 1;
  root_generation_cores = pos 1;
  transaction_execution_cores = pos 1;
  state_fetch_concurrency = pos 1;
  mempool_size = pos 2_048;
  mempool_sponsor_size = pos 32;
  state_sync_server_delay = pos 0;
  streaming_backlog_size = pos 1_024;
  verify_auth = true;
  store_block_results_on_disk = true;
  eth_l1_rpc = [];
  eth_l1_ws = [];
  arcadia_url = [];
  val_server_config = true;
  proposer = record {
    gossip_max_size = pos 1;
    gossip_proposer_diff = pos 4;
    gossip_proposer_depth = pos 1;
    no_gossip_builder_diff = pos 4;
    verify_timeout = pos 10;
  };
}

-- An address is written as its 33 bytes, and the document is the address.
abbrev parse_address : Bytes → Outcome Address
parse_address text = if length text == 33 then ok text else err (external 21)

abbrev json_unmarshal : Bytes → Config → Outcome Config
json_unmarshal b c = ok (record c { whitelisted_addresses = b ∷ [] })

abbrev environment : Environment ℕ ℕ ℕ ℕ ℕ Bytes
environment = record {
  new_metrics = ok tt;
  open_databases = λ dir. ok (1, 2, 3);
  new_json_rpc_handler = ok 4;
  new_proposer = λ c. ok 5;
  drivers = record { open_postgres = ok; open_sqlite = ok; auto_migrate = ok };
  config_unmarshal = json_unmarshal;
  genesis_unmarshal = λ b g. ok g;
  parse_address = parse_address;
  defaults = defaults;
}

abbrev snow : SnowContext
snow = record { node_id = 7 ∷ 8 ∷ []; network_id = 1; chain_id = []; chain_data_dir = [] }

abbrev with_carol : Config
with_carol = record (set_default defaults (zero_config snow.node_id)) {
  loaded = true;
  whitelisted_addresses = carol ∷ [];
  parsed_white_listed_addresses = carol ∷ [];
}

abbrev node : Started ℕ ℕ ℕ ℕ ℕ Bytes
node = record {
  snow_ctx = snow;
  config = with_carol;
  genesis = default_genesis;
  block_db = 1;
  state_db = 2;
  meta_db = 3;
  handler = 4;
  archiver = default_dsn;
  rollup_registry = [];
  production = timed 5;
  engines = 0 ∷ [];
}

is_white_listed-initialize_example :
    (is_white_listed (started_rules node) carol ≡ ok true) ↔ Names parse_address carol (carol ∷ [])
unfolding initialize new_config parse_addresses new_genesis bytes_eq
is_white_listed-initialize_example =
    is_white_listed-initialize environment snow [] carol node carol refl

-- The stars of the profiler's directory become the node's identifier.
profiler_dir :
    (continuous_profiler_config (record with_carol {
      node_id = 7 ∷ 8 ∷ [];
      continuous_profiler_dir = 1 ∷ 0x2A ∷ 2 ∷ [];
    })).0.dir
    ≡ 1 ∷ 7 ∷ 8 ∷ 2 ∷ []
unfolding continuous_profiler_config replace_stars
profiler_dir = refl
