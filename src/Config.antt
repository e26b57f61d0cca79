-- ===== src/Config.antt =====
-- config/config.go: the node's configuration, its defaults, and the addresses that it names.
use nodekit_seq.Prelude.{
  ℕ, ◌*◌, Bool, true, false, List, [], ◌∷◌, ◌++◌, Bytes, length, ltb, ◌==◌, if◌then◌else◌,
}
use nodekit_seq.Prelude.Int.{ℤ, pos}
use nodekit_seq.Outcome.{failed_to_unmarshal, Outcome, ok, wrap, then_outcome}
use nodekit_seq.Vm.{Address}

-- `archiver.ORMArchiverConfig`.
pub record ArchiverConfig : Type 0 where
  pub enabled : Bool
  pub archiver_type : Bytes
  pub dsn : Bytes

-- The fields of `Config`. A duration is its nanoseconds, a float its 64-bit pattern; `val_rpc_config`
-- is hypersdk's `JSONRPCValServerConfig`, by its flag.
pub record Config : Type 0 where
  pub auth_verification_cores : ℤ
  pub root_generation_cores : ℤ
  pub transaction_execution_cores : ℤ
  pub state_fetch_concurrency : ℤ
  pub gossip_max_size : ℤ
  pub gossip_proposer_diff : ℤ
  pub gossip_proposer_depth : ℤ
  pub no_gossip_builder_diff : ℤ
  pub verify_timeout : ℤ
  pub trace_enabled : Bool
  pub trace_sample_rate : ℕ
  pub continuous_profiler_dir : Bytes
  pub streaming_backlog_size : ℤ
  pub store_block_results_on_disk : Bool
  pub mempool_size : ℤ
  pub mempool_sponsor_size : ℤ
  pub mempool_exempt_sponsors : List Bytes
  pub whitelisted_addresses : List Bytes
  pub verify_auth : Bool
  pub store_transactions : Bool
  pub test_mode : Bool
  pub log_level : ℤ
  pub state_sync_server_delay : ℤ
  pub eth_rpc_addr : Bytes
  pub eth_ws_addr : Bytes
  pub archiver_config : ArchiverConfig
  pub arcadia_url : Bytes
  pub val_rpc_config : Bool
  pub loaded : Bool
  pub node_id : Bytes
  pub parsed_exempt_sponsors : List Address
  pub parsed_white_listed_addresses : List Address

-- `gossiper.DefaultProposerConfig` of hypersdk.
pub record ProposerConfig : Type 0 where
  pub gossip_max_size : ℤ
  pub gossip_proposer_diff : ℤ
  pub gossip_proposer_depth : ℤ
  pub no_gossip_builder_diff : ℤ
  pub verify_timeout : ℤ

-- The getters of hypersdk's `config.Config`, which is nil here.
pub record HyperDefaults : Type 0 where
  pub log_level : ℤ
  pub auth_verification_cores : ℤ
  pub root_generation_cores : ℤ
  pub transaction_execution_cores : ℤ
  pub state_fetch_concurrency : ℤ
  pub mempool_size : ℤ
  pub mempool_sponsor_size : ℤ
  pub state_sync_server_delay : ℤ
  pub streaming_backlog_size : ℤ
  pub verify_auth : Bool
  pub store_block_results_on_disk : Bool
  pub eth_l1_rpc : Bytes
  pub eth_l1_ws : Bytes
  pub arcadia_url : Bytes
  pub val_server_config : Bool
  pub proposer : ProposerConfig

-- `&Config{nodeID: nodeID}`.
abbrev pub zero_config : Bytes → Config
zero_config node_id = record {
  auth_verification_cores = pos 0;
  root_generation_cores = pos 0;
  transaction_execution_cores = pos 0;
  state_fetch_concurrency = pos 0;
  gossip_max_size = pos 0;
  gossip_proposer_diff = pos 0;
  gossip_proposer_depth = pos 0;
  no_gossip_builder_diff = pos 0;
  verify_timeout = pos 0;
  trace_enabled = false;
  trace_sample_rate = 0;
  continuous_profiler_dir = [];
  streaming_backlog_size = pos 0;
  store_block_results_on_disk = false;
  mempool_size = pos 0;
  mempool_sponsor_size = pos 0;
  mempool_exempt_sponsors = [];
  whitelisted_addresses = [];
  verify_auth = false;
  store_transactions = false;
  test_mode = false;
  log_level = pos 0;
  state_sync_server_delay = pos 0;
  eth_rpc_addr = [];
  eth_ws_addr = [];
  archiver_config = record { enabled = false; archiver_type = []; dsn = [] };
  arcadia_url = [];
  val_rpc_config = false;
  loaded = false;
  node_id = node_id;
  parsed_exempt_sponsors = [];
  parsed_white_listed_addresses = [];
}

abbrev pub default_store_transactions : Bool
default_store_transactions = true

abbrev pub set_default : HyperDefaults → Config → Config
set_default d c = record c {
  log_level = d.log_level;
  gossip_max_size = d.proposer.gossip_max_size;
  gossip_proposer_diff = d.proposer.gossip_proposer_diff;
  gossip_proposer_depth = d.proposer.gossip_proposer_depth;
  no_gossip_builder_diff = d.proposer.no_gossip_builder_diff;
  verify_timeout = d.proposer.verify_timeout;
  auth_verification_cores = d.auth_verification_cores;
  root_generation_cores = d.root_generation_cores;
  transaction_execution_cores = d.transaction_execution_cores;
  state_fetch_concurrency = d.state_fetch_concurrency;
  mempool_size = d.mempool_size;
  mempool_sponsor_size = d.mempool_sponsor_size;
  state_sync_server_delay = d.state_sync_server_delay;
  streaming_backlog_size = d.streaming_backlog_size;
  verify_auth = d.verify_auth;
  store_transactions = default_store_transactions;
  store_block_results_on_disk = d.store_block_results_on_disk;
  eth_rpc_addr = d.eth_l1_rpc;
  eth_ws_addr = d.eth_l1_ws;
  arcadia_url = d.arcadia_url;
  val_rpc_config = d.val_server_config;
}

-- The two loops that parse addresses, which stop at the first text that is none.
unfoldable pub parse_addresses : (Bytes → Outcome Address) → List Bytes → Outcome (List Address)
parse_addresses parse_address [] = ok []
parse_addresses parse_address (text ∷ texts) =
    then_outcome (parse_address text)
      λ addr. then_outcome (parse_addresses parse_address texts) λ addrs. ok (addr ∷ addrs)

module _ (json_unmarshal : Bytes → Config → Outcome Config)
    (parse_address : Bytes → Outcome Address) where
  -- The document over the defaults.
  abbrev pub decoded : Bytes → Config → Outcome Config
  decoded b c =
      if ltb 0 (length b)
      then then_outcome (wrap failed_to_unmarshal (json_unmarshal b c))
          (λ c'. ok (record c' { loaded = true }))
      else ok c

  unfoldable pub new_config : HyperDefaults → Bytes → Bytes → Outcome Config
  unfolding parse_addresses
  new_config d node_id b = then_outcome (decoded b (set_default d (zero_config node_id))) λ c.
      then_outcome (parse_addresses parse_address c.mempool_exempt_sponsors) λ sponsors.
        then_outcome (parse_addresses parse_address c.whitelisted_addresses) λ listed.
          ok
            (record c { parsed_exempt_sponsors = sponsors; parsed_white_listed_addresses = listed })

-- `strings.ReplaceAll` of "*".
unfoldable pub replace_stars : Bytes → Bytes → Bytes
replace_stars by [] = []
replace_stars by (b ∷ bs) =
    let rest = replace_stars by bs in if b == 0x2A then by ++ rest else b ∷ rest

-- `profiler.Config` of avalanchego.
pub record ProfilerConfig : Type 0 where
  pub enabled : Bool
  pub dir : Bytes
  pub freq : ℤ
  pub max_num_files : ℤ

-- The replaced directory stays in the configuration.
unfoldable pub continuous_profiler_config : Config → ProfilerConfig × Config
unfolding replace_stars
continuous_profiler_config c =
    if length c.continuous_profiler_dir == 0
    then (record { enabled = false; dir = []; freq = pos 0; max_num_files = pos 0 }, c)
    else let dir = replace_stars c.node_id c.continuous_profiler_dir in
      (
        record {
          enabled = true;
          dir = dir;
          freq = pos (60 * 1_000_000_000);
          max_num_files = pos 10;
        },
        record c { continuous_profiler_dir = dir },
      )

abbrev pub val_server_config : Bool
val_server_config = true
