-- ===== src/Config/Load.antt =====
-- internal/node/config/config.go, LoadConfig, with internal/configloader/override.go. The file, the
-- environment and the functions of strconv, time and unicode are parameters.
pub mod Peers
use Prim.Native.String.{String}
use Prim.Native.Char.{Char, code}
use text.Mathlib.TextBridge.{to_list, of_list}
use text.Mathlib.Text.{◌==◌ as str_eq}
use koorde_dht.Prelude.{Bool, true, false, List, [], ◌∷◌, Option, none, some, ◌==◌, if◌then◌else◌}
use koorde_dht.Prelude.Int.{ℤ}
use koorde_dht.Result.{Result, ok, err, panic, wrap}
use koorde_dht.Config.{
  LoggerConfig, BootstrapConfig, TracingConfig, DhtConfig, NodeConfig, Config, is_unknown,
}

-- os.Getenv; strconv.Atoi, strconv.ParseInt in base 10 and time.ParseDuration, none for an error; and
-- unicode.IsSpace.
pub record Environment : Type 0 where
  pub getenv : String → String
  pub atoi : String → Option ℤ
  pub parse_int : String → Option ℤ
  pub parse_duration : String → Option ℤ
  pub is_space : Char → Bool

-- strings.Split(val, ",")
unfoldable pub split : List Char → List (List Char)
split [] = [] ∷ []
split (c ∷ cs) =
    let parts = split cs in
    if code c == 44
    then [] ∷ parts
    else elim parts [ [] ↦ (c ∷ []) ∷ [] | part ∷ more ↦ (c ∷ part) ∷ more ]

-- strings.TrimSpace: the leading spaces, and then the trailing ones.
unfoldable pub trim_left : (Char → Bool) → List Char → List Char
trim_left is_space [] = []
trim_left is_space (c ∷ cs) =
    let rest = trim_left is_space cs in if is_space c then rest else c ∷ cs

unfoldable pub trim_right : (Char → Bool) → List Char → List Char
trim_right is_space [] = []
trim_right is_space (c ∷ cs) = elim (trim_right is_space cs) [
  | [] ↦ if is_space c then [] else c ∷ []
  | d ∷ ds ↦ c ∷ d ∷ ds
]

unfoldable pub trim_space : (Char → Bool) → List Char → List Char
trim_space is_space cs = trim_right is_space (trim_left is_space cs)

-- The parts, trimmed, without the empty ones.
unfoldable pub trimmed : (Char → Bool) → List (List Char) → List String
trimmed is_space [] = []
trimmed is_space (p ∷ parts) =
    let rest = trimmed is_space parts in
    elim (trim_space is_space p) [ [] ↦ rest | c ∷ cs ↦ of_list (c ∷ cs) ∷ rest ]

module _ (env : Environment) where
  unfoldable pub override_string : String → String → String
  override_string field name = if str_eq (env.getenv name) "" then field else env.getenv name

  -- The overriding of a number with its parser.
  unfoldable pub override_number : (String → Option ℤ) → ℤ → String → ℤ
  override_number parse field name =
      if str_eq (env.getenv name) ""
      then field
      else elim (parse (env.getenv name)) [ none ↦ field | some i ↦ i ]

  abbrev pub override_int : ℤ → String → ℤ
  override_int = override_number env.atoi

  abbrev pub override_int64 : ℤ → String → ℤ
  override_int64 = override_number env.parse_int

  abbrev pub override_duration : ℤ → String → ℤ
  override_duration = override_number env.parse_duration

  unfoldable pub override_bool : Bool → String → Bool
  override_bool field name =
      if is_unknown ("1" ∷ "true" ∷ "TRUE" ∷ "True" ∷ []) (env.getenv name)
      then if is_unknown ("0" ∷ "false" ∷ "FALSE" ∷ "False" ∷ []) (env.getenv name)
        then field
        else false
      else true

  unfoldable pub override_string_slice : List String → String → List String
  override_string_slice field name =
      if str_eq (env.getenv name) ""
      then field
      else trimmed env.is_space (split (to_list (env.getenv name)))

  unfoldable pub override_node : NodeConfig → NodeConfig
  override_node cfg = record {
    id = override_string cfg.id "NODE_ID";
    bind = override_string cfg.bind "NODE_BIND";
    host = override_string cfg.host "NODE_HOST";
    port = override_int cfg.port "NODE_PORT";
  }

  unfoldable pub override_bootstrap : BootstrapConfig → BootstrapConfig
  override_bootstrap cfg = record {
    mode = override_string cfg.mode "BOOTSTRAP_MODE";
    peers = override_string_slice cfg.peers "BOOTSTRAP_PEERS";
    route53 = record {
      hosted_zone_id = override_string cfg.route53.hosted_zone_id "ROUTE53_ZONE_ID";
      domain_suffix = override_string cfg.route53.domain_suffix "ROUTE53_SUFFIX";
      ttl = override_int64 cfg.route53.ttl "ROUTE53_TTL";
      region = override_string cfg.route53.region "ROUTE53_REGION";
    };
  }

  unfoldable pub override_dht : DhtConfig → DhtConfig
  override_dht cfg = record {
    id_bits = override_int cfg.id_bits "DHT_ID_BITS";
    mode = override_string cfg.mode "DHT_MODE";
    de_bruijn = record {
      degree = override_int cfg.de_bruijn.degree "DEBRUIJN_DEGREE";
      fix_interval = override_duration cfg.de_bruijn.fix_interval "DEBRUIJN_FIX_INTERVAL";
    };
    fault_tolerance = record {
      successor_list_size =
          override_int cfg.fault_tolerance.successor_list_size "SUCCESSOR_LIST_SIZE";
      stabilization_interval =
          override_duration cfg.fault_tolerance.stabilization_interval "STABILIZATION_INTERVAL";
      failure_timeout = override_duration cfg.fault_tolerance.failure_timeout "FAILURE_TIMEOUT";
    };
    storage_fix_interval = override_duration cfg.storage_fix_interval "STORAGE_FIX_INTERVAL";
    bootstrap = override_bootstrap cfg.bootstrap;
  }

  unfoldable pub override_tracing : TracingConfig → TracingConfig
  override_tracing cfg = record {
    enabled = override_bool cfg.enabled "TRACING_ENABLED";
    exporter = override_string cfg.exporter "TRACING_EXPORTER";
    endpoint = override_string cfg.endpoint "TRACING_ENDPOINT";
  }

  unfoldable pub override_logger : LoggerConfig → LoggerConfig
  override_logger cfg = record {
    active = override_bool cfg.active "LOGGER_ENABLED";
    level = override_string cfg.level "LOGGER_LEVEL";
    encoding = override_string cfg.encoding "LOGGER_ENCODING";
    mode = override_string cfg.mode "LOGGER_MODE";
    file = record {
      path = override_string cfg.file.path "LOGGER_FILE_PATH";
      max_size = override_int cfg.file.max_size "LOGGER_FILE_MAX_SIZE";
      max_backups = override_int cfg.file.max_backups "LOGGER_FILE_MAX_BACKUPS";
      max_age = override_int cfg.file.max_age "LOGGER_FILE_MAX_AGE";
      compress = override_bool cfg.file.compress "LOGGER_FILE_COMPRESS";
    };
  }

  unfoldable pub default_bind : NodeConfig → NodeConfig
  default_bind cfg = if str_eq cfg.bind "" then record cfg { bind = "0.0.0.0" } else cfg

  -- The parameter is the result of LoadYAML.
  unfoldable pub load_config : Result Config → Result Config
  load_config (err e) = err (wrap "load config: %w" e)
  load_config panic = panic
  load_config (ok cfg) = ok (record {
    logger = override_logger cfg.logger;
    dht = override_dht cfg.dht;
    node = default_bind (override_node cfg.node);
    tracing = override_tracing cfg.tracing;
  })
