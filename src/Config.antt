-- ===== src/Config.antt =====
-- internal/node/config/config.go, ValidateConfig, over the configuration of config.go and of
-- internal/configloader/common.go. Integers and durations are signed. A message is the literal of its
-- format.
pub mod Bounds
pub mod Load
use Prim.Native.String.{String}
use text.Mathlib.Text.{◌==◌ as str_eq}
use koorde_dht.Prelude.{
  ℕ, zero, suc, ◌+◌, ◌-◌, ◌*◌, ◌/◌, ◌%◌, ◌^◌, Bool, true, false, not, ◌&&◌, ◌||◌, List, [], ◌∷◌,
  ◌++◌, Option, none, some, ltb, ◌==◌, if◌then◌else◌,
}
use koorde_dht.Prelude.Int.{ℤ, pos, negsuc, to_nat}
use koorde_dht.Result.{Error, Result, ok, err, panic, errorf}

pub record FileLoggerConfig : Type 0 where
  pub path : String
  pub max_size : ℤ
  pub max_backups : ℤ
  pub max_age : ℤ
  pub compress : Bool

pub record LoggerConfig : Type 0 where
  pub active : Bool
  pub level : String
  pub encoding : String
  pub mode : String
  pub file : FileLoggerConfig

pub record Route53Config : Type 0 where
  pub hosted_zone_id : String
  pub domain_suffix : String
  pub ttl : ℤ
  pub region : String

pub record BootstrapConfig : Type 0 where
  pub mode : String
  pub peers : List String
  pub route53 : Route53Config

pub record TracingConfig : Type 0 where
  pub enabled : Bool
  pub exporter : String
  pub endpoint : String

pub record DeBruijnConfig : Type 0 where
  pub degree : ℤ
  pub fix_interval : ℤ

pub record FaultToleranceConfig : Type 0 where
  pub successor_list_size : ℤ
  pub stabilization_interval : ℤ
  pub failure_timeout : ℤ

pub record DhtConfig : Type 0 where
  pub id_bits : ℤ
  pub mode : String
  pub de_bruijn : DeBruijnConfig
  pub fault_tolerance : FaultToleranceConfig
  pub storage_fix_interval : ℤ
  pub bootstrap : BootstrapConfig

pub record NodeConfig : Type 0 where
  pub id : String
  pub bind : String
  pub host : String
  pub port : ℤ

pub record Config : Type 0 where
  pub logger : LoggerConfig
  pub dht : DhtConfig
  pub node : NodeConfig
  pub tracing : TracingConfig

-- `if test { errs = append(errs, msg) }`
unfoldable pub check : Bool → String → List String
check test msg = if test then msg ∷ [] else []

-- Is the string none of the list?
unfoldable pub is_unknown : List String → String → Bool
is_unknown [] s = true
is_unknown (known ∷ more) s = not (str_eq s known) && is_unknown more s

unfoldable pub is_negative : ℤ → Bool
is_negative (pos n) = false
is_negative (negsuc n) = true

-- `z <= 0`
unfoldable pub is_nonpositive : ℤ → Bool
is_nonpositive z = to_nat z == 0

unfoldable pub is_greater : ℤ → ℤ → Bool
is_greater (pos a) (pos b) = ltb b a
is_greater (pos a) (negsuc b) = true
is_greater (negsuc a) (pos b) = false
is_greater (negsuc a) (negsuc b) = ltb a b

-- `uint(z)`
unfoldable pub to_uint : ℤ → ℕ
to_uint (pos n) = n
to_uint (negsuc n) = 2 ^ 64 - suc n

-- The zero bits below the lowest one bit, among the given number of bits.
unfoldable pub trailing_zeros : ℕ → ℕ → ℕ
trailing_zeros zero x = 0
trailing_zeros (suc n) x = let more = trailing_zeros n (x / 2) in if x % 2 == 0 then suc more else 0

unfoldable pub magnitude : ℤ → ℕ
magnitude (pos n) = n
magnitude (negsuc n) = suc n

unfoldable pub file_errors : LoggerConfig → List String
file_errors cfg =
    check (str_eq cfg.file.path "") "logger.file.path is required when mode=file"
    ++ check
        (is_negative cfg.file.max_size
          || is_negative cfg.file.max_backups
          || is_negative cfg.file.max_age)
        "logger.file.* values must be non-negative"

unfoldable pub mode_errors : LoggerConfig → List String
mode_errors cfg =
    if str_eq cfg.mode "stdout"
    then []
    else if str_eq cfg.mode "file"
    then file_errors cfg
    else "invalid logger.mode: %s" ∷ []

unfoldable pub logger_errors : LoggerConfig → List String
logger_errors cfg =
    check (is_unknown ("debug" ∷ "info" ∷ "warn" ∷ "error" ∷ []) cfg.level)
      "invalid logger.level: %s"
    ++ (check (is_unknown ("console" ∷ "json" ∷ []) cfg.encoding) "invalid logger.encoding: %s"
        ++ mode_errors cfg)

-- The checks of the DHT's numbers. The last one divides by the number of trailing zeros.
unfoldable pub dht_errors : DhtConfig → ℕ → List String
dht_errors cfg log =
    check (is_nonpositive cfg.id_bits) "dht.idBits must be > 0"
    ++ (check (is_unknown ("public" ∷ "private" ∷ []) cfg.mode) "invalid dht.mode: %s"
        ++ (check (is_nonpositive cfg.de_bruijn.degree) "dht.deBruijn.degree must be > 0"
            ++ (check (is_nonpositive cfg.de_bruijn.fix_interval)
                  "dht.deBruijn.fixInterval must be > 0"
                ++ (check (is_nonpositive cfg.fault_tolerance.successor_list_size)
                      "dht.faultTolerance.successorListSize must be > 0"
                    ++ (check (is_nonpositive cfg.fault_tolerance.stabilization_interval)
                          "dht.faultTolerance.stabilizationInterval must be > 0"
                        ++ (check (is_nonpositive cfg.fault_tolerance.failure_timeout)
                              "dht.faultTolerance.failureTimeout must be > 0"
                            ++ (check
                                  (is_greater cfg.de_bruijn.degree
                                    cfg.fault_tolerance.successor_list_size)
                                  "dht.deBruijn.degree must be <= dht.faultTolerance.successorListSize"
                                ++ check (not (magnitude cfg.id_bits % log == 0))
                                    "dht.idBits (%d) must be a multiple of log2(dht.deBruijn.degree) = %d")))))))

unfoldable pub route53_errors : Route53Config → List String
route53_errors cfg =
    check (str_eq cfg.hosted_zone_id "")
      "bootstrap.route53.hostedZoneId is required in mode=route53"
    ++ (check (str_eq cfg.domain_suffix "")
          "bootstrap.route53.domainSuffix is required in mode=route53"
        ++ (check (is_nonpositive cfg.ttl) "bootstrap.route53.ttl must be > 0 in mode=route53"
            ++ check (str_eq cfg.region "") "bootstrap.route53.region is required in mode=route53"))

unfoldable pub node_errors : NodeConfig → List String
node_errors cfg =
    check (is_negative cfg.port || ltb 65535 (to_nat cfg.port))
      "node.port must be in [0,65535], got %d"

unfoldable pub tracing_errors : TracingConfig → List String
tracing_errors cfg =
    if cfg.enabled
    then check (is_unknown ("stdout" ∷ "jaeger" ∷ "otlp" ∷ []) cfg.exporter)
        "invalid telemetry.tracing.exporter: %s"
      ++ check (str_eq cfg.endpoint "") "telemetry.tracing.endpoint is required"
    else []

-- `split_host_port` is net.SplitHostPort's error.
module _ (split_host_port : String → Option Error) where
  unfoldable pub peer_errors : List String → List String
  peer_errors [] = []
  peer_errors (p ∷ peers) = elim (split_host_port p) [
    | none ↦ peer_errors peers
    | some e ↦ "invalid peer address %q in bootstrap.peers: %v" ∷ peer_errors peers
  ]

  unfoldable pub bootstrap_errors : BootstrapConfig → List String
  bootstrap_errors cfg =
      if str_eq cfg.mode "route53"
      then route53_errors cfg.route53
      else if str_eq cfg.mode "static"
      then peer_errors cfg.peers
      else "invalid bootstrap.mode: %s (must be dns, static or init)" ∷ []

  -- The messages, in order, when the last check of the DHT's numbers divides by log.
  unfoldable pub errors_with : Config → ℕ → List String
  errors_with cfg log =
      logger_errors cfg.logger
      ++ (dht_errors cfg.dht log
          ++ (bootstrap_errors cfg.dht.bootstrap
              ++ (node_errors cfg.node ++ tracing_errors cfg.tracing)))

  unfoldable pub report : List String → Result (Unit {0})
  report [] = ok tt
  report (msg ∷ msgs) = err (errorf "configuration errors:\n  - %s")

  -- An integer division by zero panics.
  unfoldable pub validate_config : Config → Result (Unit {0})
  validate_config cfg = elim (trailing_zeros 64 (to_uint cfg.dht.de_bruijn.degree)) [
    | zero ↦ panic
    | suc n ↦ report (errors_with cfg (suc n))
  ]
