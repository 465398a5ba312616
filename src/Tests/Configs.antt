-- ===== src/Tests/Configs.antt =====
-- Runs of the theorems on the configuration.
use Prim.Native.String.{String}
use Prim.Native.Char.{code}
use koorde_dht.Config.Load.{Environment, trim_left, trim_right, trim_space, override_string_slice}
use koorde_dht.Config.Load.Peers.{join, IsEntry, override_string_slice_lem}
use koorde_dht.Prelude.{
  All, ◌==◌, ℕ, ◌≤◌, ◌≡◌, ◌⊎◌, refl, true, false, [], ◌∷◌, Option, none, arith,
}
use koorde_dht.Prelude.Int.{ℤ, pos}
use koorde_dht.Result.{Error, ok, err, errorf}
use koorde_dht.Identifier.Space.{Space, new_space}
use koorde_dht.Config.{
  Config, check, is_unknown, is_negative, is_nonpositive, is_greater, to_uint, trailing_zeros,
  magnitude, mode_errors, logger_errors, dht_errors, node_errors, tracing_errors, peer_errors,
  bootstrap_errors, errors_with, report, validate_config,
}
use koorde_dht.Config.Bounds.{validate_config_lem}

abbrev accept : String → Option Error
accept addr = none

-- A configuration of a node with the given degree.
abbrev with_degree : ℤ → Config
with_degree degree = record {
  logger = record {
    active = true;
    level = "info";
    encoding = "json";
    mode = "stdout";
    file = record {
      path = "";
      max_size = pos 0;
      max_backups = pos 0;
      max_age = pos 0;
      compress = false;
    };
  };
  dht = record {
    id_bits = pos 66;
    mode = "private";
    de_bruijn = record { degree = degree; fix_interval = pos 5 };
    fault_tolerance = record {
      successor_list_size = pos 8;
      stabilization_interval = pos 2;
      failure_timeout = pos 1;
    };
    storage_fix_interval = pos 20;
    bootstrap = record {
      mode = "static";
      peers = "bootstrap:4000" ∷ [];
      route53 = record { hosted_zone_id = ""; domain_suffix = ""; ttl = pos 0; region = "" };
    };
  };
  node = record { id = ""; bind = "0.0.0.0"; host = "localhost"; port = pos 4000 };
  tracing = record { enabled = false; exporter = ""; endpoint = "" };
}

validate_config_lem_example :
    ((port : ℕ) × ((with_degree (pos 8)).node.port ≡ pos port) × (port ≤ 65535))
    × (2 ≤ 8)
    × (8 ≤ 8)
    × (((sp : Space) × (new_space (pos 66) (pos 8) (pos 8) ≡ ok sp))
        ⊎ (new_space (pos 66) (pos 8) (pos 8)
            ≡ err (errorf "invalid graph degree: %d (must be a power of 2)")))
validate_config_lem_example = validate_config_lem accept (with_degree (pos 8)) (
    unfold validate_config errors_with report check is_unknown is_negative is_nonpositive is_greater
      to_uint trailing_zeros magnitude mode_errors logger_errors dht_errors node_errors
      tracing_errors peer_errors bootstrap_errors in
    refl)

-- A variable with two peers.
abbrev two_peers : Environment
two_peers = record {
  getenv = λ name. "n1,n2";
  atoi = λ val. none;
  parse_int = λ val. none;
  parse_duration = λ val. none;
  is_space = λ c. code c == 32;
}

two_entries : All (IsEntry two_peers.is_space) (("n" ∷ "1" ∷ []) ∷ ("n" ∷ "2" ∷ []) ∷ [])
two_entries = (
  record {
    nonempty = λ e. absurd (ground arith);
    commaless = (refl, (refl, tt));
    unspaced = unfold trim_space trim_left trim_right in refl;
  },
  (
    record {
      nonempty = λ e. absurd (ground arith);
      commaless = (refl, (refl, tt));
      unspaced = unfold trim_space trim_left trim_right in refl;
    },
    tt,
  ),
)

override_string_slice_lem_example :
    override_string_slice two_peers ("old" ∷ []) "BOOTSTRAP_PEERS" ≡ "n1" ∷ "n2" ∷ []
override_string_slice_lem_example =
    override_string_slice_lem two_peers ("old" ∷ []) "BOOTSTRAP_PEERS" ("n" ∷ "1" ∷ [])
      (("n" ∷ "2" ∷ []) ∷ []) (unfold join in refl) two_entries
