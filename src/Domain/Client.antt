-- ===== src/Domain/Client.antt =====
-- internal/domain/node.go and resource.go: the conversions from and to the messages of the client API
-- (client.v1). A textual identifier is the list of its bytes.
use Prim.Native.String.{String}
use koorde_dht.Prelude.{ℕ, List, true, Option, none, some}
use koorde_dht.Result.{Result, ok, err, panic, wrap}
use koorde_dht.Identifier.Space.{Space, is_valid_id, new_id_from_string}
use koorde_dht.Identifier.Hex.{Text, to_hex_string, from_hex_string}
use koorde_dht.Domain.{Node, Resource}

-- client.v1.NodeInfo and client.v1.Resource, generated from proto/client/v1/client.proto.
pub record NodeInfo : Type 0 where
  pub id : Text
  pub addr : String

pub record ClientResource : Type 0 where
  pub key : String
  pub value : String

unfoldable pub node_to_client : Option Node → Option NodeInfo
node_to_client none = none
node_to_client (some n) = some (record { id = to_hex_string true (some n.id); addr = n.addr })

unfoldable pub node_from_client : Space → Option NodeInfo → Result (Option Node)
node_from_client sp none = ok none
node_from_client sp (some p) = elim (from_hex_string sp p.id) [
  | err e ↦ err (wrap "failed to parse client node ID %q: %w" e)
  | panic ↦ panic
  | ok id ↦ elim (is_valid_id sp id) [
    | some e ↦ err (wrap "invalid client node ID: %w" e)
    | none ↦ ok (some (record { id = id; addr = p.addr }))
  ]
]

unfoldable pub resource_to_client : Option Resource → Option ClientResource
resource_to_client none = none
resource_to_client (some r) = some (record { key = r.raw_key; value = r.value })

-- `sha1` is crypto/sha1's Sum.
unfoldable pub resource_from_client :
    (String → List ℕ) → Space → Option ClientResource → Result (Option Resource)
resource_from_client sha1 sp none = ok none
resource_from_client sha1 sp (some p) = elim (new_id_from_string sha1 sp p.key) [
  | ok key ↦ ok (some (record { key = key; raw_key = p.key; value = p.value }))
  | err e ↦ err e
  | panic ↦ panic
]
