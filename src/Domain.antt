-- ===== src/Domain.antt =====
-- internal/domain/node.go and resource.go: nodes and resources, and their conversions from and to
-- the messages that nodes exchange (dht.v1). A nil pointer is none.
pub mod Client
pub mod RoundTrip
use Prim.Native.String.{String}
use koorde_dht.Prelude.{Option, none, some}
use koorde_dht.Result.{Result, ok, err, wrap, errorf}
use koorde_dht.Identifier.Space.{Space, Ident, is_valid_id}

pub record Node : Type 0 where
  pub id : Ident
  pub addr : String

pub record Resource : Type 0 where
  pub key : Ident
  pub raw_key : String
  pub value : String

-- dht.v1.Node and dht.v1.Resource, which the build generates from proto/dht/v1/node.proto: their
-- fields are those of the .proto file.
pub record ProtoNode : Type 0 where
  pub id : Ident
  pub address : String

pub record ProtoResource : Type 0 where
  pub key : Ident
  pub raw_key : String
  pub value : String

unfoldable pub node_to_proto : Option Node → Option ProtoNode
node_to_proto none = none
node_to_proto (some n) = some (record { id = n.id; address = n.addr })

unfoldable pub node_from_proto : Space → Option ProtoNode → Result (Option Node)
node_from_proto sp none = ok none
node_from_proto sp (some p) = elim (is_valid_id sp p.id) [
  | some e ↦ err (wrap "invalid DHT node ID: %w" e)
  | none ↦ ok (some (record { id = p.id; addr = p.address }))
]

unfoldable pub resource_to_proto : Option Resource → Option ProtoResource
resource_to_proto none = none
resource_to_proto (some r) = some (record { key = r.key; raw_key = r.raw_key; value = r.value })

unfoldable pub resource_from_proto : Space → Option ProtoResource → Result (Option Resource)
resource_from_proto sp none = ok none
resource_from_proto sp (some p) = elim (is_valid_id sp p.key) [
  | some e ↦ err (errorf "invalid resource key ID")
  | none ↦ ok (some (record { key = p.key; raw_key = p.raw_key; value = p.value }))
]
