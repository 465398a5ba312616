-- ===== src/Domain/RoundTrip.antt =====
-- Nodes and resources survive the messages.
use koorde_dht.Prelude.{ℕ, ◌≡◌, refl, true, some}
use koorde_dht.Result.{ok}
use koorde_dht.Identifier.Space.{Space}
use koorde_dht.Identifier.Space.Value.{IsSpace}
use koorde_dht.Identifier.Space.Valid.{IsId, IsId-is_valid_id}
use koorde_dht.Identifier.Hex.Parse.{from_hex_string-to_hex_string}
use koorde_dht.Domain.{
  Node, Resource, node_to_proto, node_from_proto, resource_to_proto, resource_from_proto,
}
use koorde_dht.Domain.Client.{node_to_client, node_from_client}

module _ {sp : Space} {k : ℕ} (v : IsSpace sp k) where
  -- A node with a valid identifier is read back from its message of the node-to-node API and from
  -- its message of the client API, and a resource with a valid key from its node-to-node message.
  pub messages_round_trip :
      (n : Node) (r : Resource)
      → IsId sp n.id
      → IsId sp r.key
      → (node_from_proto sp (node_to_proto (some n)) ≡ ok (some n))
        × (node_from_client sp (node_to_client (some n)) ≡ ok (some n))
        × (resource_from_proto sp (resource_to_proto (some r)) ≡ ok (some r))
  unfolding node_to_proto node_from_proto resource_to_proto resource_from_proto node_to_client
      node_from_client
  messages_round_trip n r hn hr = (
    rw (node_from_proto, IsId-is_valid_id v hn) refl,
    rw (node_from_client, from_hex_string-to_hex_string v true n.id hn)
        (rw (IsId-is_valid_id v hn) refl),
    rw (resource_from_proto, IsId-is_valid_id v hr) refl,
  )
