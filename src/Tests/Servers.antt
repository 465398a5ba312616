-- ===== src/Tests/Servers.antt =====
-- Runs of the theorems on the service for other nodes.
use koorde_dht.Prelude.{◌≡◌, refl, true, [], ◌∷◌, ◌++◌, none, some}
use koorde_dht.Result.{ok, err, wrap, errorf}
use koorde_dht.Identifier.Order.{equal, between, cmp}
use koorde_dht.Domain.{Resource}
use koorde_dht.RoutingTable.{get_predecessor, first_successor, get_successor}
use koorde_dht.Storage.Map.{view}
use koorde_dht.LogicNode.Local.{is_responsible}
use koorde_dht.LogicNode.Remote.{retrieve_remote}
use koorde_dht.LogicNode.Answer.{finished}
use koorde_dht.LogicNode.Requests.{put_request, get_request, delete_request}
use koorde_dht.Identifier.Space.Valid.{IsId}
use koorde_dht.Server.Stream.{returned, eof, store_rpc, store_turn, store_received}
use koorde_dht.Server.Stream.Prefix.{put_all, turns, store_rpc_lem}
use koorde_dht.Server.Served.{turn}
use koorde_dht.Server.Remote.{retrieve_remote_lem}
use koorde_dht.Server.Forward.{IsOwner, put-get-delete-owner}
use koorde_dht.LogicNode.Context.{check_context}
use koorde_dht.Tests.Data.{space, space-IsSpace, middle, middle-IsId, middle_node}
use koorde_dht.Tests.Wire.{
  Wire, local, local-IsReferenced, letter, peer, quiet, net, streams, dial, at_wire, stream_wire,
  streams-IsServed,
}

middle_owned : is_responsible peer.rt middle ≡ true
unfolding is_responsible get_predecessor between cmp
middle_owned = refl

middle-IsOwner : IsOwner local peer middle_node middle
middle-IsOwner = record {
  first = unfold first_successor get_successor in refl;
  distinct = unfold equal cmp in refl;
  other = record { nonempty = refl; distinct = refl };
  found = unfold between cmp in refl;
  valid = middle-IsId;
  same_space = refl;
  owned = middle_owned;
}

put-get-delete-owner_example :
    (w1 w2 : Wire) × (put_request streams net.step dial dial 20 local quiet letter
      ≡ finished local w1 none)
    × (view w1.at.store middle ≡ some letter)
    × (get_request streams net.step dial dial 20 local w1 middle
        ≡ finished local w1 (ok (some letter)))
    × (delete_request streams net.step dial dial 20 local w1 middle ≡ finished local w2 none)
    × (view w2.at.store middle ≡ none)
put-get-delete-owner_example =
    put-get-delete-owner streams net.step dial dial 20 local middle_node at_wire stream_wire
      streams-IsServed quiet letter space-IsSpace local-IsReferenced middle-IsOwner

retrieve_remote_lem_example :
    ((r : Resource)
      → view peer.store middle ≡ some r
      → IsId space r.key
      → retrieve_remote streams space quiet "middle:4000" middle ≡ (quiet, ok (some r)))
    × (view peer.store middle ≡ none
        → retrieve_remote streams space quiet "middle:4000" middle ≡ (
          quiet,
          err (wrap "client: failed to convert resource: %w" (errorf "invalid resource key ID")),
        ))
retrieve_remote_lem_example =
    retrieve_remote_lem streams "middle:4000" at_wire stream_wire streams-IsServed quiet
      space-IsSpace middle middle-IsId

store_rpc_lem_example :
    (store_rpc peer (turns (letter ∷ []) ++ (turn (eof none) ∷ []))
      ≡ returned (record peer { store = put_all peer.store (letter ∷ []) }) none)
    × (◌≡◌ {A = _}
        (record peer { store = put_all peer.store (letter ∷ []) })
        (record peer { store = put_all peer.store (letter ∷ []) }))
store_rpc_lem_example =
    store_rpc_lem (letter ∷ []) peer (record peer { store = put_all peer.store (letter ∷ []) })
      (turn (eof none)) [] none space-IsSpace ((middle-IsId, middle_owned), tt)
      (unfold store_turn store_received check_context in refl)
