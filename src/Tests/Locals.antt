-- ===== src/Tests/Locals.antt =====
-- Runs of the theorems on a node's own state.
use Prim.Native.String.{String}
use koorde_dht.Prelude.{
  ◌≡◌, ◌↔◌, false, not, ◌&&◌, refl, [], ◌∷◌, Option, none, some, arith, if◌then◌else◌,
}
use koorde_dht.Result.{Error, ok}
use koorde_dht.Identifier.Order.{equal}
use koorde_dht.Domain.{
  Resource, node_to_proto, node_from_proto, resource_to_proto, resource_from_proto,
}
use koorde_dht.Domain.Client.{node_to_client, node_from_client}
use koorde_dht.Domain.RoundTrip.{messages_round_trip}
use koorde_dht.RoutingTable.{get_predecessor, set_predecessor}
use koorde_dht.Storage.{store_key, resources_between}
use koorde_dht.Storage.Map.{view}
use koorde_dht.Pool.{Pool}
use koorde_dht.Pool.Counts.{lose, IsOpen, refs, total}
use koorde_dht.LogicNode.Local.{LocalNode, store_local, notify, handle_leave, remove_transferred}
use koorde_dht.Domain.{Node}
use koorde_dht.Prelude.{subst}
use koorde_dht.Identifier.Space.Valid.{IsId}
use koorde_dht.LogicNode.Local.Ownership.{succeeds, Owns, IsPlaced, store_local_lem}
use koorde_dht.LogicNode.Local.Predecessor.{accepts, changes, notify_lem, handle_leave_lem}
use koorde_dht.LogicNode.Local.Transfer.{has_key, remove_transferred-view}
use koorde_dht.Tests.Data.{
  space, space-IsSpace, table, low, middle, high, low-IsId, middle-IsId, high-IsId, middle_node,
  high_node,
}

abbrev letter : Resource
letter = record { key = middle; raw_key = "letter"; value = "a" }

abbrev digit : Resource
digit = record { key = high; raw_key = "digit"; value = "1" }

-- A node that follows the node with the high identifier.
abbrev local : LocalNode
local = record {
  rt = table;
  store = (store_key middle, letter) ∷ (store_key high, digit) ∷ [];
  pool = record {
    self_addr = "low:4000";
    clients = ("high:4000", 2) ∷ [];
    closed = false;
    locked = false;
  };
}

local-IsOpen : IsOpen local.pool
local-IsOpen = record { open_flag = refl; unlocked = refl; used = (omega arith, tt) }

abbrev dial : String → Option Error
dial addr = none

abbrev hang_up : String → Option Error
hang_up addr = none

notify_lem_example :
    (q : Pool) × (notify dial hang_up local (some middle_node) ≡ (
      if accepts local middle_node
      then some (
        record local { rt = set_predecessor table (some middle_node); pool = q },
        resources_between local.store low middle,
      )
      else some (local, [])))
    × IsOpen q
    × ((a : String)
        → refs q a
          ≡ total dial hang_up (changes middle_node (some high_node)) a (refs local.pool a))
unfolding get_predecessor
notify_lem_example =
    notify_lem dial hang_up local middle_node local-IsOpen ((refl, refl), (refl, tt))

handle_leave_lem_example :
    (q : Pool) × (handle_leave dial hang_up local (some high_node) ≡ (
      if equal high high
      then some (record local { rt = set_predecessor table none; pool = q })
      else some local))
    × IsOpen q
    × ((a : String) → refs q a ≡ total dial hang_up (lose "high:4000" ∷ []) a (refs local.pool a))
unfolding get_predecessor
handle_leave_lem_example =
    handle_leave_lem dial hang_up local high_node high_node local-IsOpen refl refl

remove_transferred-view_example :
    view (remove_transferred local.store (letter ∷ digit ∷ []) (digit ∷ [])) middle ≡ (
      if has_key middle (letter ∷ digit ∷ []) && not (has_key middle (digit ∷ []))
      then none
      else view local.store middle)
remove_transferred-view_example =
    remove_transferred-view local.store (letter ∷ digit ∷ []) (digit ∷ []) middle middle-IsId.bytes
      (middle-IsId.bytes, (high-IsId.bytes, tt)) (high-IsId.bytes, tt)

placed : IsPlaced table
placed = record { own = low-IsId; before = before }
  where
    before : (p : Node) → table.predecessor ≡ some p → IsId space p.id
    before p e =
        let same : high_node ≡ p = cc in subst (λ (n : Node). IsId space n.id) same high-IsId

store_local_lem_example :
    (((store_local none local digit).1 ≡ none)
      ↔ ((◌≡◌ {A = Option Error} none none) × Owns table high))
    × (view (store_local none local digit).0.store low ≡ (
        if succeeds (store_local none local digit).1 && equal high low
        then some digit
        else view local.store low))
    × ((store_local none local digit).0.rt ≡ table)
    × ((store_local none local digit).0.pool ≡ local.pool)
store_local_lem_example = store_local_lem none local digit low placed high-IsId low-IsId.bytes

messages_round_trip_example :
    (node_from_proto space (node_to_proto (some high_node)) ≡ ok (some high_node))
    × (node_from_client space (node_to_client (some high_node)) ≡ ok (some high_node))
    × (resource_from_proto space (resource_to_proto (some letter)) ≡ ok (some letter))
messages_round_trip_example =
    messages_round_trip space-IsSpace high_node letter high-IsId middle-IsId
