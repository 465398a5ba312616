-- ===== src/Tests/Workers.antt =====
-- Runs of the theorems on the workers, on the references of the pool and on the ring.
use koorde_dht.Prelude.{
  ◌+◌, ◌-◌, ◌≡◌, refl, true, false, not, ◌&&◌, ◌||◌, ◌<◌, inr, List, [], ◌∷◌, none, some, arith,
  if◌then◌else◌,
}
use koorde_dht.Identifier.Order.{equal}
use koorde_dht.Identifier.Order.{between, cmp}
use koorde_dht.Identifier.Space.{is_valid_id, is_over}
use koorde_dht.Prelude.Assoc.{lookup}
use koorde_dht.Domain.{Resource, node_to_proto, node_from_proto}
use koorde_dht.RoutingTable
use koorde_dht.RoutingTable.{
  get_predecessor, first_successor, get_successor, set_successor, set_predecessor, set_de_bruijn,
  init_single_node, successor_list, de_bruijn_list,
}
use koorde_dht.Storage.{resources_between}
use koorde_dht.Storage.Map.{view}
use koorde_dht.Pool
use koorde_dht.Pool.{Pool, returns, get_from_pool, get_from_pool_locked}
use koorde_dht.Pool.Counts.{IsOpen}
use koorde_dht.Pool.Tally.{ind, Leaves}
use koorde_dht.LogicNode.Context.{check_context}
use koorde_dht.LogicNode.Local.{LocalNode, create_new_dht, notify}
use koorde_dht.LogicNode.Local.Transfer.{Keys}
use koorde_dht.LogicNode.Calls.{predecessor_of}
use koorde_dht.LogicNode.Requests.{connect}
use koorde_dht.Server.Dht.{get_predecessor_rpc}
use koorde_dht.LogicNode.Referenced.Requests.{notify-IsReferenced}
use koorde_dht.LogicNode.Remote.{store_remote}
use koorde_dht.LogicNode.Answer.{finished}
use koorde_dht.LogicNode.References.{swap_references}
use koorde_dht.LogicNode.References.Swap.{named, swap_references_lem}
use koorde_dht.LogicNode.Workers.{repair_at, resource_repair}
use koorde_dht.LogicNode.Workers.Repair.{IsKept, repair_at_lem, resource_repair-IsKept}
use koorde_dht.LogicNode.Stabilize.{find_candidate, stabilize_successor}
use koorde_dht.Prelude.{◌⊎◌, drop}
use koorde_dht.LogicNode.Stabilize.Closer.{IsCloser}
use koorde_dht.LogicNode.Stabilize.Ring.{
  Reports, stabilize_successor_lem, notify-stabilize_successor,
}
use koorde_dht.LogicNode.Stabilize.Lost.{stabilize_successor-lonely}
use koorde_dht.LogicNode.Referenced.{is_addr, IsReferenced, Ends}
use koorde_dht.LogicNode.Referenced.Runs.{
  fix_window, round, round-IsReferenced, new_node, new_node-IsReferenced,
  create_new_dht-IsReferenced, created, notified, here, next, Reach-IsReferenced,
}
use koorde_dht.LogicNode.Referenced.Pooled.{IsReferenced-get_from_pool}
use koorde_dht.Tests.Data.{
  space, low, middle, high, low_node, middle_node, high_node, low-IsId, middle-IsId, high-IsId,
}
use koorde_dht.Tests.Wire.{
  local, local-IsOpen, local-IsReferenced, letter, peer, quiet, net, dial, Wire,
}

swap_references_lem_example :
    (q : Pool) × (swap_references dial dial
        (middle_node ∷ high_node ∷ [])
        (middle_node ∷ low_node ∷ [])
        local.pool
      ≡ some q)
    × Leaves local.pool q (λ a n.
      n
      + ind (named a (middle_node ∷ low_node ∷ []) && not (named a (middle_node ∷ high_node ∷ [])))
      - ind (named a (middle_node ∷ high_node ∷ []) && not (named a (middle_node ∷ low_node ∷ []))))
swap_references_lem_example =
    swap_references_lem dial dial (λ addr. refl) (middle_node ∷ high_node ∷ [])
      (middle_node ∷ low_node ∷ []) local.pool local-IsOpen

round-IsReferenced_example : Ends IsReferenced (round net 20 fix_window local quiet)
round-IsReferenced_example =
    round-IsReferenced net 20 (λ addr. refl) fix_window local quiet local-IsReferenced

high_named :
    (named "high:4000" (successor_list local.rt)
      || named "high:4000" (de_bruijn_list local.rt)
      || is_addr "high:4000" (get_predecessor local.rt))
    ≡ true
unfolding named successor_list
high_named = refl

IsReferenced-get_from_pool_example : get_from_pool local.pool "high:4000" ≡ returns none local.pool
IsReferenced-get_from_pool_example =
    IsReferenced-get_from_pool local "high:4000" local-IsReferenced
      (record { nonempty = refl; distinct = refl }) high_named

-- A node that creates a DHT, to which the middle node presents itself.
abbrev alone : LocalNode
alone = create_new_dht (new_node low_node space)

alone_state : IsReferenced alone
alone_state =
    create_new_dht-IsReferenced (new_node low_node space)
      (unfold new_node Pool.new RoutingTable.new in refl) (new_node-IsReferenced low_node space)

notified_alone :
    (m : LocalNode) × (resources : List Resource) × (notify dial dial alone (some middle_node)
      ≡ some (m, resources))
    × IsReferenced m
notified_alone = notify-IsReferenced dial dial (λ addr. refl) alone (some middle_node) alone_state

Reach-IsReferenced_example : IsReferenced notified_alone.0
Reach-IsReferenced_example =
    Reach-IsReferenced net 20 (λ addr. refl) low_node space notified_alone.0
      (next (next here (created (unfold new_node Pool.new RoutingTable.new in refl) refl))
        (notified (some middle_node) notified_alone.1 notified_alone.2))

connected :
    connect net.streams net.step dial dial 20 local.pool "middle:4000" ≡ returns none local.pool
unfolding connect get_from_pool get_from_pool_locked lookup
connected = refl

arc-Keys : Keys (resources_between local.store low high)
unfolding resources_between between cmp
arc-Keys = (middle-IsId.bytes, (high-IsId.bytes, tt))

repair_at_lem_example :
    (m : LocalNode) × (repair_at net 20 local quiet letter middle_node
      ≡ finished m (store_remote net.streams quiet "middle:4000" (letter ∷ [])).0 tt)
    × (view m.store middle ≡ (
        if equal middle middle
        then elim (store_remote net.streams quiet "middle:4000" (letter ∷ [])).2 [
          | none ↦ none
          | some e ↦ view local.store middle
        ]
        else view local.store middle))
repair_at_lem_example =
    repair_at_lem net 20 local quiet letter middle_node middle middle-IsId.bytes middle-IsId.bytes
      (unfold equal cmp in refl) connected

resource_repair-IsKept_example : Ends (IsKept local low) (resource_repair net 20 local quiet)
resource_repair-IsKept_example =
    resource_repair-IsKept net 20 local quiet high_node low local-IsOpen
      (unfold get_predecessor in refl) arc-Keys low-IsId.bytes (unfold between cmp in refl)

reported : Reports net local quiet middle_node low_node
unfolding Reports equal cmp get_from_pool get_from_pool_locked lookup predecessor_of check_context
    get_predecessor_rpc get_predecessor node_to_proto node_from_proto is_valid_id is_over
reported = inr (refl, refl, refl)

stabilize_successor_lem_example :
    (m : LocalNode) × (v : Wire) × (stabilize_successor net local quiet ≡ finished m v tt)
    × (m.store ≡ local.store)
    × IsOpen m.pool
    × ((IsCloser local low_node middle_node
          × (m.rt ≡ record local.rt { successors = some low_node ∷ drop 1 local.rt.successors }))
        ⊎ (¬ IsCloser local low_node middle_node × (m.rt ≡ local.rt)))
stabilize_successor_lem_example =
    stabilize_successor_lem net (λ addr. refl) local quiet middle_node low_node local-IsOpen
      (unfold first_successor get_successor in refl) reported low-IsId middle-IsId low-IsId

alone_table :
    (first_successor alone.rt ≡ some alone.rt.self)
    × (get_predecessor alone.rt ≡ some alone.rt.self)
    × (0 < alone.rt.space.succ_list_size)
    × (equal middle_node.id alone.rt.self.id ≡ false)
unfolding create_new_dht new_node RoutingTable.new init_single_node set_successor set_predecessor
    set_de_bruijn first_successor get_successor get_predecessor equal cmp
alone_table = (refl, refl, omega arith, refl)

notify-stabilize_successor_example :
    (m m' : LocalNode) × (resources : List Resource) × (v : Wire) × (notify dial dial alone
        (some middle_node)
      ≡ some (m, resources))
    × (stabilize_successor net m quiet ≡ finished m' v tt)
    × (get_predecessor m'.rt ≡ some middle_node)
    × (first_successor m'.rt ≡ some middle_node)
notify-stabilize_successor_example =
    notify-stabilize_successor net (λ addr. refl) alone quiet middle_node alone_state.in_service
      alone_state.table alone_table.2 alone_table.0 alone_table.1 alone_table.3

-- The middle node after its predecessor has left.
abbrev lonely : Wire
lonely = record quiet { at = record peer { rt = set_predecessor peer.rt none } }

-- The node with the low identifier, with no successor but the middle node.
abbrev follower : LocalNode
follower = record local {
  rt = record local.rt { successors = some middle_node ∷ none ∷ none ∷ [] };
}

stabilize_successor-lonely_example :
    (m : LocalNode) × (v : Wire) × (stabilize_successor net follower lonely ≡ finished m v tt)
    × (m.rt ≡ init_single_node follower.rt)
    × (first_successor m.rt ≡ some follower.rt.self)
    × (get_predecessor m.rt ≡ some follower.rt.self)
    × (m.store ≡ follower.store)
stabilize_successor-lonely_example =
    stabilize_successor-lonely net follower lonely middle_node lonely.at local-IsOpen
      (record {
        first = unfold first_successor get_successor in refl;
        distinct = unfold equal cmp in refl;
        pooled = unfold get_from_pool get_from_pool_locked lookup in refl;
        alive = refl;
        answers = refl;
        lonely = unfold get_predecessor set_predecessor in refl;
      })
      (unfold find_candidate get_successor in refl)
