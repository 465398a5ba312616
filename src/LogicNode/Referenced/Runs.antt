-- ===== src/LogicNode/Referenced/Runs.antt =====
-- Every role stays referenced while a node serves requests and its workers run.
use Prim.Native.String.{String}
use text.Mathlib.Text.{◌==◌ as str_eq}
use text.Mathlib.TextEquality.{eq_iff}
use koorde_dht.Prelude.{
  ℕ, ◌≤◌, length, leb, false, ◌≡◌, refl, List, Option, none, some, inl, inr, arith, ap, sym, ◌∙◌,
  subst, Option-cases, Bool-cases, present-replicate-none,
}
use koorde_dht.Result.{Error}
use koorde_dht.Identifier.Space.{Ident, Space}
use koorde_dht.Domain.{Node, Resource}
use koorde_dht.RoutingTable
use koorde_dht.RoutingTable.{
  Entry, init_single_node, set_successor, set_predecessor, set_de_bruijn, get_predecessor,
  successor_list, de_bruijn_list,
}
use koorde_dht.RoutingTable.Shape.{new-IsTable}
use koorde_dht.Storage.{new_memory_storage}
use koorde_dht.Pool
use koorde_dht.LogicNode.Context.{check_context}
use koorde_dht.LogicNode.References.Swap.{named}
use koorde_dht.Pool.Tally.{AllDialled, Leaves-same, ind, differs}
use koorde_dht.RoutingTable.Single.{init_single_node-IsTable}
use koorde_dht.LogicNode.Local.{
  LocalNode, create_new_dht, notify, handle_leave, store_local, remove_local, is_responsible,
}
use koorde_dht.LogicNode.Answer.{Answer, finished}
use koorde_dht.LogicNode.Network.{Network}
use koorde_dht.LogicNode.Workers.{
  transfer_resources, resource_repair, fix_successor_list, check_predecessor,
}
use koorde_dht.LogicNode.Window.{fix_de_bruijn}
use koorde_dht.LogicNode.Join.{join}
use koorde_dht.LogicNode.Departure.{leave}
use koorde_dht.LogicNode.Referenced.{IsReferenced, IsReferenced-change, Ends, need, is_addr}
use koorde_dht.LogicNode.Referenced.Requests.{
  IsKnown, notify-IsReferenced, handle_leave-IsReferenced,
}
use koorde_dht.LogicNode.Referenced.Rounds.{
  check_predecessor-IsReferenced, fix_successor_list-IsReferenced,
}
use koorde_dht.LogicNode.Referenced.Windows.{
  stored-IsReferenced, fix_de_bruijn-IsReferenced, resource_repair-IsReferenced,
  transfer_resources-IsReferenced,
}
use koorde_dht.LogicNode.Referenced.Joins.{named-set, join-IsReferenced, leave-IsReferenced}

-- The operations that a node runs by itself, stabilizeSuccessor excepted.
pub data Round : Type 0 where
  check fix_list fix_window repair depart : Round
  transfer : Node → List Resource → Round
  enter_ring : List String → Round

-- The answer without its value.
unfoldable pub drop_value : {W A : Type 0} → Answer W A → Answer W (Unit {0})
drop_value (finished n w a) = finished n w tt
drop_value Answer.panicked = Answer.panicked
drop_value Answer.stuck = Answer.stuck
drop_value Answer.unfinished = Answer.unfinished

Ends-drop_value :
    {W A : Type 0} (P : LocalNode → Type 0) (answer : Answer W A)
    → Ends P answer
    → Ends P (drop_value answer)
unfolding Ends drop_value
Ends-drop_value P (finished n w a) h = h
Ends-drop_value P Answer.panicked h = h
Ends-drop_value P Answer.stuck h = h
Ends-drop_value P Answer.unfinished h = h

-- A node with an empty table, store and pool.
unfoldable pub new_node : Node → Space → LocalNode
new_node self sp = record {
  rt = RoutingTable.new self sp;
  store = new_memory_storage;
  pool = Pool.new self.addr;
}

pub new_node-IsReferenced : (self : Node) (sp : Space) → IsReferenced (new_node self sp)
unfolding new_node need RoutingTable.new Pool.new get_predecessor successor_list de_bruijn_list
    named is_addr
new_node-IsReferenced self sp = record {
  table = new-IsTable self sp;
  in_service = record { open_flag = refl; unlocked = refl; used = tt };
  covered = λ a other.
      rw (present-replicate-none sp.succ_list_size, present-replicate-none sp.graph_grade)
        (omega arith);
}

-- Only the node's own address has more roles in the single-node table.
init_single_node-need :
    (rt : RoutingTable.RoutingTable) (a : String) (r : ℕ)
    → str_eq rt.self.addr a ≡ false
    → need rt a ≤ r
    → need (init_single_node rt) a ≤ r
unfolding init_single_node set_successor set_predecessor set_de_bruijn need get_predecessor
    successor_list de_bruijn_list is_addr
init_single_node-need rt a r other le =
    let e = ap ind other in
    elim (Bool-cases (leb rt.space.succ_list_size 0)) [
      | inl no_list ↦ rw no_list (elim (Bool-cases (leb (length rt.de_bruijn) 0)) [
        | inl no_window ↦ rw no_window (omega (arith, e))
        | inr window ↦ rw window (omega (arith, e, named-set rt.de_bruijn rt.self a))
      ])
      | inr list ↦ rw list (elim (Bool-cases (leb (length rt.de_bruijn) 0)) [
        | inl no_window ↦ rw no_window (omega (arith, e, named-set rt.successors rt.self a))
        | inr window ↦
            rw window (
              omega (arith, e, named-set rt.successors rt.self a, named-set rt.de_bruijn rt.self a))
      ])
    ]

pub create_new_dht-IsReferenced :
    (n : LocalNode)
    → n.rt.self.addr ≡ n.pool.self_addr
    → IsReferenced n
    → IsReferenced (create_new_dht n)
unfolding create_new_dht
create_new_dht-IsReferenced n own h =
    IsReferenced-change h (init_single_node-IsTable n.rt h.table)
      (Leaves-same n.pool (λ a r. r) h.in_service (λ a other. refl))
      (λ a other r le.
        init_single_node-need n.rt a r
          (differs a n.rt.self.addr n.rt.self.addr ((eq_iff n.rt.self.addr n.rt.self.addr).1 refl)
            (rw own other.distinct))
          le)

store_local-IsReferenced :
    (ctx_err : Option Error) (n : LocalNode) (r : Resource)
    → IsReferenced n
    → IsReferenced (store_local ctx_err n r).0
unfolding store_local
store_local-IsReferenced ctx_err n r h = elim (Option-cases (check_context ctx_err)) [
  | inr (e, over) ↦ rw (store_local, over) h
  | inl alive ↦ elim (Bool-cases (is_responsible n.rt r.key)) [
    | inl owned ↦ rw (store_local, alive) (rw owned (stored-IsReferenced _ h))
    | inr foreign ↦ rw (store_local, alive) (rw foreign h)
  ]
]

module _ {W : Type 0} (net : Network W) (fuel : ℕ) where
  unfoldable pub round : Round → LocalNode → W → Answer W (Unit {0})
  round check n w = check_predecessor net fuel n w
  round fix_list n w = fix_successor_list net fuel n w
  round fix_window n w = fix_de_bruijn net fuel n w
  round repair n w = resource_repair net fuel n w
  round depart n w = drop_value (leave net fuel n w)
  round (transfer p resources) n w = transfer_resources net fuel n w p resources
  round (enter_ring peers) n w = drop_value (join net fuel n w peers)

  -- If every address can be dialled and the pool references every role of another node's address, then no round
  -- of checkPredecessor, fixSuccessorList, fixDeBruijn, resourceRepair or transferResourcesAsync, no
  -- Join and no Leave is stuck on the pool, whatever the network answers; and if it finishes, every
  -- role is referenced again.
  pub round-IsReferenced :
      AllDialled net.dial net.hang_up
      → (r : Round) (n : LocalNode) (w : W) → IsReferenced n
      → Ends IsReferenced (round r n w)
  unfolding round
  round-IsReferenced dialled check n w h = check_predecessor-IsReferenced net fuel dialled n w h
  round-IsReferenced dialled fix_list n w h = fix_successor_list-IsReferenced net fuel dialled n w h
  round-IsReferenced dialled fix_window n w h = fix_de_bruijn-IsReferenced net fuel dialled n w h
  round-IsReferenced dialled repair n w h = resource_repair-IsReferenced net fuel n w h
  round-IsReferenced dialled depart n w h =
      Ends-drop_value IsReferenced _ (leave-IsReferenced net fuel n w h)
  round-IsReferenced dialled (transfer p resources) n w h =
      transfer_resources-IsReferenced net fuel n w p resources h
  round-IsReferenced dialled (enter_ring peers) n w h =
      Ends-drop_value IsReferenced _ (join-IsReferenced net fuel dialled n w peers h)

  -- A step of a node: a round, whatever the state of the network, or a request of another node.
  pub data Step (n m : LocalNode) : Type 0 where
    ran : (r : Round) (w v : W) → round r n w ≡ finished m v tt → Step n m
    notified :
        (e : Entry) (resources : List Resource)
        → notify net.dial net.hang_up n e ≡ some (m, resources)
        → Step n m
    left :
        (leaving : Node)
        → IsKnown n leaving
        → handle_leave net.dial net.hang_up n (some leaving) ≡ some m
        → Step n m
    stored : (ctx_err : Option Error) (r : Resource) → (store_local ctx_err n r).0 ≡ m → Step n m
    removed : (id : Ident) → (remove_local n id).0 ≡ m → Step n m
    created : n.rt.self.addr ≡ n.pool.self_addr → create_new_dht n ≡ m → Step n m

  pub data Reach (n : LocalNode) : LocalNode → Type 0 where
    here : Reach n n
    next : {m m' : LocalNode} → Reach n m → Step m m' → Reach n m'

  Step-IsReferenced :
      AllDialled net.dial net.hang_up
      → (n m : LocalNode) → Step n m
      → IsReferenced n
      → IsReferenced m
  Step-IsReferenced dialled n m (ran r w v e) h =
      unfold Ends in rw e at (round-IsReferenced dialled r n w h)
  Step-IsReferenced dialled n m (notified p resources e) h =
      let (m', resources', e', k) = notify-IsReferenced net.dial net.hang_up dialled n p h in
      subst IsReferenced
        (ap (λ (o : Option (LocalNode × List Resource)). elim o [ none ↦ n | some x ↦ x.0 ])
          (sym e' ∙ e))
        k
  Step-IsReferenced dialled n m (left leaving known e) h =
      let (m', e', k) = handle_leave-IsReferenced net.dial net.hang_up n leaving h known in
      subst IsReferenced
        (ap (λ (o : Option LocalNode). elim o [ none ↦ n | some x ↦ x ]) (sym e' ∙ e)) k
  Step-IsReferenced dialled n m (stored ctx_err r e) h =
      subst IsReferenced e (store_local-IsReferenced ctx_err n r h)
  Step-IsReferenced dialled n m (removed id e) h =
      subst IsReferenced e (unfold remove_local in stored-IsReferenced _ h)
  Step-IsReferenced dialled n m (created own e) h =
      subst IsReferenced e (create_new_dht-IsReferenced n own h)

  Reach-kept :
      AllDialled net.dial net.hang_up
      → {n m : LocalNode} → Reach n m
      → IsReferenced n
      → IsReferenced m
  Reach-kept dialled here h = h
  Reach-kept dialled (next {m = m} {m' = m'} r step) h =
      Step-IsReferenced dialled m m' step (Reach-kept dialled r h)

  -- If every address can be dialled, then in every state that a new node reaches, by creating or
  -- joining a DHT, by requests of other nodes and by the rounds of its workers other than stabilizeSuccessor, its pool is in
  -- service and holds for the address of every other node at least as many references as it has
  -- roles in the routing table: successor, de Bruijn node and predecessor. A predecessor that leaves is assumed to give the address under which
  -- it is known.
  pub Reach-IsReferenced :
      AllDialled net.dial net.hang_up
      → (self : Node) (sp : Space) (m : LocalNode) → Reach (new_node self sp) m
      → IsReferenced m
  Reach-IsReferenced dialled self sp m r = Reach-kept dialled r (new_node-IsReferenced self sp)
