-- ===== src/LogicNode/Stabilize/Lost.antt =====
-- A round of stabilizeSuccessor whose successor has no predecessor.
use koorde_dht.Prelude.{
  ◌-◌, ◌≡◌, ◌∙◌, refl, false, inl, inr, Bool-cases, leb, length, drop, List, [], ◌∷◌, none, some,
}
use koorde_dht.Result.{err, no_predecessor}
use koorde_dht.Identifier.Order.{equal}
use koorde_dht.Domain.{Node}
use koorde_dht.RoutingTable.{
  get_predecessor, first_successor, successor_list, de_bruijn_list, init_single_node, RoutingTable,
  Entry, get_successor, set_de_bruijn, set_predecessor,
}
use koorde_dht.Prelude.Int.{pos}
use koorde_dht.RoutingTable.Shape.{first_successor-cons, set_successor-first}
use koorde_dht.Pool.{Pool, returns, get_from_pool}
use koorde_dht.Pool.Counts.{IsOpen}
use koorde_dht.Pool.Tally.{release-Leaves}
use koorde_dht.LogicNode.Context.{check_context, is_deadline}
use koorde_dht.LogicNode.Local.{LocalNode}
use koorde_dht.LogicNode.Calls.{predecessor_of, has_not_found_code}
use koorde_dht.LogicNode.Answer.{finished}
use koorde_dht.LogicNode.Network.{Network}
use koorde_dht.LogicNode.Referenced.Requests.{release_entry-Leaves}
use koorde_dht.LogicNode.Stabilize.{
  find_candidate, release_all, reset_single, promote, with_predecessor, stabilize_successor,
}
use koorde_dht.Server.Dht.{get_predecessor_rpc}

set_de_bruijn-keeps :
    (rt : RoutingTable) (e : Entry)
    → (first_successor (set_de_bruijn rt (pos 0) e) ≡ first_successor rt)
      × (get_predecessor (set_de_bruijn rt (pos 0) e) ≡ get_predecessor rt)
unfolding set_de_bruijn first_successor get_successor get_predecessor
set_de_bruijn-keeps rt e = elim (Bool-cases (leb (length rt.de_bruijn) 0)) [
  | inl out ↦ rw out (refl, refl)
  | inr fits ↦ rw fits (refl, refl)
]

-- InitSingleNode of a table with a first successor.
init_single_node-first :
    (rt : RoutingTable) (succ : Node)
    → first_successor rt ≡ some succ
    → (first_successor (init_single_node rt) ≡ some rt.self)
      × (get_predecessor (init_single_node rt) ≡ some rt.self)
unfolding init_single_node set_predecessor
init_single_node-first rt succ h =
    let (fits, cons) = first_successor-cons rt succ h in
    rw (set_successor-first rt succ (some rt.self) h) (
      let (first, before) =
        set_de_bruijn-keeps
          (set_predecessor (record rt { successors = some rt.self ∷ drop 1 rt.successors })
            (some rt.self))
          (some rt.self) in
      (
        first ∙ unfold first_successor get_successor set_predecessor in rw fits refl,
        before ∙ unfold get_predecessor set_predecessor in refl,
      ))

module _ {W : Type 0} (net : Network W) where
  release_all-IsOpen :
      (nodes : List Node) (p : Pool)
      → IsOpen p
      → (q : Pool) × (release_all net nodes p ≡ some q) × IsOpen q
  unfolding release_all
  release_all-IsOpen [] p h = (p, refl, h)
  release_all-IsOpen (n ∷ nodes) p h =
      let (e, r, released, l) = release-Leaves net.dial net.hang_up p n.addr h in
      let (q, ran, service) = release_all-IsOpen nodes r l.in_service in
      (q, rw (release_all, released) ran, service)

  reset_single-ends :
      (n : LocalNode) (w : W)
      → IsOpen n.pool
      → (q : Pool) × (reset_single net n w
          ≡ finished (record n { rt = init_single_node n.rt; pool = q }) w tt)
  unfolding reset_single
  reset_single-ends n w h =
      let (p, first, l) =
        release_entry-Leaves net.dial net.hang_up n.pool (get_predecessor n.rt) h in
      let (q, second, service) = release_all-IsOpen (successor_list n.rt) p l.in_service in
      let (r, third, _) = release_all-IsOpen (de_bruijn_list n.rt) q service in
      (r, rw (reset_single, first) (rw second (rw third refl)))

  -- The successor is another node, over a pooled connection; it is alive and answers GetPredecessor,
  -- but has no predecessor.
  pub record IsLonely (n : LocalNode) (w : W) (succ : Node) (peer : LocalNode) : Type 0 where
    pub first : first_successor n.rt ≡ some succ
    pub distinct : equal succ.id n.rt.self.id ≡ false
    pub pooled : get_from_pool n.pool succ.addr ≡ returns none n.pool
    pub alive : net.streams.ctx_err (net.with_timeout w) ≡ none
    pub answers :
        (net.peers.predecessor (net.with_timeout w) succ.addr).1 ≡ get_predecessor_rpc none peer
    pub lonely : get_predecessor peer.rt ≡ none

  -- The client reports ErrNoPredecessor.
  lonely-answer :
      (n : LocalNode) (w : W) (succ : Node) (peer : LocalNode)
      → IsLonely n w succ peer
      → (predecessor_of net.streams.ctx_err net.peers n.rt.space (net.with_timeout w) succ.addr).1
        ≡ err no_predecessor
  unfolding predecessor_of get_predecessor_rpc check_context is_deadline has_not_found_code
  lonely-answer n w succ peer l =
      rw (predecessor_of, l.alive) (rw l.answers (rw (get_predecessor_rpc, l.lonely) refl))

  -- Let a node's pool be in service and have a connection to its successor, another node, which
  -- answers GetPredecessor in time, but has no predecessor. Then stabilizeSuccessor gives it up: with
  -- no other candidate in the successor list the node becomes its own first successor and its own
  -- predecessor, over the table that InitSingleNode makes of its own; nothing stored changes.
  pub stabilize_successor-lonely :
      (n : LocalNode) (w : W) (succ : Node) (peer : LocalNode)
      → IsOpen n.pool
      → IsLonely n w succ peer
      → find_candidate n.rt 1 (n.rt.space.succ_list_size - 1) ≡ none
      → (m : LocalNode) × (v : W) × (stabilize_successor net n w ≡ finished m v tt)
        × (m.rt ≡ init_single_node n.rt)
        × (first_successor m.rt ≡ some n.rt.self)
        × (get_predecessor m.rt ≡ some n.rt.self)
        × (m.store ≡ n.store)
  unfolding stabilize_successor with_predecessor promote
  stabilize_successor-lonely n w succ peer h l alone =
      let later =
        (predecessor_of net.streams.ctx_err net.peers n.rt.space (net.with_timeout w)
          succ.addr).0 in
      let (q, reset) = reset_single-ends n later h in
      let (first, before) = init_single_node-first n.rt succ l.first in
      (
        record n { rt = init_single_node n.rt; pool = q },
        later,
        rw (stabilize_successor, l.first)
            (rw l.distinct
              (rw l.pooled (rw (lonely-answer n w succ peer l) (rw (promote, alone) reset)))),
        refl,
        first,
        before,
        refl,
      )
