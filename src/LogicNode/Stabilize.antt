-- ===== src/LogicNode/Stabilize.antt =====
-- internal/node/logicnode/worker.go: stabilizeSuccessor.
pub mod Closer
pub mod Ring
pub mod Lost
use Prim.Native.String.{String}
use koorde_dht.Prelude.{
  ℕ, zero, suc, ◌-◌, Bool, true, false, not, ◌&&◌, List, [], ◌∷◌, Option, none, some, if◌then◌else◌,
}
use koorde_dht.Prelude.Int.{pos}
use koorde_dht.Result.{ok, err, panic}
use koorde_dht.Identifier.Order.{equal, between}
use koorde_dht.Domain.{Node}
use koorde_dht.RoutingTable.{
  RoutingTable, Entry, get_predecessor, first_successor, get_successor, set_successor,
  successor_list, de_bruijn_list, promote_candidate, init_single_node,
}
use koorde_dht.Pool.{Pool, returns, blocks, get_from_pool, add_ref, release}
use koorde_dht.LogicNode.Local.{LocalNode, logged, release_entry}
use koorde_dht.LogicNode.Calls.{predecessor_of, notify_peer}
use koorde_dht.LogicNode.Answer.{Answer, finished, panicked, stuck, unfinished}
use koorde_dht.LogicNode.Network.{Network}

-- The loop over the entries from index i on, m of them: the first candidate with its index.
unfoldable pub find_candidate : RoutingTable → ℕ → ℕ → Option (ℕ × Node)
find_candidate rt i zero = none
find_candidate rt i (suc m) =
    let rest = find_candidate rt (suc i) m in
    elim (get_successor rt (pos i)) [ none ↦ rest | some candidate ↦ some (i, candidate) ]

module _ {W : Type 0} (net : Network W) where
  -- Release of every node of a list; none if a call blocks.
  unfoldable pub release_all : List Node → Pool → Option Pool
  release_all [] p = some p
  release_all (n ∷ nodes) p = elim (logged (release net.dial net.hang_up p n.addr)) [
    | none ↦ none
    | some q ↦ release_all nodes q
  ]

  -- The return to single-node mode.
  unfoldable pub reset_single : LocalNode → W → Answer W (Unit {0})
  reset_single n w = elim (release_entry net.dial net.hang_up n.pool (get_predecessor n.rt)) [
    | none ↦ stuck
    | some p ↦ elim (release_all (successor_list n.rt) p) [
      | none ↦ stuck
      | some q ↦ elim (release_all (de_bruijn_list n.rt) q) [
        | none ↦ stuck
        | some r ↦ finished (record n { rt = init_single_node n.rt; pool = r }) w tt
      ]
    ]
  ]

  -- Step 4: the successor is notified.
  unfoldable pub notify_successor : LocalNode → W → Node → Answer W (Unit {0})
  notify_successor n w succ = elim (equal succ.id n.rt.self.id) [
    | true ↦ finished n w tt
    | false ↦ elim (get_from_pool n.pool succ.addr) [
      | blocks ↦ stuck
      | returns (some e) q ↦ finished (record n { pool = q }) w tt
      | returns none q ↦
          let (later, failed) =
            notify_peer net.streams.ctx_err net.peers n.rt.space (net.with_timeout w) succ.addr
              n.rt.self in
          finished (record n { pool = q }) later tt
    ]
  ]

  -- The test of step 3.
  unfoldable pub is_closer : LocalNode → Node → Node → Bool
  is_closer n pred succ = between pred.id n.rt.self.id succ.id && not (equal pred.id n.rt.self.id)

  -- Steps 3 and 4 when the successor has reported its predecessor.
  unfoldable pub adopt_closer : LocalNode → W → Node → Node → Answer W (Unit {0})
  adopt_closer n w pred succ = elim (is_closer n pred succ) [
    | false ↦ notify_successor n w succ
    | true ↦ elim (logged (add_ref net.dial net.hang_up n.pool pred.addr)) [
      | none ↦ stuck
      | some p ↦ elim (logged (release net.dial net.hang_up p succ.addr)) [
        | none ↦ stuck
        | some q ↦
            notify_successor (record n { rt = set_successor n.rt (pos 0) (some pred); pool = q }) w
              pred
      ]
    ]
  ]

  -- Steps 2 and 4 when it has not. The predecessor is nil, so that step 3 does nothing.
  unfoldable pub promote : LocalNode → W → Node → Answer W (Unit {0})
  promote n w succ = elim (find_candidate n.rt 1 (n.rt.space.succ_list_size - 1)) [
    | none ↦ reset_single n w
    | some (i, candidate) ↦ elim (logged (release net.dial net.hang_up n.pool succ.addr)) [
      | none ↦ stuck
      | some p ↦
          notify_successor (record n { rt = promote_candidate n.rt (pos i); pool = p }) w candidate
    ]
  ]

  unfoldable pub with_predecessor : LocalNode → W → Node → Entry → Answer W (Unit {0})
  with_predecessor n w succ none = promote n w succ
  with_predecessor n w succ (some pred) = adopt_closer n w pred succ

  unfoldable pub stabilize_successor : LocalNode → W → Answer W (Unit {0})
  stabilize_successor n w = elim (first_successor n.rt) [
    | none ↦ finished n w tt
    | some succ ↦ elim (equal succ.id n.rt.self.id) [
      | true ↦ with_predecessor n w succ (get_predecessor n.rt)
      | false ↦ elim (get_from_pool n.pool succ.addr) [
        | blocks ↦ stuck
        | returns (some e) q ↦ finished (record n { pool = q }) w tt
        | returns none q ↦
            let (later, reply) =
              predecessor_of net.streams.ctx_err net.peers n.rt.space (net.with_timeout w)
                succ.addr in
            elim reply [
              | panic ↦ panicked
              | err e ↦ with_predecessor (record n { pool = q }) later succ none
              | ok pred ↦ with_predecessor (record n { pool = q }) later succ pred
            ]
      ]
    ]
  ]
