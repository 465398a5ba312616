-- ===== src/LogicNode/Workers.antt =====
-- internal/node/logicnode/worker.go: resourceRepair, fixSuccessorList and checkPredecessor, and
-- transferResourcesAsync of operation.go.
pub mod Repair
use Prim.Native.String.{String}
use koorde_dht.Prelude.{
  ℕ, zero, suc, Bool, true, false, List, [], ◌∷◌, Option, none, some, replicate, present,
}
use koorde_dht.Result.{Error, Result, ok, err, panic}
use koorde_dht.Identifier.Space.{Ident}
use koorde_dht.Identifier.Order.{equal}
use koorde_dht.Domain.{Node, Resource}
use koorde_dht.RoutingTable.{
  Entry, get_predecessor, set_predecessor, first_successor, successor_list, set_successor_list,
}
use koorde_dht.Storage.{delete, resources_between}
use koorde_dht.Pool.{returns, blocks, get_from_pool, release}
use koorde_dht.LogicNode.Lookup.{done, blocked, running, find_successor_init}
use koorde_dht.LogicNode.Local.{LocalNode, logged, remove_transferred}
use koorde_dht.LogicNode.Remote.{store_remote}
use koorde_dht.LogicNode.Calls.{successors_of, ping_peer}
use koorde_dht.LogicNode.Answer.{Answer, finished, panicked, stuck, unfinished}
use koorde_dht.LogicNode.Requests.{connect}
use koorde_dht.LogicNode.Network.{Network}
use koorde_dht.LogicNode.References.{swap_references}

-- The new list after its first entry, with m places: the remote entries up to this node's own.
unfoldable pub fill_successors : Ident → ℕ → List Entry → List Entry
fill_successors self zero remote = []
fill_successors self (suc m) [] = replicate (suc m) none
fill_successors self (suc m) (none ∷ remote) = none ∷ fill_successors self m remote
fill_successors self (suc m) (some n ∷ remote) =
    let rest = fill_successors self m remote in
    elim (equal n.id self) [ true ↦ replicate (suc m) none | false ↦ some n ∷ rest ]

module _ {W : Type 0} (net : Network W) (fuel : ℕ) where
  unfoldable pub transfer_resources : LocalNode → W → Node → List Resource → Answer W (Unit {0})
  transfer_resources n w p resources = elim (get_from_pool n.pool p.addr) [
    | blocks ↦ stuck
    | returns (some e) q ↦ finished (record n { pool = q }) w tt
    | returns none q ↦
        let (later, failed, error) =
          store_remote net.streams (net.with_timeout w) p.addr resources in
        elim error [
          | some e ↦ finished (record n { pool = q }) later tt
          | none ↦
              finished (record n { pool = q; store = remove_transferred n.store resources failed })
                later tt
        ]
  ]

  -- The part of a round of resourceRepair after the lookup: the resource goes to `owner`, whose
  -- answer alone decides on the deletion; the resources that could not be sent are not looked at.
  unfoldable pub repair_at : LocalNode → W → Resource → Node → Answer W (Unit {0})
  repair_at n w res owner = elim (equal owner.id n.rt.self.id) [
    | true ↦ finished n w tt
    | false ↦ elim (connect net.streams net.step net.dial net.hang_up fuel n.pool owner.addr) [
      | blocks ↦ stuck
      | returns (some e) q ↦ finished (record n { pool = q }) w tt
      | returns none q ↦
          let (later, failed, error) = store_remote net.streams w owner.addr (res ∷ []) in
          elim error [
            | some e ↦ finished (record n { pool = q }) later tt
            | none ↦ finished (record n { pool = q; store = (delete n.store res.key).0 }) later tt
          ]
    ]
  ]

  unfoldable pub repair_one : LocalNode → W → Resource → Answer W (Unit {0})
  repair_one n w res =
      elim (find_successor_init net.streams.ctx_err net.step n.rt fuel res.key n.pool w) [
        | blocked ↦ stuck
        | running ↦ unfinished
        | done panic p v ↦ panicked
        | done (err e) p v ↦ finished (record n { pool = p }) v tt
        | done (ok none) p v ↦ finished (record n { pool = p }) v tt
        | done (ok (some owner)) p v ↦ repair_at (record n { pool = p }) v res owner
      ]

  unfoldable pub repair_all : LocalNode → W → List Resource → Answer W (Unit {0})
  repair_all n w [] = finished n w tt
  repair_all n w (res ∷ resources) = elim (repair_one n w res) [
    | finished m v _ ↦ repair_all m v resources
    | panicked ↦ panicked
    | stuck ↦ stuck
    | unfinished ↦ unfinished
  ]

  unfoldable pub resource_repair : LocalNode → W → Answer W (Unit {0})
  resource_repair n w = elim (get_predecessor n.rt) [
    | none ↦ finished n w tt
    | some pred ↦ repair_all n w (resources_between n.store n.rt.self.id pred.id)
  ]

  -- The new list of fixSuccessorList. An empty list has no first entry to write.
  unfoldable pub install_successors : LocalNode → W → Node → List Entry → Answer W (Unit {0})
  install_successors n w succ remote = elim n.rt.space.succ_list_size [
    | zero ↦ panicked
    | suc m ↦
        let list = some succ ∷ fill_successors n.rt.self.id m remote in
        elim (swap_references net.dial net.hang_up (successor_list n.rt) (present list) n.pool) [
          | none ↦ stuck
          | some p ↦ finished (record n { rt = set_successor_list n.rt list; pool = p }) w tt
        ]
  ]

  unfoldable pub fix_successor_list : LocalNode → W → Answer W (Unit {0})
  fix_successor_list n w = elim (first_successor n.rt) [
    | none ↦ finished n w tt
    | some succ ↦ elim (equal succ.id n.rt.self.id) [
      | true ↦ finished n w tt
      | false ↦ elim (get_from_pool n.pool succ.addr) [
        | blocks ↦ stuck
        | returns (some e) q ↦ finished (record n { pool = q }) w tt
        | returns none q ↦
            let (later, reply) =
              successors_of net.streams.ctx_err net.peers n.rt.space (net.with_timeout w)
                succ.addr in
            elim reply [
              | panic ↦ panicked
              | err e ↦ finished (record n { pool = q }) later tt
              | ok remote ↦ install_successors (record n { pool = q }) later succ remote
            ]
      ]
    ]
  ]

  unfoldable pub check_predecessor : LocalNode → W → Answer W (Unit {0})
  check_predecessor n w = elim (get_predecessor n.rt) [
    | none ↦ finished n w tt
    | some pred ↦ elim (equal pred.id n.rt.self.id) [
      | true ↦ finished n w tt
      | false ↦ elim (get_from_pool n.pool pred.addr) [
        | blocks ↦ stuck
        | returns (some e) q ↦ finished (record n { rt = set_predecessor n.rt none; pool = q }) w tt
        | returns none q ↦
            let (later, failed) =
              ping_peer net.streams.ctx_err net.peers n.rt.space (net.with_timeout w) pred.addr in
            elim failed [
              | none ↦ finished (record n { pool = q }) later tt
              | some e ↦ elim (logged (release net.dial net.hang_up q pred.addr)) [
                | none ↦ stuck
                | some r ↦ finished (record n { rt = set_predecessor n.rt none; pool = r }) later tt
              ]
            ]
      ]
    ]
  ]
