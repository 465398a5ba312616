-- ===== src/LogicNode/Departure.antt =====
-- internal/node/logicnode/node.go: Leave and Stop.
use koorde_dht.Prelude.{ℕ, true, false, List, [], ◌∷◌, Option, none, some}
use koorde_dht.Result.{Error, ok, err, panic, wrap}
use koorde_dht.Identifier.Order.{equal}
use koorde_dht.Domain.{Node, Resource}
use koorde_dht.RoutingTable.{first_successor}
use koorde_dht.Storage.{all}
use koorde_dht.Pool.{returns, blocks, get_from_pool, close}
use koorde_dht.LogicNode.Local.{LocalNode}
use koorde_dht.LogicNode.Remote.{store_remote}
use koorde_dht.LogicNode.Calls.{find_successor_start, leave_peer}
use koorde_dht.LogicNode.Answer.{Answer, finished, panicked, stuck, unfinished}
use koorde_dht.LogicNode.Requests.{connect}
use koorde_dht.LogicNode.Network.{Network}

module _ {W : Type 0} (net : Network W) (fuel : ℕ) where
  -- A round of the retries after the lookup: the resource goes to its owner.
  unfoldable pub retry_at : LocalNode → W → Resource → Node → Answer W (Unit {0})
  retry_at n w res owner = elim (equal owner.id n.rt.self.id) [
    | true ↦ finished n w tt
    | false ↦ elim (connect net.streams net.step net.dial net.hang_up fuel n.pool owner.addr) [
      | blocks ↦ stuck
      | returns (some e) q ↦ finished (record n { pool = q }) w tt
      | returns none q ↦
          let (later, failed, e) =
            store_remote net.streams (net.with_timeout w) owner.addr (res ∷ []) in
          finished (record n { pool = q }) later tt
    ]
  ]

  unfoldable pub retry_one : LocalNode → W → Node → Resource → Answer W (Unit {0})
  retry_one n w succ res =
      let (later, reply) =
        find_successor_start net.streams.ctx_err net.peers n.rt.space (net.with_timeout w) succ.addr
          res.key in
      elim reply [
        | panic ↦ panicked
        | err e ↦ finished n later tt
        | ok none ↦ finished n later tt
        | ok (some owner) ↦ retry_at n later res owner
      ]

  unfoldable pub retry_all : LocalNode → W → Node → List Resource → Answer W (Option Error)
  retry_all n w succ [] = finished n w none
  retry_all n w succ (res ∷ resources) = elim (retry_one n w succ res) [
    | panicked ↦ panicked
    | stuck ↦ stuck
    | unfinished ↦ unfinished
    | finished m v _ ↦ retry_all m v succ resources
  ]

  -- The resources to retry after the bulk transfer.
  unfoldable pub to_retry : List Resource → List Resource → Option Error → List Resource
  to_retry items failed none = failed
  to_retry items failed (some e) = items

  unfoldable pub hand_over : LocalNode → W → Node → List Resource → Answer W (Option Error)
  hand_over n w succ [] = finished n w none
  hand_over n w succ (res ∷ resources) =
      let items = res ∷ resources in
      let (later, failed, e) = store_remote net.streams (net.with_timeout w) succ.addr items in
      retry_all n later succ (to_retry items failed e)

  unfoldable pub leave : LocalNode → W → Answer W (Option Error)
  leave n w = elim (first_successor n.rt) [
    | none ↦ finished n w none
    | some succ ↦ elim (equal succ.id n.rt.self.id) [
      | true ↦ finished n w none
      | false ↦ elim (get_from_pool n.pool succ.addr) [
        | blocks ↦ stuck
        | returns (some e) q ↦
            finished (record n { pool = q }) w
              (some (wrap "leave: failed to get client for successor %s: %w" e))
        | returns none q ↦
            let (told, failed) =
              leave_peer net.streams.ctx_err net.peers n.rt.space (net.with_timeout w) succ.addr
                n.rt.self in
            hand_over (record n { pool = q }) told succ (all n.store)
      ]
    ]
  ]

  unfoldable pub stop : LocalNode → W → Answer W (Unit {0})
  stop n w = elim (leave n w) [
    | panicked ↦ panicked
    | stuck ↦ stuck
    | unfinished ↦ unfinished
    | finished m v _ ↦ elim (close net.dial net.hang_up m.pool) [
      | blocks ↦ stuck
      | returns e q ↦ finished (record m { pool = q }) v tt
    ]
  ]
