-- ===== src/LogicNode/Window.antt =====
-- internal/node/logicnode/worker.go: fixDeBruijn.
use koorde_dht.Prelude.{
  ℕ, zero, suc, true, false, List, [], ◌∷◌, none, some, map, replicate, present,
}
use koorde_dht.Result.{ok, err, panic}
use koorde_dht.Identifier.Order.{equal}
use koorde_dht.Identifier.Arith.{mul_k_mod}
use koorde_dht.Domain.{Node}
use koorde_dht.RoutingTable.{
  Entry, get_predecessor, successor_list, de_bruijn_list, set_de_bruijn_list,
}
use koorde_dht.Pool.{returns, blocks}
use koorde_dht.LogicNode.Lookup.{done, blocked, running, find_successor_init}
use koorde_dht.LogicNode.Local.{LocalNode}
use koorde_dht.LogicNode.Calls.{predecessor_of, successors_of}
use koorde_dht.LogicNode.Answer.{Answer, finished, panicked, stuck, unfinished}
use koorde_dht.LogicNode.Requests.{connect}
use koorde_dht.LogicNode.Network.{Network}
use koorde_dht.LogicNode.References.{swap_references}

-- The window after digit 0, with m places.
unfoldable pub fill_window : ℕ → List Entry → List Entry
fill_window zero list = []
fill_window (suc m) [] = replicate (suc m) none
fill_window (suc m) (e ∷ list) = e ∷ fill_window m list

module _ {W : Type 0} (net : Network W) (fuel : ℕ) where
  -- Steps 3 and 4: the window from the anchor and its successors. A window without digits panics.
  unfoldable pub install_window : LocalNode → W → Node → List Entry → Answer W (Unit {0})
  install_window n w anchor list = elim n.rt.space.graph_grade [
    | zero ↦ panicked
    | suc m ↦
        let window = some anchor ∷ fill_window m list in
        elim (swap_references net.dial net.hang_up (de_bruijn_list n.rt) (present window) n.pool) [
          | none ↦ stuck
          | some p ↦ finished (record n { rt = set_de_bruijn_list n.rt window; pool = p }) w tt
        ]
  ]

  -- The successor list of the anchor.
  unfoldable pub window_from : LocalNode → W → Node → Answer W (Unit {0})
  window_from n w anchor = elim (equal anchor.id n.rt.self.id) [
    | true ↦ install_window n w anchor (map some (successor_list n.rt))
    | false ↦ elim (connect net.streams net.step net.dial net.hang_up fuel n.pool anchor.addr) [
      | blocks ↦ stuck
      | returns (some e) q ↦ finished (record n { pool = q }) w tt
      | returns none q ↦
          let (later, reply) =
            successors_of net.streams.ctx_err net.peers n.rt.space (net.with_timeout w)
              anchor.addr in
          elim reply [
            | panic ↦ panicked
            | err e ↦ finished (record n { pool = q }) later tt
            | ok list ↦ install_window (record n { pool = q }) later anchor list
          ]
    ]
  ]

  unfoldable pub with_anchor : LocalNode → W → Entry → Answer W (Unit {0})
  with_anchor n w none = finished n w tt
  with_anchor n w (some anchor) = window_from n w anchor

  -- Step 2: the anchor is the predecessor of the target's successor.
  unfoldable pub anchor_from : LocalNode → W → Node → Answer W (Unit {0})
  anchor_from n w succ = elim (equal succ.id n.rt.self.id) [
    | true ↦ with_anchor n w (get_predecessor n.rt)
    | false ↦ elim (connect net.streams net.step net.dial net.hang_up fuel n.pool succ.addr) [
      | blocks ↦ stuck
      | returns (some e) q ↦ finished (record n { pool = q }) w tt
      | returns none q ↦
          let (later, reply) =
            predecessor_of net.streams.ctx_err net.peers n.rt.space (net.with_timeout w)
              succ.addr in
          elim reply [
            | panic ↦ panicked
            | err e ↦ finished (record n { pool = q }) later tt
            | ok anchor ↦ with_anchor (record n { pool = q }) later anchor
          ]
    ]
  ]

  unfoldable pub fix_de_bruijn : LocalNode → W → Answer W (Unit {0})
  fix_de_bruijn n w = elim (mul_k_mod n.rt.space n.rt.self.id) [
    | panic ↦ panicked
    | err e ↦ finished n w tt
    | ok target ↦
        elim (find_successor_init net.streams.ctx_err net.step n.rt fuel target n.pool
          (net.with_timeout w)) [
            | blocked ↦ stuck
            | running ↦ unfinished
            | done panic p v ↦ panicked
            | done (err e) p v ↦ finished (record n { pool = p }) v tt
            | done (ok none) p v ↦ finished (record n { pool = p }) v tt
            | done (ok (some succ)) p v ↦ anchor_from (record n { pool = p }) v succ
          ]
  ]
