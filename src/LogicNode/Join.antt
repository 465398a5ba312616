-- ===== src/LogicNode/Join.antt =====
-- internal/node/logicnode/node.go: Join.
use Prim.Native.String.{String}
use text.Mathlib.Text.{◌==◌ as str_eq}
use koorde_dht.Prelude.{ℕ, true, false, List, [], ◌∷◌, Option, none, some}
use koorde_dht.Prelude.Int.{pos}
use koorde_dht.Result.{Error, Result, ok, err, panic, errorf, wrap}
use koorde_dht.Identifier.Order.{equal}
use koorde_dht.Domain.{Node}
use koorde_dht.RoutingTable.{Entry, set_predecessor, set_successor}
use koorde_dht.Pool.{returns, blocks, add_ref, dial_ephemeral}
use koorde_dht.LogicNode.Local.{LocalNode, logged}
use koorde_dht.LogicNode.Calls.{find_successor_start, predecessor_of, notify_peer}
use koorde_dht.LogicNode.Answer.{Answer, finished, panicked, stuck, unfinished}
use koorde_dht.LogicNode.Network.{Network}
use koorde_dht.LogicNode.Workers.{fix_successor_list}
use koorde_dht.LogicNode.Window.{fix_de_bruijn}

-- The error after the last peer, given the last error. `%w` of nil wraps nothing.
unfoldable pub all_failed : Option Error → Error
all_failed none = errorf "join: all bootstrap attempts failed: %w"
all_failed (some e) = wrap "join: all bootstrap attempts failed: %w" e

module _ {W : Type 0} (net : Network W) (fuel : ℕ) where
  -- The loop over the peers, with the last error: the successor that the first of them reports.
  unfoldable pub bootstrap : LocalNode → W → Option Error → List String → Answer W (Result Node)
  bootstrap n w last [] = finished n w (err (all_failed last))
  bootstrap n w last (addr ∷ peers) = elim (str_eq addr n.rt.self.addr) [
    | true ↦ bootstrap n w last peers
    | false ↦ elim (dial_ephemeral net.dial net.hang_up n.pool addr) [
      | blocks ↦ stuck
      | returns (some e) q ↦
          bootstrap (record n { pool = q }) w
            (some (wrap "join: failed to dial bootstrap %s: %w" e)) peers
      | returns none q ↦
          let (later, reply) =
            find_successor_start net.streams.ctx_err net.peers n.rt.space (net.with_timeout w) addr
              n.rt.self.id in
          elim reply [
            | panic ↦ panicked
            | err e ↦ bootstrap (record n { pool = q }) later (some e) peers
            | ok none ↦
                bootstrap (record n { pool = q }) later
                  (some (errorf "bootstrap %s returned nil successor")) peers
            | ok (some succ) ↦ elim (equal succ.id n.rt.self.id) [
              | true ↦
                  finished (record n { pool = q }) later
                    (err (errorf "join: there is already a node with the same ID"))
              | false ↦ finished (record n { pool = q }) later (ok succ)
            ]
          ]
    ]
  ]

  -- The successor is asked for its predecessor and then notified.
  unfoldable pub introduce : LocalNode → W → Node → Answer W (Result Entry)
  introduce n w succ = elim (dial_ephemeral net.dial net.hang_up n.pool succ.addr) [
    | blocks ↦ stuck
    | returns (some e) q ↦
        finished (record n { pool = q }) w (err (wrap "join: failed to dial successor %s: %w" e))
    | returns none q ↦
        let (asked, reply) =
          predecessor_of net.streams.ctx_err net.peers n.rt.space (net.with_timeout w) succ.addr in
        let (told, failed) =
          notify_peer net.streams.ctx_err net.peers n.rt.space (net.with_timeout asked) succ.addr
            n.rt.self in
        elim reply [
          | panic ↦ panicked
          | err e ↦
              finished (record n { pool = q }) asked
                (err (wrap "join: failed to get predecessor of successor %s: %w" e))
          | ok pred ↦ elim failed [
            | some e ↦
                finished (record n { pool = q }) told
                  (err (wrap "join: failed to notify successor %s: %w" e))
            | none ↦ finished (record n { pool = q }) told (ok pred)
          ]
        ]
  ]

  unfoldable pub take_predecessor : LocalNode → Entry → Option LocalNode
  take_predecessor n none = some n
  take_predecessor n (some pred) = elim (logged (add_ref net.dial net.hang_up n.pool pred.addr)) [
    | none ↦ none
    | some p ↦ some (record n { rt = set_predecessor n.rt (some pred); pool = p })
  ]

  unfoldable pub take_successor : LocalNode → Node → Option LocalNode
  take_successor n succ = elim (logged (add_ref net.dial net.hang_up n.pool succ.addr)) [
    | none ↦ none
    | some p ↦ some (record n { rt = set_successor n.rt (pos 0) (some succ); pool = p })
  ]

  -- The update of the routing table, and the first rounds of fixSuccessorList and fixDeBruijn.
  unfoldable pub enter : LocalNode → W → Entry → Node → Answer W (Option Error)
  enter n w pred succ = elim (take_predecessor n pred) [
    | none ↦ stuck
    | some m ↦ elim (take_successor m succ) [
      | none ↦ stuck
      | some m' ↦ elim (fix_successor_list net fuel m' w) [
        | panicked ↦ panicked
        | stuck ↦ stuck
        | unfinished ↦ unfinished
        | finished fixed v _ ↦ elim (fix_de_bruijn net fuel fixed v) [
          | panicked ↦ panicked
          | stuck ↦ stuck
          | unfinished ↦ unfinished
          | finished joined v' _ ↦ finished joined v' none
        ]
      ]
    ]
  ]

  -- Join after the loop.
  unfoldable pub join_at : LocalNode → W → Node → Answer W (Option Error)
  join_at n w succ = elim (introduce n w succ) [
    | panicked ↦ panicked
    | stuck ↦ stuck
    | unfinished ↦ unfinished
    | finished m v panic ↦ panicked
    | finished m v (err e) ↦ finished m v (some e)
    | finished m v (ok pred) ↦ enter m v pred succ
  ]

  unfoldable pub join_peers : LocalNode → W → List String → Answer W (Option Error)
  join_peers n w peers = elim (bootstrap n w none peers) [
    | panicked ↦ panicked
    | stuck ↦ stuck
    | unfinished ↦ unfinished
    | finished m v panic ↦ panicked
    | finished m v (err e) ↦ finished m v (some e)
    | finished m v (ok succ) ↦ join_at m v succ
  ]

  unfoldable pub join : LocalNode → W → List String → Answer W (Option Error)
  join n w [] = finished n w (some (errorf "join: no bootstrap peers provided"))
  join n w (addr ∷ peers) = join_peers n w (addr ∷ peers)
