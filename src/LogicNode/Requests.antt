-- ===== src/LogicNode/Requests.antt =====
-- internal/node/logicnode/operation.go: Put, Get, Delete and LookUp, on behalf of a client.
pub mod Single
use Prim.Native.String.{String}
use koorde_dht.Prelude.{ℕ, Bool, true, false, List, [], ◌∷◌, Option, none, some}
use koorde_dht.Result.{
  Error, Result, ok, err, panic, errorf, wrap, status, not_found, resource_not_found,
}
use koorde_dht.Identifier.Space.{Ident}
use koorde_dht.Identifier.Order.{equal}
use koorde_dht.Domain.{Node, ProtoNode, Resource}
use koorde_dht.Pool.{Pool, Outcome, returns, blocks, get_from_pool, dial_ephemeral}
use koorde_dht.LogicNode.Context.{check_context}
use koorde_dht.LogicNode.Lookup.{StepRequest, Lookup, done, blocked, running, find_successor_init}
use koorde_dht.LogicNode.Local.{LocalNode, store_local, retrieve_local, remove_local}
use koorde_dht.LogicNode.Answer.{Answer, finished, panicked, stuck, unfinished}
use koorde_dht.LogicNode.Remote.{Stubs, store_remote, retrieve_remote, remove_remote}

-- errors.Is(err, domain.ErrResourceNotFound)
unfoldable pub is_not_found : Error → Bool
is_not_found resource_not_found = true
is_not_found (wrap msg e) = is_not_found e
is_not_found _ = false

module _ {W : Type 0} (net : Stubs W)
    (rpc : W → String → StepRequest → W × Result (Option ProtoNode))
    (dial hang_up : String → Option Error) (fuel : ℕ) where
  -- The head of every request: the context is checked and the successor of the key looked up; the
  -- formats are of the errors of a failed lookup and of a missing successor.
  unfoldable pub resolve : String → String → LocalNode → W → Ident → Answer W (Result Node)
  resolve failed missing n w id = elim (check_context (net.ctx_err w)) [
    | some e ↦ finished n w (err e)
    | none ↦ elim (find_successor_init net.ctx_err rpc n.rt fuel id n.pool w) [
      | blocked ↦ stuck
      | running ↦ unfinished
      | done (err e) p v ↦ finished (record n { pool = p }) v (err (wrap failed e))
      | done panic p v ↦ panicked
      | done (ok none) p v ↦ finished (record n { pool = p }) v (err (errorf missing))
      | done (ok (some succ)) p v ↦ finished (record n { pool = p }) v (ok succ)
    ]
  ]

  unfoldable pub look_up : LocalNode → W → Ident → Answer W (Result Node)
  look_up n w id =
      resolve "lookup: failed to find successor for key %s: %w"
        "lookup: no successor found for key %s" n w id

  -- A connection from the pool, or else an ephemeral one.
  unfoldable pub connect : Pool → String → Outcome (Option Error)
  connect p addr = elim (get_from_pool p addr) [
    | blocks ↦ blocks
    | returns none q ↦ returns none q
    | returns (some e) q ↦ dial_ephemeral dial hang_up q addr
  ]

  -- `fmt.Errorf(msg + ": %w", err)` of an error, if there is one.
  abbrev pub wrapped : String → Option Error → Option Error
  wrapped msg none = none
  wrapped msg (some e) = some (wrap msg e)

  unfoldable pub put_at : LocalNode → W → Resource → Node → Answer W (Option Error)
  put_at n w res succ = elim (equal succ.id n.rt.self.id) [
    | true ↦
        let (m, e) = store_local (net.ctx_err w) n res in
        finished m w (wrapped "put: failed to store resource locally: %w" e)
    | false ↦ elim (connect n.pool succ.addr) [
      | blocks ↦ stuck
      | returns (some e) q ↦
          finished (record n { pool = q }) w
            (some (wrap "put: failed to get connection to successor %s: %w" e))
      | returns none q ↦
          let (later, failed, e) = store_remote net w succ.addr (res ∷ []) in
          finished (record n { pool = q }) later
            (wrapped "put: failed to store resource at successor %s: %w" e)
    ]
  ]

  unfoldable pub put_request : LocalNode → W → Resource → Answer W (Option Error)
  put_request n w res =
      elim (resolve "put: failed to find successor for key %s: %w"
        "put: no successor found for key %s" n w res.key) [
          | panicked ↦ panicked
          | stuck ↦ stuck
          | unfinished ↦ unfinished
          | finished m v (err e) ↦ finished m v (some e)
          | finished m v panic ↦ panicked
          | finished m v (ok succ) ↦ put_at m v res succ
        ]

  unfoldable pub get_at : LocalNode → W → Ident → Node → Answer W (Result (Option Resource))
  get_at n w id succ = elim (equal succ.id n.rt.self.id) [
    | true ↦ elim (retrieve_local n id) [
      | ok res ↦ finished n w (ok (some res))
      | panic ↦ panicked
      | err e ↦ elim (is_not_found e) [
        | true ↦ finished n w (err (status not_found "key not found"))
        | false ↦ finished n w (err (wrap "get: failed to retrieve resource locally: %w" e))
      ]
    ]
    | false ↦ elim (connect n.pool succ.addr) [
      | blocks ↦ stuck
      | returns (some e) q ↦
          finished (record n { pool = q }) w
            (err (wrap "get: failed to get connection to successor %s: %w" e))
      | returns none q ↦
          let (later, reply) = retrieve_remote net n.rt.space w succ.addr id in
          elim reply [
            | ok res ↦ finished (record n { pool = q }) later (ok res)
            | panic ↦ panicked
            | err e ↦
                finished (record n { pool = q }) later
                  (err (wrap "get: failed to retrieve resource from successor %s: %w" e))
          ]
    ]
  ]

  unfoldable pub get_request : LocalNode → W → Ident → Answer W (Result (Option Resource))
  get_request n w id =
      elim (resolve "get: failed to find successor for key %s: %w"
        "get: no successor found for key %s" n w id) [
          | panicked ↦ panicked
          | stuck ↦ stuck
          | unfinished ↦ unfinished
          | finished m v (err e) ↦ finished m v (err e)
          | finished m v panic ↦ panicked
          | finished m v (ok succ) ↦ get_at m v id succ
        ]

  unfoldable pub delete_at : LocalNode → W → Ident → Node → Answer W (Option Error)
  delete_at n w id succ = elim (equal succ.id n.rt.self.id) [
    | true ↦
        let (m, e) = remove_local n id in
        finished m w (wrapped "delete: failed to delete resource locally: %w" e)
    | false ↦ elim (connect n.pool succ.addr) [
      | blocks ↦ stuck
      | returns (some e) q ↦
          finished (record n { pool = q }) w
            (some (wrap "delete: failed to get connection to successor %s: %w" e))
      | returns none q ↦
          let (later, e) = remove_remote net w succ.addr id in
          finished (record n { pool = q }) later
            (wrapped "delete: failed to delete resource at successor %s: %w" e)
    ]
  ]

  unfoldable pub delete_request : LocalNode → W → Ident → Answer W (Option Error)
  delete_request n w id =
      elim (resolve "delete: failed to find successor for key %s: %w"
        "delete: no successor found for key %s" n w id) [
          | panicked ↦ panicked
          | stuck ↦ stuck
          | unfinished ↦ unfinished
          | finished m v (err e) ↦ finished m v (some e)
          | finished m v panic ↦ panicked
          | finished m v (ok succ) ↦ delete_at m v id succ
        ]
