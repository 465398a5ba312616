-- ===== src/Server/Dht.antt =====
-- internal/node/server/dht_service.go: the unary calls of the service for other nodes. A handler gets
-- the Err() of the request's context and a request, which may be nil; generated messages have the
-- fields of proto/dht/v1/node.proto, and google.protobuf.Empty is the unit type. Spans are left out.
use Prim.Native.String.{String}
use koorde_dht.Prelude.{ℕ, true, false, List, [], ◌∷◌, Option, none, some, map}
use koorde_dht.Result.{Error, Result, ok, err, panic, status, invalid_argument, not_found, internal}
use koorde_dht.Identifier.Space.{Space, Ident, is_valid_id}
use koorde_dht.Domain.{
  Node, ProtoNode, ProtoResource, Resource, node_to_proto, node_from_proto, resource_to_proto,
}
use koorde_dht.RoutingTable.{get_predecessor, successor_list}
use koorde_dht.LogicNode.Context.{check_context}
use koorde_dht.LogicNode.Lookup.{
  StepRequest, Lookup, done, blocked, running, find_successor_init, find_successor_step,
}
use koorde_dht.LogicNode.Local.{LocalNode, retrieve_local, remove_local, notify, handle_leave}
use koorde_dht.LogicNode.Answer.{Answer, finished, panicked, stuck, unfinished}
use koorde_dht.LogicNode.Requests.{is_not_found}

-- The oneof `mode` of dht.v1.FindSuccessorRequest.
pub data Mode : Type 0 where
  initial_mode : Mode
  step_mode : Ident → Ident → Mode
  no_mode : Mode

pub record FindSuccessorRequest : Type 0 where
  pub target_id : Ident
  pub mode : Mode

unfoldable pub get_predecessor_rpc : Option Error → LocalNode → Result (Option ProtoNode)
get_predecessor_rpc ctx n = elim (check_context ctx) [
  | some e ↦ err e
  | none ↦ elim (get_predecessor n.rt) [
    | none ↦ err (status not_found "no predecessor set")
    | some pred ↦ ok (node_to_proto (some pred))
  ]
]

unfoldable pub get_successor_list_rpc : Option Error → LocalNode → Result (List (Option ProtoNode))
get_successor_list_rpc ctx n = elim (check_context ctx) [
  | some e ↦ err e
  | none ↦ ok (map (λ (s : Node). node_to_proto (some s)) (successor_list n.rt))
]

unfoldable pub ping_rpc : Option Error → Option Error
ping_rpc ctx = check_context ctx

-- The node that a request names, and the code of the error of one that is not valid.
unfoldable pub named_node :
    Error → (Error → Error) → Space → Option ProtoNode → Result (Option Node)
named_node missing invalid sp none = err missing
named_node missing invalid sp (some p) = elim p.id [
  | [] ↦ err missing
  | b ∷ bs ↦ elim (node_from_proto sp (some p)) [
    | ok n ↦ ok n
    | err e ↦ err (invalid e)
    | panic ↦ panic
  ]
]

module _ (dial hang_up : String → Option Error) where
  -- The node after the call, with the resources to be transferred, and the answer; none if the call
  -- blocks.
  unfoldable pub notify_rpc :
      Option Error
      → LocalNode
      → Option ProtoNode
      → Option (LocalNode × List Resource × Result (Unit {0}))
  notify_rpc ctx n req = elim (check_context ctx) [
    | some e ↦ some (n, [], err e)
    | none ↦
        elim (named_node (status invalid_argument "invalid node: missing ID or address")
          (λ (e : Error). status invalid_argument "invalid node: %v") n.rt.space req) [
            | err e ↦ some (n, [], err e)
            | panic ↦ some (n, [], panic)
            | ok p ↦ elim (notify dial hang_up n p) [
              | none ↦ none
              | some (m, resources) ↦ some (m, resources, ok tt)
            ]
          ]
  ]

  unfoldable pub leave_rpc :
      Option Error → LocalNode → Option ProtoNode → Option (LocalNode × Result (Unit {0}))
  leave_rpc ctx n req = elim (check_context ctx) [
    | some e ↦ some (n, err e)
    | none ↦
        elim (named_node (status invalid_argument "invalid leaving node")
          (λ (e : Error). status internal "failed to convert leaving node: %v") n.rt.space req) [
            | err e ↦ some (n, err e)
            | panic ↦ some (n, panic)
            | ok p ↦ elim (handle_leave dial hang_up n p) [ none ↦ none | some m ↦ some (m, ok tt) ]
          ]
  ]

-- The key of a request.
unfoldable pub request_key : Space → Option Ident → Result Ident
request_key sp none = err (status invalid_argument "missing key")
request_key sp (some []) = err (status invalid_argument "missing key")
request_key sp (some (b ∷ bs)) = elim (is_valid_id sp (b ∷ bs)) [
  | some e ↦ err (status invalid_argument "invalid key")
  | none ↦ ok (b ∷ bs)
]

-- The status of an error of the node: NotFound if it is the storage's, or else Internal.
unfoldable pub storage_status : String → Error → Error
storage_status msg e = elim (is_not_found e) [
  | true ↦ status not_found "key not found"
  | false ↦ status internal msg
]

unfoldable pub retrieve_rpc :
    Option Error → LocalNode → Option Ident → Result (Option ProtoResource)
retrieve_rpc ctx n key = elim (check_context ctx) [
  | some e ↦ err e
  | none ↦ elim (request_key n.rt.space key) [
    | err e ↦ err e
    | panic ↦ panic
    | ok id ↦ elim (retrieve_local n id) [
      | ok res ↦ ok (resource_to_proto (some res))
      | err e ↦ err (storage_status "retrieve failed: %v" e)
      | panic ↦ panic
    ]
  ]
]

unfoldable pub remove_rpc : Option Error → LocalNode → Option Ident → LocalNode × Result (Unit {0})
remove_rpc ctx n key = elim (check_context ctx) [
  | some e ↦ (n, err e)
  | none ↦ elim (request_key n.rt.space key) [
    | err e ↦ (n, err e)
    | panic ↦ (n, panic)
    | ok id ↦
        let (m, failed) = remove_local n id in
        elim failed [ some e ↦ (m, err (storage_status "remove failed: %v" e)) | none ↦ (m, ok tt) ]
  ]
]

module _ {W : Type 0} (ctx_err : W → Option Error)
    (step : W → String → StepRequest → W × Result (Option ProtoNode)) (fuel : ℕ) where
  -- The answer after the node's lookup.
  unfoldable pub successor_answer : LocalNode → Lookup W → Answer W (Result (Option ProtoNode))
  successor_answer n blocked = stuck
  successor_answer n running = unfinished
  successor_answer n (done panic p w) = panicked
  successor_answer n (done (err e) p w) =
      finished (record n { pool = p }) w (err (status internal "FindSuccessor failed: %v"))
  successor_answer n (done (ok none) p w) =
      finished (record n { pool = p }) w (err (status not_found "successor not found"))
  successor_answer n (done (ok (some succ)) p w) =
      finished (record n { pool = p }) w (ok (node_to_proto (some succ)))

  unfoldable pub dispatch : LocalNode → W → Ident → Mode → Answer W (Result (Option ProtoNode))
  dispatch n w target no_mode = finished n w (err (status invalid_argument "invalid mode"))
  dispatch n w target initial_mode =
      successor_answer n (find_successor_init ctx_err step n.rt fuel target n.pool w)
  dispatch n w target (step_mode current_i kshift) = elim (is_valid_id n.rt.space current_i) [
    | some e ↦ finished n w (err (status invalid_argument "invalid current_i"))
    | none ↦ elim (is_valid_id n.rt.space kshift) [
      | some e ↦ finished n w (err (status invalid_argument "invalid kshift"))
      | none ↦
          successor_answer n
            (find_successor_step ctx_err step n.rt fuel target current_i kshift n.pool w)
    ]
  ]

  -- FindSuccessor of a request with a target.
  unfoldable pub find_target : LocalNode → W → Ident → Mode → Answer W (Result (Option ProtoNode))
  find_target n w target mode = elim (check_context (ctx_err w)) [
    | some e ↦ finished n w (err e)
    | none ↦ elim (is_valid_id n.rt.space target) [
      | some e ↦ finished n w (err (status invalid_argument "invalid target_id"))
      | none ↦ dispatch n w target mode
    ]
  ]

  unfoldable pub find_successor_rpc :
      LocalNode → W → Option FindSuccessorRequest → Answer W (Result (Option ProtoNode))
  find_successor_rpc n w none = finished n w (err (status invalid_argument "missing target_id"))
  find_successor_rpc n w (some req) = elim req.target_id [
    | [] ↦ finished n w (err (status invalid_argument "missing target_id"))
    | b ∷ bs ↦ find_target n w (b ∷ bs) req.mode
  ]
