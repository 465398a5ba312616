-- ===== src/LogicNode/Calls.antt =====
-- internal/node/client/handler.go: FindSuccessorStart, GetPredecessor, GetSuccessorList, Notify, Ping
-- and Leave. The calls of the generated client are parameters, which may change the network.
use Prim.Native.String.{String}
use koorde_dht.Prelude.{Bool, true, false, List, [], ◌∷◌, Option, none, some, if◌then◌else◌}
use koorde_dht.Result.{
  Code, not_found, internal, Error, Result, ok, err, panic, status, wrap, timeout, no_predecessor,
}
use koorde_dht.Identifier.Space.{Space, Ident}
use koorde_dht.Domain.{Node, ProtoNode, node_to_proto, node_from_proto}
use koorde_dht.LogicNode.Context.{check_context, is_deadline}

abbrev pub is_not_found_code : Code → Bool
is_not_found_code not_found = true
is_not_found_code _ = false

-- `st, ok := status.FromError(err); ok && st.Code() == codes.NotFound`
unfoldable pub has_not_found_code : Error → Bool
has_not_found_code (status c msg) = is_not_found_code c
has_not_found_code (wrap msg e) = has_not_found_code e
has_not_found_code _ = false

-- `start` is FindSuccessor in the Initial mode; the other fields are the calls of their names.
pub record PeerStubs (W : Type 0) : Type 0 where
  pub start : W → String → Ident → W × Result (Option ProtoNode)
  pub predecessor : W → String → W × Result (Option ProtoNode)
  pub successors : W → String → W × Result (List (Option ProtoNode))
  pub notify : W → String → Option ProtoNode → W × Option Error
  pub ping : W → String → W × Option Error
  pub leave : W → String → Option ProtoNode → W × Option Error

-- The error of a call that failed with e.
abbrev pub call_error : String → Error → Error
call_error msg e = if is_deadline e then timeout else wrap msg e

abbrev pub call_result : String → Option Error → Option Error
call_result msg none = none
call_result msg (some e) = some (call_error msg e)

-- The nodes of a reply, until the first that is invalid.
unfoldable pub convert_nodes : Space → List (Option ProtoNode) → Result (List (Option Node))
convert_nodes sp [] = ok []
convert_nodes sp (p ∷ ps) =
    let rest = convert_nodes sp ps in
    elim (node_from_proto sp p) [
      | err e ↦ err (status internal "invalid node in successor list: %v")
      | panic ↦ panic
      | ok n ↦ elim rest [ ok ns ↦ ok (n ∷ ns) | err e ↦ err e | panic ↦ panic ]
    ]

module _ {W : Type 0} (ctx_err : W → Option Error) (net : PeerStubs W) (sp : Space) where
  unfoldable pub find_successor_start : W → String → Ident → W × Result (Option Node)
  find_successor_start w addr target = elim (check_context (ctx_err w)) [
    | some e ↦ (w, err e)
    | none ↦
        let (later, reply) = net.start w addr target in
        (
          later,
          elim reply [
            | ok p ↦ node_from_proto sp p
            | err e ↦ err (call_error "client: FindSuccessorStart RPC failed: %w" e)
            | panic ↦ panic
          ],
        )
  ]

  unfoldable pub predecessor_of : W → String → W × Result (Option Node)
  predecessor_of w addr = elim (check_context (ctx_err w)) [
    | some e ↦ (w, err e)
    | none ↦
        let (later, reply) = net.predecessor w addr in
        (
          later,
          elim reply [
            | ok p ↦ node_from_proto sp p
            | err e ↦
                if is_deadline e
                then err timeout
                else if has_not_found_code e
                then err no_predecessor
                else err (wrap "client: GetPredecessor RPC failed: %w" e)
            | panic ↦ panic
          ],
        )
  ]

  unfoldable pub successors_of : W → String → W × Result (List (Option Node))
  successors_of w addr = elim (check_context (ctx_err w)) [
    | some e ↦ (w, err e)
    | none ↦
        let (later, reply) = net.successors w addr in
        (
          later,
          elim reply [
            | ok ps ↦ convert_nodes sp ps
            | err e ↦ err (call_error "client: GetSuccessorList RPC failed: %w" e)
            | panic ↦ panic
          ],
        )
  ]

  unfoldable pub notify_peer : W → String → Node → W × Option Error
  notify_peer w addr self = elim (check_context (ctx_err w)) [
    | some e ↦ (w, some e)
    | none ↦
        let (later, failed) = net.notify w addr (node_to_proto (some self)) in
        (later, call_result "client: Notify RPC failed: %w" failed)
  ]

  unfoldable pub ping_peer : W → String → W × Option Error
  ping_peer w addr = elim (check_context (ctx_err w)) [
    | some e ↦ (w, some e)
    | none ↦
        let (later, failed) = net.ping w addr in
        (later, call_result "client: Ping RPC failed: %w" failed)
  ]

  unfoldable pub leave_peer : W → String → Node → W × Option Error
  leave_peer w addr self = elim (check_context (ctx_err w)) [
    | some e ↦ (w, some e)
    | none ↦
        let (later, failed) = net.leave w addr (node_to_proto (some self)) in
        (later, call_result "client: Leave RPC failed: %w" failed)
  ]
