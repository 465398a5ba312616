-- ===== src/LogicNode/Remote.antt =====
-- internal/node/client/handler.go: StoreRemote, RetrieveRemote and RemoveRemote. The calls of the
-- generated client are parameters, which may change the network.
use Prim.Native.String.{String}
use koorde_dht.Prelude.{List, [], ◌∷◌, Option, none, some, if◌then◌else◌}
use koorde_dht.Result.{Error, Result, ok, err, panic, wrap, wrap_err, timeout}
use koorde_dht.Identifier.Space.{Space, Ident}
use koorde_dht.Domain.{Resource, ProtoResource, resource_to_proto, resource_from_proto}
use koorde_dht.LogicNode.Context.{check_context, is_deadline, has_deadline_code}

-- `W` is the network with the request's context. `open_store` opens the stream of Store to an address,
-- `send` sends a message on it and `close_store` is CloseAndRecv: the error of each, or none.
-- `retrieve` and `remove` are the Retrieve and Remove calls.
pub record Stubs (W : Type 0) : Type 0 where
  pub ctx_err : W → Option Error
  pub open_store : W → String → W × Option Error
  pub send : W → Option ProtoResource → W × Option Error
  pub close_store : W → W × Option Error
  pub retrieve : W → String → Ident → W × Result (Option ProtoResource)
  pub remove : W → String → Ident → W × Option Error

module _ {W : Type 0} (net : Stubs W) where
  -- The loop that sends: the resources that could not be sent.
  unfoldable pub send_all : W → List Resource → W × List Resource
  send_all w [] = (w, [])
  send_all w (r ∷ rs) =
      let (sent, e) = net.send w (resource_to_proto (some r)) in
      let (later, failed) = send_all sent rs in
      (later, elim e [ none ↦ failed | some x ↦ r ∷ failed ])

  -- The resources that failed, and the error.
  unfoldable pub store_remote : W → String → List Resource → W × List Resource × Option Error
  store_remote w addr resources = elim (check_context (net.ctx_err w)) [
    | some e ↦ (w, [], some e)
    | none ↦
        let (opened, no_stream) = net.open_store w addr in
        let (sent, failed) = send_all opened resources in
        let (closed, no_ack) = net.close_store sent in
        elim no_stream [
          | some e ↦ (opened, resources, some (wrap "client: failed to open store stream: %w" e))
          | none ↦ elim no_ack [
            | none ↦ (closed, failed, none)
            | some e ↦
                if has_deadline_code e
                then (closed, [], some timeout)
                else (closed, resources, some (wrap "client: store stream failed: %w" e))
          ]
        ]
  ]

  unfoldable pub retrieve_remote : Space → W → String → Ident → W × Result (Option Resource)
  retrieve_remote sp w addr key = elim (check_context (net.ctx_err w)) [
    | some e ↦ (w, err e)
    | none ↦
        let (later, reply) = net.retrieve w addr key in
        (
          later,
          elim reply [
            | ok p ↦ wrap_err "client: failed to convert resource: %w" (resource_from_proto sp p)
            | err e ↦
                if is_deadline e
                then err timeout
                else err (wrap "client: Retrieve RPC failed: %w" e)
            | panic ↦ panic
          ],
        )
  ]

  unfoldable pub remove_remote : W → String → Ident → W × Option Error
  remove_remote w addr key = elim (check_context (net.ctx_err w)) [
    | some e ↦ (w, some e)
    | none ↦
        let (later, failed) = net.remove w addr key in
        (
          later,
          elim failed [
            | none ↦ none
            | some e ↦
                if is_deadline e
                then some timeout
                else some (wrap "client: Remove RPC failed: %w" e)
          ],
        )
  ]
