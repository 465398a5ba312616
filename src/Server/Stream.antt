-- ===== src/Server/Stream.antt =====
-- internal/node/server/dht_service.go: Store, which receives a stream of resources.
pub mod Prefix
use koorde_dht.Prelude.{Bool, List, [], ◌∷◌, Option, none, some}
use koorde_dht.Result.{Error, ok, err, panic, status, invalid_argument, internal}
use koorde_dht.Domain.{ProtoResource, resource_from_proto}
use koorde_dht.LogicNode.Context.{check_context}
use koorde_dht.LogicNode.Local.{LocalNode, store_local}

-- What Recv returns: a request, with its resource; an error; or the end of the stream, with the
-- error of SendAndClose.
pub data Received : Type 0 where
  message : Option ProtoResource → Received
  broken : Error → Received
  eof : Option Error → Received

-- One turn of the loop: the Err() of the context at its head, what is received, and the Err() of the
-- context when StoreLocal runs.
pub record Turn : Type 0 where
  pub head_ctx : Option Error
  pub received : Received
  pub store_ctx : Option Error

-- The state of the handler after a turn: it goes on, or it returns with or without an error.
pub data Progress : Type 0 where
  goes_on : LocalNode → Progress
  returned : LocalNode → Option Error → Progress
  crashed : Progress

unfoldable pub store_message : LocalNode → Option Error → Option ProtoResource → Progress
store_message n ctx none = returned n (some (status invalid_argument "missing resource"))
store_message n ctx (some p) = elim (resource_from_proto n.rt.space (some p)) [
  | err e ↦ returned n (some (status invalid_argument "invalid resource: %v"))
  | panic ↦ crashed
  | ok none ↦ crashed
  | ok (some res) ↦
      let (m, failed) = store_local ctx n res in
      elim failed [
        | some e ↦ returned m (some (status internal "failed to store resource: %v"))
        | none ↦ goes_on m
      ]
]

unfoldable pub store_received : LocalNode → Option Error → Received → Progress
store_received n ctx (eof e) = returned n e
store_received n ctx (broken e) =
    returned n (some (status internal "failed to receive request: %v"))
store_received n ctx (message p) = store_message n ctx p

unfoldable pub store_turn : LocalNode → Turn → Progress
store_turn n t = elim (check_context t.head_ctx) [
  | some e ↦ returned n (some e)
  | none ↦ store_received n t.store_ctx t.received
]

-- The loop over the turns; it goes on while the list ends before the stream does.
unfoldable pub store_rpc : LocalNode → List Turn → Progress
store_rpc n [] = goes_on n
store_rpc n (t ∷ turns) = elim (store_turn n t) [
  | goes_on m ↦ store_rpc m turns
  | returned m e ↦ returned m e
  | crashed ↦ crashed
]
