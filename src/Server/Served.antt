-- ===== src/Server/Served.antt =====
-- The calls of the generated client to an address, when a node's service for other nodes answers them.
-- gRPC delivers a request to the handler, and its answer or status to the caller.
use Prim.Native.String.{String}
use koorde_dht.Prelude.{◌≡◌, Option, none, some}
use koorde_dht.Result.{Error, Result, ok, err, panic}
use koorde_dht.Identifier.Space.{Ident}
use koorde_dht.Domain.{ProtoResource}
use koorde_dht.LogicNode.Local.{LocalNode}
use koorde_dht.LogicNode.Remote.{Stubs}
use koorde_dht.Server.Dht.{retrieve_rpc, remove_rpc}
use koorde_dht.Server.Stream.{Received, message, Turn, Progress, goes_on, store_turn}

-- A turn of the loop of Store while the request's context is alive.
abbrev pub turn : Received → Turn
turn received = record { head_ctx = none; received = received; store_ctx = none }

abbrev pub failure : {A : Type 0} → Result A → Option Error
failure (ok a) = none
failure (err e) = some e
failure panic = none

-- `peer` is the node at the address, and `stream` its handler of the open stream, in a state of the
-- network; no call's context ends.
pub record IsServed {W : Type 0} (net : Stubs W) (addr : String) (peer : W → LocalNode)
    (stream : W → Progress) : Type 0 where
  pub alive : (w : W) → net.ctx_err w ≡ none
  pub opened :
      (w : W)
      → ((net.open_store w addr).1 ≡ none) × (stream (net.open_store w addr).0 ≡ goes_on (peer w))
  pub sent :
      (w : W) (n : LocalNode) (p : Option ProtoResource)
      → stream w ≡ goes_on n
      → ((net.send w p).1 ≡ none) × (stream (net.send w p).0 ≡ store_turn n (turn (message p)))
  pub closed :
      (w : W) (n : LocalNode)
      → stream w ≡ goes_on n
      → ((net.close_store w).1 ≡ none) × (peer (net.close_store w).0 ≡ n)
  pub retrieved :
      (w : W) (key : Ident) → net.retrieve w addr key ≡ (w, retrieve_rpc none (peer w) (some key))
  pub removed :
      (w : W) (key : Ident)
      → ((net.remove w addr key).1 ≡ failure (remove_rpc none (peer w) (some key)).1)
        × (peer (net.remove w addr key).0 ≡ (remove_rpc none (peer w) (some key)).0)
