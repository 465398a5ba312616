-- ===== src/LogicNode/Network.antt =====
-- What a node's operations see of the world: the calls of the generated client, the dialling of
-- connections, and contexts.
use Prim.Native.String.{String}
use koorde_dht.Prelude.{Option}
use koorde_dht.Result.{Error, Result}
use koorde_dht.Domain.{ProtoNode}
use koorde_dht.LogicNode.Lookup.{StepRequest}
use koorde_dht.LogicNode.Remote.{Stubs}
use koorde_dht.LogicNode.Calls.{PeerStubs}

-- `W` is the network with the context of the running call. `step` is FindSuccessor in the Step mode,
-- and `with_timeout` starts a call with context.WithTimeout of the background context. `dial` is
-- grpc.NewClient, and `hang_up` the Close of the connection to an address.
pub record Network (W : Type 0) : Type 0 where
  pub streams : Stubs W
  pub peers : PeerStubs W
  pub step : W → String → StepRequest → W × Result (Option ProtoNode)
  pub with_timeout : W → W
  pub dial : String → Option Error
  pub hang_up : String → Option Error
