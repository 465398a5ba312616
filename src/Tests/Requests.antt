-- ===== src/Tests/Requests.antt =====
-- A run of the requests on a node that has just created a DHT. The network, which is not used, counts
-- the calls and refuses each.
use Prim.Native.String.{String}
use koorde_dht.Prelude.{ℕ, ◌+◌, ◌≡◌, false, refl, [], ◌∷◌, Option, none, some, arith}
use koorde_dht.Result.{Error, Result, ok, err, errorf}
use koorde_dht.Domain.{ProtoNode, Resource}
use koorde_dht.Storage.Map.{view}
use koorde_dht.LogicNode.Lookup.{StepRequest}
use koorde_dht.LogicNode.Local.{LocalNode, create_new_dht}
use koorde_dht.LogicNode.Remote.{Stubs}
use koorde_dht.LogicNode.Answer.{finished}
use koorde_dht.LogicNode.Requests.{put_request, get_request, delete_request}
use koorde_dht.LogicNode.Requests.Single.{put-get-delete}
use koorde_dht.Tests.Data.{space, low_node, middle, middle-IsId}

abbrev refused : Error
refused = errorf "connection refused"

abbrev net : Stubs ℕ
net = record {
  ctx_err = λ calls. none;
  open_store = λ calls addr. (calls + 1, some refused);
  send = λ calls message. (calls + 1, some refused);
  close_store = λ calls. (calls + 1, some refused);
  retrieve = λ calls addr key. (calls + 1, err refused);
  remove = λ calls addr key. (calls + 1, some refused);
}

abbrev rpc : ℕ → String → StepRequest → ℕ × Result (Option ProtoNode)
rpc calls addr req = (calls + 1, err refused)

abbrev refuse : String → Option Error
refuse addr = some refused

abbrev fresh : LocalNode
fresh = record {
  rt = record {
    space = space;
    self = low_node;
    successors = none ∷ none ∷ none ∷ [];
    predecessor = none;
    de_bruijn = none ∷ none ∷ none ∷ none ∷ none ∷ none ∷ none ∷ none ∷ [];
  };
  store = [];
  pool = record { self_addr = "low:4000"; clients = []; closed = false; locked = false };
}

abbrev letter : Resource
letter = record { key = middle; raw_key = "letter"; value = "a" }

put-get-delete_example :
    (m : LocalNode) × (m' : LocalNode) × (put_request net rpc refuse refuse 1
        (create_new_dht fresh)
        0
        letter
      ≡ finished m 0 none)
    × (get_request net rpc refuse refuse 1 m 0 middle ≡ finished m 0 (ok (some letter)))
    × (delete_request net rpc refuse refuse 1 m 0 middle ≡ finished m' 0 none)
    × (view m'.store middle ≡ none)
put-get-delete_example =
    put-get-delete net rpc refuse refuse 1 fresh 0 letter
      (record { successors_length = refl; de_bruijn_length = refl }) (omega arith) (omega arith)
      refl middle-IsId.bytes
