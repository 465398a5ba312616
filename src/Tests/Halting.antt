-- ===== src/Tests/Halting.antt =====
-- Runs of the theorems on the fuel of the requests and the rounds of a node.
use koorde_dht.Prelude.{◌≡◌, refl, true, All, arith}
use koorde_dht.Identifier.Space.Valid.{IsId}
use koorde_dht.Domain.{Resource}
use koorde_dht.Storage.{all}
use koorde_dht.LogicNode.Requests.{put_request, get_request, delete_request}
use koorde_dht.LogicNode.Window.{fix_de_bruijn}
use koorde_dht.LogicNode.Workers.{resource_repair}
use koorde_dht.LogicNode.Halting.{settles, IsFueled, requests-settle}
use koorde_dht.LogicNode.Halting.Rounds.{rounds-settle}
use koorde_dht.Tests.Data.{space, middle, space-IsSpace, low-IsId, middle-IsId, high-IsId}
use koorde_dht.Tests.Wire.{
  local, local-IsOpen, local-IsReferenced, letter, quiet, net, dial, streams,
}

local-IsFueled : IsFueled local.rt 21 3
local-IsFueled = record {
  spaced = space-IsSpace;
  narrow = omega arith;
  divided = omega arith;
  valid = low-IsId;
  enough = omega arith;
}

stored_valid : All (λ (r : Resource). IsId space r.key) (all local.store)
unfolding all
stored_valid = (middle-IsId, (high-IsId, tt))

requests-settle_example :
    (settles (put_request streams net.step dial dial 21 local quiet letter) ≡ true)
    × (settles (get_request streams net.step dial dial 21 local quiet middle) ≡ true)
    × (settles (delete_request streams net.step dial dial 21 local quiet middle) ≡ true)
requests-settle_example =
    requests-settle net 21 local quiet letter local-IsFueled middle-IsId local-IsOpen

rounds-settle_example :
    (settles (fix_de_bruijn net 21 local quiet) ≡ true)
    × (settles (resource_repair net 21 local quiet) ≡ true)
rounds-settle_example =
    rounds-settle net 21 (λ addr. refl) local quiet local-IsFueled stored_valid local-IsReferenced
