-- ===== src/Tests/Wire.antt =====
-- A network of a node and one other, whose service answers every call.
use Prim.Native.String.{String}
use text.Mathlib.Text.{◌==◌ as str_eq}
use text.Mathlib.TextEquality.{eq_iff}
use koorde_dht.Prelude.{
  refl, false, List, [], ◌∷◌, Option, none, some, arith, inl, inr, Bool-cases, replicate,
}
use koorde_dht.Prelude.Assoc.{lookup}
use koorde_dht.Result.{Error, Result, ok, errorf}
use koorde_dht.Domain.{Resource, ProtoResource, node_to_proto}
use koorde_dht.RoutingTable.{get_predecessor, successor_list, de_bruijn_list}
use koorde_dht.Storage.{store_key}
use koorde_dht.Pool.Counts.{IsOpen, refs}
use koorde_dht.Pool.Tally.{differs}
use koorde_dht.LogicNode.Local.{LocalNode}
use koorde_dht.LogicNode.Remote.{Stubs}
use koorde_dht.LogicNode.Network.{Network}
use koorde_dht.LogicNode.References.Swap.{named}
use koorde_dht.LogicNode.Referenced.{is_addr, need, IsReferenced}
use koorde_dht.Server.Dht.{
  get_predecessor_rpc, get_successor_list_rpc, ping_rpc, notify_rpc, leave_rpc, retrieve_rpc,
  remove_rpc,
}
use koorde_dht.Server.Stream.{Progress, goes_on, returned, crashed, message, store_turn}
use koorde_dht.Server.Served.{turn, failure, IsServed}
use koorde_dht.Tests.Data.{
  space, middle, high, low_node, middle_node, high_node, table, table-IsTable,
}

abbrev pub refused : Error
refused = errorf "connection refused"

abbrev pub letter : Resource
letter = record { key = middle; raw_key = "letter"; value = "a" }

abbrev pub digit : Resource
digit = record { key = high; raw_key = "digit"; value = "1" }

-- The node with the middle identifier, after the one with the low identifier.
abbrev pub peer : LocalNode
peer = record {
  rt = record {
    space = space;
    self = middle_node;
    successors = some high_node ∷ some low_node ∷ none ∷ [];
    predecessor = some low_node;
    de_bruijn = replicate 8 none;
  };
  store = [];
  pool = record { self_addr = "middle:4000"; clients = []; closed = false; locked = false };
}

-- The node with the low identifier, before it.
abbrev pub local : LocalNode
local = record {
  rt = table;
  store = (store_key middle, letter) ∷ (store_key high, digit) ∷ [];
  pool = record {
    self_addr = "low:4000";
    clients = ("middle:4000", 2) ∷ ("high:4000", 3) ∷ [];
    closed = false;
    locked = false;
  };
}

pub local-IsOpen : IsOpen local.pool
local-IsOpen = record { open_flag = refl; unlocked = refl; used = (omega arith, (omega arith, tt)) }

pub local-IsReferenced : IsReferenced local
unfolding need get_predecessor successor_list de_bruijn_list named is_addr refs lookup
local-IsReferenced = record {
  table = table-IsTable;
  in_service = local-IsOpen;
  covered = λ a other.
      let apart = differs a "low:4000" "low:4000" refl other.distinct in
      elim (Bool-cases (str_eq "middle:4000" a)) [
        | inl same ↦ rw (← (eq_iff "middle:4000" a).0 same) (omega arith)
        | inr not_middle ↦ elim (Bool-cases (str_eq "high:4000" a)) [
          | inl same ↦ rw (← (eq_iff "high:4000" a).0 same) (omega arith)
          | inr not_high ↦ rw not_middle (rw not_high (rw apart (omega arith)))
        ]
      ];
}

pub record Wire : Type 0 where
  pub at : LocalNode
  pub stream : Progress

abbrev pub quiet : Wire
quiet = record { at = peer; stream = goes_on peer }

abbrev sent : Wire → Option ProtoResource → Progress → Wire × Option Error
sent w p (goes_on n) = (record w { stream = store_turn n (turn (message p)) }, none)
sent w p (returned n e) = (w, some refused)
sent w p crashed = (w, some refused)

abbrev ended : Wire → Progress → Wire × Option Error
ended w (goes_on n) = (record { at = n; stream = returned n none }, none)
ended w (returned n e) = (record { at = n; stream = returned n e }, e)
ended w crashed = (w, some refused)

abbrev pub streams : Stubs Wire
streams = record {
  ctx_err = λ w. none;
  open_store = λ w addr. (record w { stream = goes_on w.at }, none);
  send = λ w p. sent w p w.stream;
  close_store = λ w. ended w w.stream;
  retrieve = λ w addr key. (w, retrieve_rpc none w.at (some key));
  remove = λ w addr key.
      let (m, r) = remove_rpc none w.at (some key) in (record w { at = m }, failure r);
}

abbrev pub dial : String → Option Error
dial addr = none

abbrev notified :
    Wire → Option (LocalNode × List Resource × Result (Unit {0})) → Wire × Option Error
notified w none = (w, some refused)
notified w (some (m, resources, r)) = (record w { at = m }, failure r)

abbrev left : Wire → Option (LocalNode × Result (Unit {0})) → Wire × Option Error
left w none = (w, some refused)
left w (some (m, r)) = (record w { at = m }, failure r)

abbrev pub net : Network Wire
net = record {
  streams = streams;
  peers = record {
    start = λ w addr id. (w, ok (node_to_proto (some middle_node)));
    predecessor = λ w addr. (w, get_predecessor_rpc none w.at);
    successors = λ w addr. (w, get_successor_list_rpc none w.at);
    notify = λ w addr p. notified w (notify_rpc dial dial none w.at p);
    ping = λ w addr. (w, ping_rpc none);
    leave = λ w addr p. left w (leave_rpc dial dial none w.at p);
  };
  step = λ w addr req. (w, ok (node_to_proto (some middle_node)));
  with_timeout = λ w. w;
  dial = dial;
  hang_up = dial;
}

abbrev pub at_wire : Wire → LocalNode
at_wire w = w.at

abbrev pub stream_wire : Wire → Progress
stream_wire w = w.stream

pub streams-IsServed : IsServed streams "middle:4000" at_wire stream_wire
streams-IsServed = record {
  alive = λ w. refl;
  opened = λ w. (refl, refl);
  sent = λ w n p e. rw e (refl, refl);
  closed = λ w n e. rw e (refl, refl);
  retrieved = λ w key. refl;
  removed = λ w key. (refl, refl);
}
