-- ===== src/LogicNode/Answer.antt =====
-- The result of an operation of a node that calls others: state passing, with the ways not to return.
use koorde_dht.LogicNode.Local.{LocalNode}

-- A request returns a value, leaving the node and the network; or the process panics; or the request
-- blocks; or it is still running when the lookup's fuel ends.
pub data Answer (W A : Type 0) : Type 0 where
  finished : LocalNode → W → A → Answer W A
  panicked : Answer W A
  stuck : Answer W A
  unfinished : Answer W A
