-- ===== src/LogicNode.antt =====
-- internal/node/logicnode: the logic of a node.
pub mod Imaginary
pub mod Hops
pub mod Context
pub mod Lookup
pub mod Local
pub mod Remote
pub mod Calls
pub mod Answer
pub mod Requests
pub mod Network
pub mod References
pub mod Workers
pub mod Stabilize
pub mod Window
pub mod Join
pub mod Departure
pub mod Referenced
pub mod Halting
