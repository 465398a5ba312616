-- ===== src/RoutingTable/Single.antt =====
-- The table of a node in single-node mode.
use koorde_dht.Prelude.{
  ℕ, suc, ◌<◌, ◌≡◌, some, arith, length-set, get_elem?-set_self, get_elem?-set_ne,
}
use koorde_dht.Prelude.Int.{pos}
use koorde_dht.RoutingTable.{
  RoutingTable, set_successor, get_successor, first_successor, get_predecessor, set_predecessor,
  get_de_bruijn, set_de_bruijn, init_single_node,
}
use koorde_dht.RoutingTable.Shape.{IsTable}

pub init_single_node-IsTable : (rt : RoutingTable) → IsTable rt → IsTable (init_single_node rt)
unfolding init_single_node set_successor set_predecessor set_de_bruijn
init_single_node-IsTable rt h =
    ground
      (arith, length-set rt.successors 0 (some rt.self), length-set rt.de_bruijn 0 (some rt.self))

-- Let a table have as many successor and de Bruijn entries as its space asks for, at least one of
-- each. InitSingleNode makes the node its own predecessor, first successor and first de Bruijn entry,
-- and leaves every successor entry and every de Bruijn entry after the first as it was.
pub init_single_node_lem :
    (rt : RoutingTable) (i : ℕ)
    → IsTable rt
    → 0 < rt.space.succ_list_size
    → 0 < rt.space.graph_grade
    → (first_successor (init_single_node rt) ≡ some rt.self)
      × (get_predecessor (init_single_node rt) ≡ some rt.self)
      × (get_de_bruijn (init_single_node rt) (pos 0) ≡ some rt.self)
      × (get_successor (init_single_node rt) (pos (suc i)) ≡ get_successor rt (pos (suc i)))
      × (get_de_bruijn (init_single_node rt) (pos (suc i)) ≡ get_de_bruijn rt (pos (suc i)))
unfolding init_single_node set_successor set_predecessor set_de_bruijn first_successor get_successor
    get_predecessor get_de_bruijn
init_single_node_lem rt i h hs hd = ground (
  arith,
  length-set rt.de_bruijn 0 (some rt.self),
  get_elem?-set_self rt.successors 0 (some rt.self),
  get_elem?-set_self rt.de_bruijn 0 (some rt.self),
  get_elem?-set_ne rt.successors {i = 0} {j = suc i} (some rt.self),
  get_elem?-set_ne rt.de_bruijn {i = 0} {j = suc i} (some rt.self),
)
