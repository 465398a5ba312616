-- ===== src/Tests/Tables.antt =====
-- Runs of the theorems on the routing table.
use koorde_dht.Prelude.{◌≡◌, refl, [], ◌∷◌, none, some, arith}
use koorde_dht.Prelude.Int.{pos}
use koorde_dht.RoutingTable.{
  successor_list, promote_candidate, init_single_node, first_successor, get_predecessor,
  get_successor, get_de_bruijn,
}
use koorde_dht.RoutingTable.Promote.{promote_candidate_lem}
use koorde_dht.RoutingTable.Single.{init_single_node_lem}
use koorde_dht.Tests.Data.{table, table-IsTable, low_node, high_node}

promote_candidate_lem_example :
    (promote_candidate table (pos 1)
      ≡ record table { successors = some high_node ∷ some low_node ∷ none ∷ [] })
    × (successor_list (promote_candidate table (pos 1)) ≡ high_node ∷ low_node ∷ [])
promote_candidate_lem_example =
    promote_candidate_lem table table-IsTable 0 high_node (omega arith) refl

init_single_node_lem_example :
    (first_successor (init_single_node table) ≡ some low_node)
    × (get_predecessor (init_single_node table) ≡ some low_node)
    × (get_de_bruijn (init_single_node table) (pos 0) ≡ some low_node)
    × (get_successor (init_single_node table) (pos 2) ≡ get_successor table (pos 2))
    × (get_de_bruijn (init_single_node table) (pos 2) ≡ get_de_bruijn table (pos 2))
init_single_node_lem_example =
    init_single_node_lem table 1 table-IsTable (omega arith) (omega arith)
