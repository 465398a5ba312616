-- ===== src/LogicNode/Hops.antt =====
-- internal/node/logicnode/operation.go, findNextHop: the node of a circular list whose interval, up
-- to the next node of the list, holds an identifier. The list's entries may be nil.
pub mod Skips
pub mod Covers
use koorde_dht.Prelude.{
  ℕ, zero, suc, ◌+◌, ◌%◌, Bool, List, [], ◌∷◌, Option, none, some, if◌then◌else◌, length,
}
use koorde_dht.Prelude.Int.{ℤ, pos, negsuc}
use koorde_dht.Identifier.Space.{Ident}
use koorde_dht.Identifier.Order.{between}
use koorde_dht.Domain.{Node}
use koorde_dht.RoutingTable.{Entry, entry_at}

-- `for list[j] == nil { j = (j + 1) % len(list) }`: the first entry from j on that is not nil, if it
-- is met before the fuel runs out.
unfoldable pub next_present : ℕ → List Entry → ℕ → Option Node
next_present zero list j = none
next_present (suc fuel) list j =
    let more = next_present fuel list ((j + 1) % length list) in
    elim (entry_at list j) [ none ↦ more | some n ↦ some n ]

-- The loop from index i on, with n rounds left; none if the inner loop does not end.
unfoldable pub find_from : ℕ → ℕ → List Entry → Ident → Option ℤ
find_from zero i list x = some (negsuc 0)
find_from (suc n) i list x =
    let rest = find_from n (i + 1) list x in
    elim (entry_at list i) [
      | none ↦ rest
      | some curr ↦ elim (next_present (length list) list ((i + 1) % length list)) [
        | none ↦ none
        | some next ↦ if between x curr.id next.id then some (pos i) else rest
      ]
    ]

-- An empty list has no round, and gives -1.
unfoldable pub find_next_hop : List Entry → Ident → Option ℤ
find_next_hop list current_i = find_from (length list) 0 list current_i
