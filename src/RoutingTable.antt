-- ===== src/RoutingTable.antt =====
-- internal/node/routingtable/routingtable.go. A routing entry is the node pointer that it holds; its
-- mutex makes each read and write of it one step, which is one function here.
pub mod Shape
pub mod Window
pub mod Promote
pub mod Single
use koorde_dht.Prelude.{
  ℕ, zero, suc, ◌+◌, ◌-◌, ◌≤◌, ◌≡◌, List, [], ◌∷◌, Option, none, some, ltb, leb, if◌then◌else◌,
  length, get_elem?, set, take, drop, replicate, present,
}
use koorde_dht.Prelude.Int.{ℤ, pos, negsuc}
use koorde_dht.Identifier.Space.{Space}
use koorde_dht.Domain.{Node}

abbrev pub Entry : Type 0
Entry = Option Node

pub record RoutingTable : Type 0 where
  pub space : Space
  pub self : Node
  pub successors : List Entry
  pub predecessor : Entry
  pub de_bruijn : List Entry

unfoldable pub new : Node → Space → RoutingTable
new self space = record {
  space = space;
  self = self;
  successors = replicate space.succ_list_size none;
  predecessor = none;
  de_bruijn = replicate space.graph_grade none;
}

-- The entry at an index that the caller has checked.
abbrev pub entry_at : List Entry → ℕ → Entry
entry_at entries i = elim (get_elem? entries i) [ none ↦ none | some e ↦ e ]

unfoldable pub get_successor : RoutingTable → ℤ → Entry
get_successor rt (negsuc i) = none
get_successor rt (pos i) = if leb rt.space.succ_list_size i then none else entry_at rt.successors i

unfoldable pub first_successor : RoutingTable → Entry
first_successor rt = get_successor rt (pos 0)

unfoldable pub set_successor : RoutingTable → ℤ → Entry → RoutingTable
set_successor rt (negsuc i) n = rt
set_successor rt (pos i) n =
    if leb rt.space.succ_list_size i then rt else record rt { successors = set rt.successors i n }

-- The nodes of the entries that are not nil.
unfoldable pub successor_list : RoutingTable → List Node
successor_list rt = present rt.successors

-- `for i, node := range nodes { rt.SetSuccessor(i, node) }`, from index i on.
unfoldable pub set_successors_from : RoutingTable → ℕ → List Entry → RoutingTable
set_successors_from rt i [] = rt
set_successors_from rt i (n ∷ nodes) =
    set_successors_from (set_successor rt (pos i) n) (suc i) nodes

-- `for i := len(nodes); i < expected; i++ { rt.SetSuccessor(i, nil) }`, with `n` rounds left.
unfoldable pub clear_successors_from : RoutingTable → ℕ → ℕ → RoutingTable
clear_successors_from rt i zero = rt
clear_successors_from rt i (suc n) = clear_successors_from (set_successor rt (pos i) none) (suc i) n

-- Extra nodes are cut off.
abbrev pub truncate : ℕ → List Entry → List Entry
truncate expected nodes = if ltb expected (length nodes) then take expected nodes else nodes

unfoldable pub set_successor_list : RoutingTable → List Entry → RoutingTable
set_successor_list rt nodes =
    let expected = rt.space.succ_list_size in
    let kept = truncate expected nodes in
    clear_successors_from (set_successors_from rt 0 kept) (length kept) (expected - length kept)

-- The loop of PromoteCandidate over the entries after the candidate: newList[k] = succ; k++.
unfoldable pub promote_loop : List Entry → ℕ → List Entry → List Entry
promote_loop [] k new_list = new_list
promote_loop (none ∷ entries) k new_list = promote_loop entries k new_list
promote_loop (some succ ∷ entries) k new_list =
    promote_loop entries (suc k) (set new_list k (some succ))

unfoldable pub promote_candidate : RoutingTable → ℤ → RoutingTable
promote_candidate rt (negsuc i) = rt
promote_candidate rt (pos zero) = rt
promote_candidate rt (pos (suc i)) =
    if leb rt.space.succ_list_size (suc i) then rt else elim (entry_at rt.successors (suc i)) [
      | none ↦ rt
      | some candidate ↦ set_successor_list rt (
          promote_loop (drop (suc (suc i)) rt.successors) 1
            (set (replicate rt.space.succ_list_size none) 0 (some candidate)))
    ]

unfoldable pub get_predecessor : RoutingTable → Entry
get_predecessor rt = rt.predecessor

unfoldable pub set_predecessor : RoutingTable → Entry → RoutingTable
set_predecessor rt n = record rt { predecessor = n }

unfoldable pub get_de_bruijn : RoutingTable → ℤ → Entry
get_de_bruijn rt (negsuc digit) = none
get_de_bruijn rt (pos digit) =
    if leb (length rt.de_bruijn) digit then none else entry_at rt.de_bruijn digit

unfoldable pub set_de_bruijn : RoutingTable → ℤ → Entry → RoutingTable
set_de_bruijn rt (negsuc digit) n = rt
set_de_bruijn rt (pos digit) n =
    if leb (length rt.de_bruijn) digit
    then rt
    else record rt { de_bruijn = set rt.de_bruijn digit n }

unfoldable pub de_bruijn_list : RoutingTable → List Node
de_bruijn_list rt = present rt.de_bruijn

unfoldable pub set_de_bruijns_from : RoutingTable → ℕ → List Entry → RoutingTable
set_de_bruijns_from rt i [] = rt
set_de_bruijns_from rt i (n ∷ nodes) =
    set_de_bruijns_from (set_de_bruijn rt (pos i) n) (suc i) nodes

unfoldable pub clear_de_bruijns_from : RoutingTable → ℕ → ℕ → RoutingTable
clear_de_bruijns_from rt i zero = rt
clear_de_bruijns_from rt i (suc n) = clear_de_bruijns_from (set_de_bruijn rt (pos i) none) (suc i) n

unfoldable pub set_de_bruijn_list : RoutingTable → List Entry → RoutingTable
set_de_bruijn_list rt nodes =
    let expected = rt.space.graph_grade in
    let kept = truncate expected nodes in
    clear_de_bruijns_from (set_de_bruijns_from rt 0 kept) (length kept) (expected - length kept)

unfoldable pub init_single_node : RoutingTable → RoutingTable
init_single_node rt =
    let rt1 = set_successor rt (pos 0) (some rt.self) in
    let rt2 = set_predecessor rt1 (some rt1.self) in set_de_bruijn rt2 (pos 0) (some rt2.self)
