-- ===== src/Tests/Data.antt =====
-- The inputs that the tests share.
use koorde_dht.Prelude.{refl, [], ◌∷◌, none, some, arith}
use koorde_dht.Identifier.Space.{Space, Ident}
use koorde_dht.Identifier.Space.Value.{IsSpace}
use koorde_dht.Identifier.Space.Valid.{IsId}
use koorde_dht.Domain.{Node}
use koorde_dht.RoutingTable.{RoutingTable}
use koorde_dht.RoutingTable.Shape.{IsTable}

abbrev pub space : Space
space = record { bits = 10; byte_len = 2; graph_grade = 8; succ_list_size = 3 }

pub space-IsSpace : IsSpace space 3
space-IsSpace = record {
  bits_pos = omega arith;
  byte_len_eq = refl;
  log_pos = omega arith;
  grade_eq = refl;
  list_pos = omega arith;
}

abbrev pub low : Ident
low = 0 ∷ 5 ∷ []

abbrev pub middle : Ident
middle = 1 ∷ 44 ∷ []

abbrev pub high : Ident
high = 3 ∷ 9 ∷ []

pub low-IsId : IsId space low
low-IsId = record {
  length_eq = refl;
  bytes = (omega arith, (omega arith, tt));
  below = omega arith;
}

pub middle-IsId : IsId space middle
middle-IsId = record {
  length_eq = refl;
  bytes = (omega arith, (omega arith, tt));
  below = omega arith;
}

pub high-IsId : IsId space high
high-IsId = record {
  length_eq = refl;
  bytes = (omega arith, (omega arith, tt));
  below = omega arith;
}

abbrev pub low_node : Node
low_node = record { id = low; addr = "low:4000" }

abbrev pub middle_node : Node
middle_node = record { id = middle; addr = "middle:4000" }

abbrev pub high_node : Node
high_node = record { id = high; addr = "high:4000" }

abbrev pub table : RoutingTable
table = record {
  space = space;
  self = low_node;
  successors = some middle_node ∷ some high_node ∷ some low_node ∷ [];
  predecessor = some high_node;
  de_bruijn =
      some low_node ∷ none ∷ some middle_node ∷ none ∷ none ∷ some high_node ∷ none ∷ none ∷ [];
}

pub table-IsTable : IsTable table
table-IsTable = record { successors_length = refl; de_bruijn_length = refl }
