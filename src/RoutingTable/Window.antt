-- ===== src/RoutingTable/Window.antt =====
-- Replacing the successor list and the de Bruijn window: what the loops over the entries leave.
use koorde_dht.Prelude.{
  ℕ, zero, suc, ◌+◌, ◌-◌, ◌≤◌, ◌≡◌, refl, ap, ◌∙◌, List, [], ◌∷◌, ◌++◌, none, arith, length,
  length-set, length-replicate, length-write_from, set, replicate, write_from, write_from-full,
  length-take, length-append, append-nil,
}
use koorde_dht.Prelude.Int.{pos}
use koorde_dht.RoutingTable.{
  RoutingTable, Entry, truncate, set_successor, set_successors_from, clear_successors_from,
  set_successor_list, set_de_bruijn, set_de_bruijns_from, clear_de_bruijns_from, set_de_bruijn_list,
}
use koorde_dht.RoutingTable.Shape.{IsTable}

-- The entries after a replacement: the given ones, cut off at the size, then nil up to the size.
abbrev pub padded : ℕ → List Entry → List Entry
padded size nodes = truncate size nodes ++ replicate (size - length (truncate size nodes)) none

length-truncate-le : (size : ℕ) (nodes : List Entry) → length (truncate size nodes) ≤ size
length-truncate-le size nodes = ground (arith, length-take size nodes)

set_successors_from-write :
    (nodes : List Entry) (i : ℕ) (rt : RoutingTable)
    → i + length nodes ≤ rt.space.succ_list_size
    → set_successors_from rt i nodes ≡ record rt { successors = write_from nodes i rt.successors }
unfolding set_successors_from
set_successors_from-write [] i rt h = refl
set_successors_from-write (n ∷ nodes) i rt h =
    ap (λ (t : RoutingTable). set_successors_from t (suc i) nodes) first
    ∙ set_successors_from-write nodes (suc i) _ (omega arith)
  where
    first : set_successor rt (pos i) n ≡ record rt { successors = set rt.successors i n }
    first = unfold set_successor in ground arith

clear_successors_from-set :
    (n i : ℕ) (rt : RoutingTable)
    → clear_successors_from rt i n ≡ set_successors_from rt i (replicate n none)
unfolding clear_successors_from set_successors_from
clear_successors_from-set zero i rt = refl
clear_successors_from-set (suc n) i rt = clear_successors_from-set n (suc i) _

-- SetSuccessorList leaves the given nodes, cut off at the list's size, followed by nil entries up to
-- that size, and changes nothing else of the table.
pub set_successor_list_lem :
    (rt : RoutingTable) (nodes : List Entry)
    → IsTable rt
    → set_successor_list rt nodes ≡ record rt { successors = padded rt.space.succ_list_size nodes }
unfolding set_successor_list
set_successor_list_lem rt nodes h =
    ap (λ (t : RoutingTable). clear_successors_from t (length kept) rest) written
    ∙ clear_successors_from-set rest (length kept) _
    ∙ set_successors_from-write (replicate rest none) (length kept) _
        (omega (arith, fits, length-replicate {A = Entry} rest none))
    ∙ ap (λ (t : List Entry). record rt { successors = t })
        (write_from-full kept (replicate rest none) rt.successors
          (omega (arith, fits, h.successors_length, length-replicate {A = Entry} rest none)))
  where
    size : ℕ
    size = rt.space.succ_list_size

    kept : List Entry
    kept = truncate size nodes

    rest : ℕ
    rest = size - length kept

    fits : length kept ≤ size
    fits = length-truncate-le size nodes

    written :
        set_successors_from rt 0 kept ≡ record rt { successors = write_from kept 0 rt.successors }
    written = set_successors_from-write kept 0 rt (omega (arith, fits))

set_de_bruijns_from-write :
    (nodes : List Entry) (i : ℕ) (rt : RoutingTable)
    → i + length nodes ≤ length rt.de_bruijn
    → set_de_bruijns_from rt i nodes ≡ record rt { de_bruijn = write_from nodes i rt.de_bruijn }
unfolding set_de_bruijns_from
set_de_bruijns_from-write [] i rt h = refl
set_de_bruijns_from-write (n ∷ nodes) i rt h =
    ap (λ (t : RoutingTable). set_de_bruijns_from t (suc i) nodes) first
    ∙ set_de_bruijns_from-write nodes (suc i) _ (omega (arith, length-set rt.de_bruijn i n))
  where
    first : set_de_bruijn rt (pos i) n ≡ record rt { de_bruijn = set rt.de_bruijn i n }
    first = unfold set_de_bruijn in ground arith

clear_de_bruijns_from-set :
    (n i : ℕ) (rt : RoutingTable)
    → clear_de_bruijns_from rt i n ≡ set_de_bruijns_from rt i (replicate n none)
unfolding clear_de_bruijns_from set_de_bruijns_from
clear_de_bruijns_from-set zero i rt = refl
clear_de_bruijns_from-set (suc n) i rt = clear_de_bruijns_from-set n (suc i) _

-- SetDeBruijnList leaves the given nodes, cut off at the degree, followed by nil entries up to the
-- degree, and changes nothing else of the table.
pub set_de_bruijn_list_lem :
    (rt : RoutingTable) (nodes : List Entry)
    → IsTable rt
    → set_de_bruijn_list rt nodes ≡ record rt { de_bruijn = padded rt.space.graph_grade nodes }
unfolding set_de_bruijn_list
set_de_bruijn_list_lem rt nodes h =
    ap (λ (t : RoutingTable). clear_de_bruijns_from t (length kept) rest) written
    ∙ clear_de_bruijns_from-set rest (length kept) _
    ∙ set_de_bruijns_from-write (replicate rest none) (length kept) _ (
        omega (
          arith,
          fits,
          h.de_bruijn_length,
          length-write_from kept 0 rt.de_bruijn,
          length-replicate {A = Entry} rest none,
        ))
    ∙ ap (λ (t : List Entry). record rt { de_bruijn = t })
        (write_from-full kept (replicate rest none) rt.de_bruijn
          (omega (arith, fits, h.de_bruijn_length, length-replicate {A = Entry} rest none)))
  where
    size : ℕ
    size = rt.space.graph_grade

    kept : List Entry
    kept = truncate size nodes

    rest : ℕ
    rest = size - length kept

    fits : length kept ≤ size
    fits = length-truncate-le size nodes

    written :
        set_de_bruijns_from rt 0 kept ≡ record rt { de_bruijn = write_from kept 0 rt.de_bruijn }
    written = set_de_bruijns_from-write kept 0 rt (omega (arith, fits, h.de_bruijn_length))

pub length-padded : (size : ℕ) (nodes : List Entry) → length (padded size nodes) ≡ size
length-padded size nodes = omega (
  arith,
  length-append (truncate size nodes) (replicate (size - length (truncate size nodes)) none),
  length-replicate {A = Entry} (size - length (truncate size nodes)) none,
  length-truncate-le size nodes,
)

pub padded_full : (size : ℕ) (nodes : List Entry) → length nodes ≡ size → padded size nodes ≡ nodes
padded_full size nodes e = rw (kept, none_left) (append-nil nodes)
  where
    kept : truncate size nodes ≡ nodes
    kept = ground arith

    none_left : size - length nodes ≡ 0
    none_left = omega arith
