-- ===== src/RoutingTable/Shape.antt =====
-- The routing table keeps its shape: as many successor entries as the space asks for, and one de
-- Bruijn entry for each digit.
use koorde_dht.Prelude.{
  ◌≡◌, refl, sym, ap, ◌∙◌, false, List, [], ◌∷◌, none, some, arith, length, drop, length-replicate,
  leb, Bool-cases, inl, inr, set,
}
use koorde_dht.Prelude.Int.{pos}
use koorde_dht.Identifier.Space.{Space}
use koorde_dht.Domain.{Node}
use koorde_dht.RoutingTable.{
  RoutingTable, Entry, new, entry_at, first_successor, get_successor, set_successor,
}

pub record IsTable (rt : RoutingTable) : Type 0 where
  pub successors_length : length rt.successors ≡ rt.space.succ_list_size
  pub de_bruijn_length : length rt.de_bruijn ≡ rt.space.graph_grade

-- A table with a first successor has room for it.
pub first_successor-cons :
    (rt : RoutingTable) (s : Node)
    → first_successor rt ≡ some s
    → (leb rt.space.succ_list_size 0 ≡ false) × (rt.successors ≡ some s ∷ drop 1 rt.successors)
unfolding first_successor get_successor
first_successor-cons rt s e = elim (Bool-cases (leb rt.space.succ_list_size 0)) [
  | inl out ↦ absurd (ground arith)
  | inr fits ↦ (fits, first rt.successors (sym (rw fits refl) ∙ e))
]
  where
    first : (es : List Entry) → entry_at es 0 ≡ some s → es ≡ some s ∷ drop 1 es
    first [] h = cc
    first (none ∷ es) h = cc
    first (some n ∷ es) h = ground arith

pub set_successor-first :
    (rt : RoutingTable) (s : Node) (e : Entry)
    → first_successor rt ≡ some s
    → set_successor rt (pos 0) e ≡ record rt { successors = e ∷ drop 1 rt.successors }
unfolding set_successor
set_successor-first rt s e h =
    let (fits, cons) = first_successor-cons rt s h in
    rw fits (ap (λ (es : List Entry). record rt { successors = es }) (written rt.successors cons))
  where
    written : (es : List Entry) → es ≡ some s ∷ drop 1 es → set es 0 e ≡ e ∷ drop 1 es
    written [] c = cc
    written (x ∷ es) c = refl

pub new-IsTable : (self : Node) (sp : Space) → IsTable (new self sp)
unfolding new
new-IsTable self sp = record {
  successors_length = length-replicate sp.succ_list_size none;
  de_bruijn_length = length-replicate sp.graph_grade none;
}
