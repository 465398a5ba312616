-- ===== src/LogicNode/Referenced/Pooled.antt =====
-- A node of the routing table has a connection in the pool.
use Prim.Native.String.{String}
use text.Mathlib.Text.{◌==◌ as str_eq}
use text.Mathlib.TextEquality.{eq_iff}
use koorde_dht.Prelude.{
  ◌≤◌, ◌<◌, ◌≡◌, refl, ap, true, ◌||◌, List, [], ◌∷◌, none, some, arith, inl, inr, Option-cases,
  Bool-cases, leb, present,
}
use koorde_dht.Prelude.Assoc.{lookup}
use koorde_dht.Domain.{Node}
use koorde_dht.RoutingTable.{
  RoutingTable, Entry, entry_at, first_successor, get_successor, get_predecessor, successor_list,
  de_bruijn_list,
}
use koorde_dht.Pool.{Pool, returns, get_from_pool, get_from_pool_locked}
use koorde_dht.Pool.Counts.{IsOpen, refs}
use koorde_dht.Pool.Tally.{IsOther}
use koorde_dht.LogicNode.Local.{LocalNode}
use koorde_dht.LogicNode.References.Swap.{named}
use koorde_dht.LogicNode.Referenced.{is_addr, need, IsReferenced}

get_from_pool-refs :
    (p : Pool) (a : String)
    → IsOpen p
    → IsOther p a
    → 0 < refs p a
    → get_from_pool p a ≡ returns none p
unfolding get_from_pool get_from_pool_locked refs
get_from_pool-refs p a h other lt = elim (Option-cases (lookup str_eq a p.clients)) [
  | inl absent ↦ absurd (omega (arith, (rw absent at lt)))
  | inr (k, there) ↦
      let opened = h.open_flag in
      let free = h.unlocked in
      let nonempty = other.nonempty in let distinct = other.distinct in ground arith
]

-- The address of another node that is a successor, a de Bruijn node or the predecessor of a node whose
-- roles are referenced has a connection in the pool, which GetFromPool returns.
pub IsReferenced-get_from_pool :
    (n : LocalNode) (a : String)
    → IsReferenced n
    → IsOther n.pool a
    → (named a (successor_list n.rt)
        || named a (de_bruijn_list n.rt)
        || is_addr a (get_predecessor n.rt))
      ≡ true
    → get_from_pool n.pool a ≡ returns none n.pool
IsReferenced-get_from_pool n a h other role =
    get_from_pool-refs n.pool a h.in_service other (needed (h.covered a other) role)
  where
    needed :
        need n.rt a ≤ refs n.pool a
        → (named a (successor_list n.rt)
            || named a (de_bruijn_list n.rt)
            || is_addr a (get_predecessor n.rt))
          ≡ true
        → 0 < refs n.pool a
    needed le role = unfold need in ground arith

-- The first successor is named by the list.
pub first_successor-named :
    (rt : RoutingTable) (succ : Node)
    → first_successor rt ≡ some succ
    → named succ.addr (successor_list rt) ≡ true
unfolding first_successor get_successor successor_list
first_successor-named rt succ e = elim (Bool-cases (leb rt.space.succ_list_size 0)) [
  | inl out ↦ absurd (clash (rw out at e))
  | inr fits ↦ head rt.successors (rw fits at e)
]
  where
    clash : ¬ (◌≡◌ {A = Entry} none (some succ))
    clash e = ground arith

    head :
        (entries : List Entry)
        → entry_at entries 0 ≡ some succ
        → named succ.addr (present entries) ≡ true
    head [] e = absurd (clash e)
    head (none ∷ entries) e = absurd (clash e)
    head (some n ∷ entries) e =
        let same : n ≡ succ = ap (λ (o : Entry). elim o [ none ↦ n | some m ↦ m ]) e in
        unfold named in rw (same, (eq_iff succ.addr succ.addr).1 refl) refl
