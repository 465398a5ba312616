-- ===== src/LogicNode/Referenced.antt =====
-- The pool holds a reference for each role that an address plays in the routing table.
pub mod Requests
pub mod Rounds
pub mod Windows
pub mod Joins
pub mod Runs
pub mod Pooled
use Prim.Native.String.{String}
use text.Mathlib.Text.{◌==◌ as str_eq}
use koorde_dht.Prelude.{
  ℕ, ◌+◌, ◌-◌, ◌≤◌, ◌≡◌, refl, sym, ◌⊎◌, Bool, true, false, not, ◌&&◌, List, none, some, arith, inl,
  inr, Bool-cases,
}
use koorde_dht.Domain.{Node}
use koorde_dht.RoutingTable.{RoutingTable, Entry, get_predecessor, successor_list, de_bruijn_list}
use koorde_dht.RoutingTable.Shape.{IsTable}
use koorde_dht.Pool.{Pool}
use koorde_dht.Pool.Counts.{IsOpen, refs}
use koorde_dht.Pool.Tally.{ind, IsOther, Leaves, IsOther-after}
use koorde_dht.LogicNode.Local.{LocalNode}
use koorde_dht.LogicNode.Answer.{Answer, finished, panicked, stuck, unfinished}
use koorde_dht.LogicNode.References.Swap.{named}

unfoldable pub is_addr : String → Entry → Bool
is_addr a none = false
is_addr a (some n) = str_eq n.addr a

-- The references that the routing table needs for an address: one for the successor list, one for the
-- de Bruijn window and one for the predecessor.
unfoldable pub need : RoutingTable → String → ℕ
need rt a =
    ind (named a (successor_list rt))
    + ind (named a (de_bruijn_list rt))
    + ind (is_addr a (get_predecessor rt))

pub record IsReferenced (n : LocalNode) : Type 0 where
  pub table : IsTable n.rt
  pub in_service : IsOpen n.pool
  pub covered : (a : String) → IsOther n.pool a → need n.rt a ≤ refs n.pool a

-- A new table and a new pool, whose references change with the needs.
pub IsReferenced-change :
    {n : LocalNode} {rt : RoutingTable} {q : Pool} {f : String → ℕ → ℕ}
    → IsReferenced n
    → IsTable rt
    → Leaves n.pool q f
    → ((a : String) → IsOther n.pool a → (r : ℕ) → need n.rt a ≤ r → need rt a ≤ f a r)
    → IsReferenced (record n { rt = rt; pool = q })
IsReferenced-change {n = n} {rt = rt} {q = q} h shape l follows = record {
  table = shape;
  in_service = l.in_service;
  covered = λ a other.
      let other' = IsOther-after (sym l.same_self) other in
      rw (l.tally a other') (follows a other' (refs n.pool a) (h.covered a other'));
}

-- What holds of the node when an operation finishes. An operation that is stuck on the pool has it not.
unfoldable pub Ends : {W A : Type 0} → (LocalNode → Type 0) → Answer W A → Type 0
Ends P (finished n w a) = P n
Ends P panicked = Unit {0}
Ends P stuck = ⊥
Ends P unfinished = Unit {0}

pub Ends-cases :
    {W A : Type 0} (P : LocalNode → Type 0) (answer : Answer W A)
    → Ends P answer
    → ((m : LocalNode) × (w : W) × (a : A) × (answer ≡ finished m w a) × P m)
      ⊎ ((answer ≡ panicked) ⊎ (answer ≡ unfinished))
unfolding Ends
Ends-cases P (finished m w a) h = inl (m, w, a, refl, h)
Ends-cases P panicked h = inr (inl refl)
Ends-cases P unfinished h = inr (inr refl)
Ends-cases P stuck h = absurd h
