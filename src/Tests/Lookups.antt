-- ===== src/Tests/Lookups.antt =====
-- Runs of the theorems on lookups.
use Prim.Native.String.{String}
use koorde_dht.Prelude.{
  ℕ, ◌+◌, ◌%◌, ◌≡◌, refl, false, List, [], ◌∷◌, Option, none, some, arith, map, get_elem?,
}
use koorde_dht.Prelude.Int.{pos}
use koorde_dht.Result.{Error, Result, ok}
use koorde_dht.Identifier.Space.{Space, zero_id}
use koorde_dht.Domain.{Node, ProtoNode}
use koorde_dht.Pool.{Pool}
use koorde_dht.LogicNode.Imaginary.{walk}
use koorde_dht.LogicNode.Imaginary.Walk.{walk-target}
use koorde_dht.LogicNode.Hops.{find_next_hop}
use koorde_dht.Identifier.Order.Circle.{IsOnArc}
use koorde_dht.LogicNode.Hops.Covers.{find_next_hop_covers}
use koorde_dht.LogicNode.Lookup.{StepRequest}
use koorde_dht.Tests.Data.{
  space, middle, low-IsId, middle-IsId, high-IsId, low_node, middle_node, high_node,
}

abbrev nine_bits : Space
nine_bits = record { bits = 9; byte_len = 2; graph_grade = 8; succ_list_size = 3 }

walk-target_example :
    walk nine_bits 3 (0 ∷ 7 ∷ []) (1 ∷ 200 ∷ []) ≡ ok (1 ∷ 200 ∷ [], zero_id nine_bits)
walk-target_example =
    walk-target {k = 3}
      (record {
        bits_pos = omega arith;
        byte_len_eq = refl;
        log_pos = omega arith;
        grade_eq = refl;
        list_pos = omega arith;
      })
      (omega arith) 3 (0 ∷ 7 ∷ []) (1 ∷ 200 ∷ []) refl
      (record { length_eq = refl; bytes = (omega arith, (omega arith, tt)); below = omega arith })
      (record { length_eq = refl; bytes = (omega arith, (omega arith, tt)); below = omega arith })

abbrev hops : List Node
hops = middle_node ∷ low_node ∷ high_node ∷ []

find_next_hop_covers_example :
    (k : ℕ) × (curr : Node) × (next : Node) × (find_next_hop (map some hops) middle ≡ some (pos k))
    × (get_elem? hops k ≡ some curr)
    × (get_elem? hops ((k + 1) % 3) ≡ some next)
    × IsOnArc space middle curr.id next.id
find_next_hop_covers_example =
    find_next_hop_covers middle hops (omega arith) middle-IsId
      (middle-IsId, (low-IsId, (high-IsId, tt)))

-- A network that counts its calls and answers each with no node; the context never ends.
abbrev ctx_err : ℕ → Option Error
ctx_err calls = none

abbrev rpc : ℕ → String → StepRequest → ℕ × Result (Option ProtoNode)
rpc calls addr req = (calls + 1, ok none)

abbrev pool : Pool
pool = record {
  self_addr = "low:4000";
  clients = ("middle:4000", 2) ∷ ("high:4000", 3) ∷ [];
  closed = false;
  locked = false;
}
