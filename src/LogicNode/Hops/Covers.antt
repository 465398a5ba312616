-- ===== src/LogicNode/Hops/Covers.antt =====
-- The intervals of a circular list of nodes cover the circle, in whatever order the nodes are.
use koorde_dht.Prelude.{
  ℕ, zero, suc, ◌+◌, ◌-◌, ◌%◌, ◌^◌, ◌≤◌, ◌<◌, ◌≡◌, refl, sym, ap, ap₂, subst, ◌∙◌, true, false,
  List, [], ◌∷◌, Option, none, some, All, arith, length, map, get_elem?, if◌then◌else◌, ◌==◌, ◌⊎◌,
  inl, inr, Bool-cases, length-map,
}
use koorde_dht.Prelude.Int.{pos}
use koorde_dht.Identifier.Space.{Space, Ident}
use koorde_dht.Identifier.Space.Value.{value}
use koorde_dht.Identifier.Space.Valid.{IsId}
use koorde_dht.Identifier.Order.{between}
use koorde_dht.Identifier.Order.Circle.{offset, in_arc, between-in_arc, IsOnArc, between_iff}
use koorde_dht.Domain.{Node}
use koorde_dht.RoutingTable.{Entry, entry_at}
use koorde_dht.LogicNode.Hops.{next_present, find_from, find_next_hop}
use native.Mathlib.Nat.{mod-lt, mod-eq_of_lt, mod_self}

-- No number falls at every step around a cycle.
descents {ℓ} :
    {A : Type ℓ} (f : ℕ → ℕ) (n : ℕ) → 0 < n → ((j : ℕ) → j < n → f ((j + 1) % n) < f j) → A
descents f n hn falls = absurd (omega (arith, last_falls, below_first (n - 1) (omega arith)))
  where
    below_first : (j : ℕ) → j < n → f j ≤ f 0
    below_first zero h = omega arith
    below_first (suc j) h =
        let next : (j + 1) % n ≡ suc j =
          mod-eq_of_lt (omega arith) ∙ (let w : j + 1 ≡ suc j = omega arith in w) in
        let step : f (suc j) < f j = rw (← next) (falls j (omega arith)) in
        omega (arith, step, below_first j (omega arith))

    last_falls : f 0 < f (n - 1)
    last_falls =
        let wraps : (n - 1 + 1) % n ≡ 0 =
          ap (λ (t : ℕ). t % n) (let w : n - 1 + 1 ≡ n = omega arith in w) ∙ mod_self n in
        rw (← wraps) (falls (n - 1) (omega arith))

-- How far x lies ahead of a on a circle of n numbers; a full turn if they are the same.
unfoldable ahead : ℕ → ℕ → ℕ → ℕ
ahead n x a = if x == a then n else offset n a x

-- Outside of (a, b], x is nearer to b than to a.
ahead-falls :
    (n x a b : ℕ) → x < n → a < n → b < n → in_arc x a b ≡ false → ahead n x b < ahead n x a
unfolding ahead offset in_arc
ahead-falls n x a b hx ha hb e = ground arith

node_at :
    (nodes : List Node) (j : ℕ)
    → j < length nodes
    → (n : Node) × (get_elem? nodes j ≡ some n) × (entry_at (map some nodes) j ≡ some n)
node_at [] j h = absurd (omega arith)
node_at (n ∷ nodes) zero h = (n, refl, refl)
node_at (n ∷ nodes) (suc j) h = node_at nodes j (omega arith)

All-at :
    (P : Node → Type 0) (nodes : List Node) (j : ℕ) (n : Node)
    → All P nodes
    → get_elem? nodes j ≡ some n
    → P n
All-at P [] j n h e = cc
All-at P (m ∷ nodes) zero n h e = let same : m ≡ n = cc in subst P same h.0
All-at P (m ∷ nodes) (suc j) n h e = All-at P nodes j n h.1 e

next_present-here :
    (fuel : ℕ) (entries : List Entry) (j : ℕ) (n : Node)
    → 0 < fuel
    → entry_at entries j ≡ some n
    → next_present fuel entries j ≡ some n
unfolding next_present
next_present-here zero entries j n h e = absurd (omega arith)
next_present-here (suc fuel) entries j n h e = rw (next_present, e) refl

abbrev id_of : Option Node → Ident
id_of none = []
id_of (some n) = n.id

module _ (x : Ident) (nodes : List Node) where
  abbrev list : List Entry
  list = map some nodes

  abbrev next_index : ℕ → ℕ
  next_index j = (j + 1) % length nodes

  -- The identifier of the node at an index.
  abbrev id_at : ℕ → Ident
  id_at j = id_of (get_elem? nodes j)

  abbrev Outside : ℕ → Type 0
  Outside j = between x (id_at j) (id_at (next_index j)) ≡ false

  -- A node of the list, and the node after it, between which x lies.
  abbrev Between : ℕ → Type 0
  Between k =
      (curr : Node) × (next : Node) × (get_elem? nodes k ≡ some curr)
      × (get_elem? nodes ((k + 1) % length nodes) ≡ some next)
      × (between x curr.id next.id ≡ true)

  round :
      (n i : ℕ)
      → i < length nodes
      → (Between i × (find_from (suc n) i list x ≡ some (pos i)))
        ⊎ (Outside i × (find_from (suc n) i list x ≡ find_from n (i + 1) list x))
  unfolding find_from
  round n i h =
      let (curr, here, entry) = node_at nodes i h in
      let (next, there, after) =
        node_at nodes ((i + 1) % length nodes) (mod-lt (i + 1) (omega arith)) in
      let size : length list ≡ length nodes = length-map nodes some in
      let skip : next_present (length list) list ((i + 1) % length list) ≡ some next =
        rw size (
          next_present-here (length nodes) list ((i + 1) % length nodes) next (omega arith)
            after) in
      elim (Bool-cases (between x curr.id next.id)) [
        | inl inside ↦
            inl
              ((curr, next, here, there, inside), rw (find_from, entry) (rw skip (rw inside refl)))
        | inr outside ↦ inr (
          ap₂ (between x) (ap id_of here) (ap id_of there) ∙ outside,
          rw (find_from, entry) (rw skip (rw outside refl)),
        )
      ]

  scan :
      (n i : ℕ)
      → i + n ≡ length nodes
      → ((k : ℕ) × (find_from n i list x ≡ some (pos k)) × Between k)
        ⊎ ((j : ℕ) → i ≤ j → j < length nodes → Outside j)
  scan zero i e = inr (λ j hi hj. absurd (omega arith))
  scan (suc n) i e = elim (round n i (omega arith)) [
    | inl (inside, found) ↦ inl (i, found, inside)
    | inr (outside, skips) ↦ elim (scan n (i + 1) (omega arith)) [
      | inl (k, found, inside) ↦ inl (k, skips ∙ found, inside)
      | inr none_after ↦ inr (λ j hi hj. elim (split i j hi) [
        | inl same ↦ subst Outside same outside
        | inr later ↦ none_after j later hj
      ])
    ]
  ]
    where
      split : (i j : ℕ) → i ≤ j → (i ≡ j) ⊎ (i + 1 ≤ j)
      split i j h = ground arith

  Ids : Space → Type 0
  Ids sp = All (λ (n : Node). IsId sp n.id) nodes

  id_at-IsId : {sp : Space} (j : ℕ) → Ids sp → j < length nodes → IsId sp (id_at j)
  unfolding Ids
  id_at-IsId {sp} j h lt =
      let (n, here, entry) = node_at nodes j lt in
      subst (IsId sp) (sym (ap id_of here)) (All-at (λ (m : Node). IsId sp m.id) nodes j n h here)

find_next_hop-between :
    {sp : Space} (x : Ident) (nodes : List Node)
    → 0 < length nodes
    → IsId sp x
    → All (λ (n : Node). IsId sp n.id) nodes
    → (k : ℕ) × (curr : Node) × (next : Node) × (find_next_hop (map some nodes) x ≡ some (pos k))
      × (get_elem? nodes k ≡ some curr)
      × (get_elem? nodes ((k + 1) % length nodes) ≡ some next)
      × (between x curr.id next.id ≡ true)
unfolding find_next_hop Ids
find_next_hop-between {sp} x nodes hn hx h = elim (scan x nodes (length nodes) 0 (omega arith)) [
  | inl (k, found, (curr, next, here, there, inside)) ↦
      (k, curr, next, rw (length-map nodes some) found, here, there, inside)
  | inr outside ↦
      descents (λ j. ahead (2 ^ sp.bits) (value x) (value (id_at x nodes j))) (length nodes) hn
        (λ j hj.
          let i = id_at-IsId x nodes j h hj in
          let i' = id_at-IsId x nodes ((j + 1) % length nodes) h (mod-lt (j + 1) hn) in
          ahead-falls (2 ^ sp.bits) (value x) (value (id_at x nodes j))
            (value (id_at x nodes ((j + 1) % length nodes))) hx.below i.below i'.below
            (sym (between-in_arc hx i i') ∙ outside j (omega arith) hj))
]

-- On a list of nodes that is not empty and has no nil entry, with valid identifiers in whatever
-- order, findNextHop of a valid identifier returns an index, and never -1. The node there and the
-- next one of the list, after the last node the first, have one identifier; or walking clockwise from
-- the node one meets x after leaving the node and not after the next one, whose own identifier
-- therefore counts.
pub find_next_hop_covers :
    {sp : Space} (x : Ident) (nodes : List Node)
    → 0 < length nodes
    → IsId sp x
    → All (λ (n : Node). IsId sp n.id) nodes
    → (k : ℕ) × (curr : Node) × (next : Node) × (find_next_hop (map some nodes) x ≡ some (pos k))
      × (get_elem? nodes k ≡ some curr)
      × (get_elem? nodes ((k + 1) % length nodes) ≡ some next)
      × IsOnArc sp x curr.id next.id
find_next_hop_covers x nodes hn hx h =
    let (k, curr, next, found, here, there, inside) = find_next_hop-between x nodes hn hx h in
    (
      k,
      curr,
      next,
      found,
      here,
      there,
      (between_iff hx (All-at (λ (m : Node). IsId _ m.id) nodes k curr h here)
            (All-at (λ (m : Node). IsId _ m.id) nodes ((k + 1) % length nodes) next h there)).0
          inside,
    )
