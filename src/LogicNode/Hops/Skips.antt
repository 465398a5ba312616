-- ===== src/LogicNode/Hops/Skips.antt =====
-- The skipping of nil entries ends.
use koorde_dht.Prelude.{
  ℕ, zero, suc, ◌+◌, ◌-◌, ◌%◌, ◌≤◌, ◌<◌, ◌≡◌, refl, sym, ap, ◌∙◌, List, some, arith, length,
  Option-cases, inl, inr, Bool-cases,
}
use koorde_dht.Prelude.Int.{ℤ, pos}
use koorde_dht.Identifier.Space.{Ident}
use koorde_dht.Identifier.Order.{between}
use koorde_dht.Domain.{Node}
use koorde_dht.RoutingTable.{Entry, entry_at}
use koorde_dht.LogicNode.Hops.{next_present, find_from, find_next_hop}
use native.Mathlib.Nat.{mod-lt, mod-add-mod, add-mod_right, mod-eq_of_lt, add-zero}

-- A node d rounds ahead is met with more than d rounds of fuel.
next_present-some :
    (d fuel : ℕ) (list : List Entry) (j : ℕ) (n : Node)
    → d < fuel
    → j < length list
    → entry_at list ((j + d) % length list) ≡ some n
    → (found : Node) × (next_present fuel list j ≡ some found)
unfolding next_present
next_present-some d zero list j n h lt e = absurd (omega arith)
next_present-some zero (suc fuel) list j n h lt e = (n, rw (next_present, here) refl)
  where
    here : entry_at list j ≡ some n
    here =
        ap (entry_at list) (sym (ap (λ (t : ℕ). t % length list) (add-zero j) ∙ mod-eq_of_lt lt))
        ∙ e
next_present-some (suc d) (suc fuel) list j n h lt e = elim (Option-cases (entry_at list j)) [
  | inl nil ↦
      rw (next_present, nil)
        (next_present-some d fuel list ((j + 1) % length list) n (omega arith)
          (mod-lt (j + 1) (omega arith)) (ap (entry_at list) same ∙ e))
  | inr (m, here) ↦ (m, rw (next_present, here) refl)
]
  where
    same : ((j + 1) % length list + d) % length list ≡ (j + suc d) % length list
    same =
        mod-add-mod (j + 1) (length list) d
        ∙ ap (λ (t : ℕ). t % length list) (let w : j + 1 + d ≡ j + suc d = omega arith in w)

find_from-some :
    (n i : ℕ) (list : List Entry) (x : Ident)
    → i + n ≤ length list
    → (found : ℤ) × (find_from n i list x ≡ some found)
unfolding find_from
find_from-some zero i list x h = (_, refl)
find_from-some (suc n) i list x h =
    let (rest, more) = find_from-some n (i + 1) list x (omega arith) in
    elim (Option-cases (entry_at list i)) [
      | inl nil ↦ (rest, rw (find_from, nil) more)
      | inr (curr, here) ↦
          let (next, ahead) =
            next_present-some (length list - 1) (length list) list ((i + 1) % length list) curr
              (omega arith) (mod-lt (i + 1) (omega arith)) (ap (entry_at list) around ∙ here) in
          rw (find_from, here)
            (rw ahead (elim (Bool-cases (between x curr.id next.id)) [
              | inl inside ↦ (pos i, rw inside refl)
              | inr outside ↦ (rest, rw outside more)
            ]))
    ]
  where
    around : ((i + 1) % length list + (length list - 1)) % length list ≡ i
    around =
        mod-add-mod (i + 1) (length list) (length list - 1)
        ∙ ap (λ (t : ℕ). t % length list)
            (let w : i + 1 + (length list - 1) ≡ i + length list = omega arith in w)
        ∙ add-mod_right i (length list)
        ∙ mod-eq_of_lt (let w : i < length list = omega arith in w)

-- findNextHop returns on every list, also with nil entries: the skipping of nil entries ends within
-- one turn around the list.
pub find_next_hop_ends :
    (list : List Entry) (x : Ident) → (found : ℤ) × (find_next_hop list x ≡ some found)
unfolding find_next_hop
find_next_hop_ends list x = find_from-some (length list) 0 list x (omega arith)
