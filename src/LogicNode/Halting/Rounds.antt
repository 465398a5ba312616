-- ===== src/LogicNode/Halting/Rounds.antt =====
-- internal/node/logicnode/worker.go: the fuel that is enough for fixDeBruijn and resourceRepair.
use koorde_dht.LogicNode.Halting.{halts, settles, halts-settles, IsFueled, grade_le, Answer-cases}
use koorde_dht.LogicNode.Referenced.{IsReferenced}
use koorde_dht.LogicNode.Referenced.Windows.{
  fix_de_bruijn-IsReferenced, resource_repair-IsReferenced,
}
use koorde_dht.Pool.Tally.{AllDialled}
use koorde_dht.Prelude.{
  ℕ, ◌≡◌, refl, sym, ap, ◌∙◌, true, List, [], ◌∷◌, none, some, All, arith, inl, inr, Bool-cases,
  Option-cases,
}
use koorde_dht.Identifier.Space.{Ident}
use koorde_dht.Identifier.Space.Valid.{IsId}
use koorde_dht.Identifier.Order.{between}
use koorde_dht.Identifier.Arith.Mod.{mul_k_mod_lem}
use koorde_dht.Domain.{Node, Resource}
use koorde_dht.RoutingTable.{RoutingTable, Entry, get_predecessor}
use koorde_dht.Storage.{Store, resources_between, all}
use koorde_dht.LogicNode.Lookup.Fuel.{find_successor_init-ends}
use koorde_dht.LogicNode.Local.{LocalNode}
use koorde_dht.LogicNode.Answer.{Answer, finished, panicked, stuck, unfinished}
use koorde_dht.LogicNode.Network.{Network}
use koorde_dht.LogicNode.Window.{
  install_window, window_from, with_anchor, anchor_from, fix_de_bruijn,
}
use koorde_dht.LogicNode.Workers.{repair_at, repair_one, repair_all, resource_repair}

-- The routing table after an operation.
abbrev table_after : {W A : Type 0} → RoutingTable → Answer W A → RoutingTable
table_after rt (finished n w a) = n.rt
table_after rt panicked = rt
table_after rt stuck = rt
table_after rt unfinished = rt

All-resources_between :
    (P : Ident → Type 0) (s : Store) (from to : Ident)
    → All (λ (r : Resource). P r.key) (all s)
    → All (λ (r : Resource). P r.key) (resources_between s from to)
unfolding all resources_between
All-resources_between P [] from to ids = tt
All-resources_between P ((key, res) ∷ s) from to ids =
    let rest = All-resources_between P s from to ids.1 in
    elim (Bool-cases (between res.key from to)) [
      | inl inside ↦ rw inside (ids.0, rest)
      | inr outside ↦ rw outside rest
    ]

module _ {W : Type 0} (net : Network W) (fuel : ℕ) where
  repair_at-halts :
      (n : LocalNode) (w : W) (res : Resource) (owner : Node)
      → halts (repair_at net fuel n w res owner) ≡ true
  unfolding repair_at
  repair_at-halts n w res owner = ground arith

  repair_at-table :
      (n : LocalNode) (w : W) (res : Resource) (owner : Node)
      → table_after n.rt (repair_at net fuel n w res owner) ≡ n.rt
  unfolding repair_at
  repair_at-table n w res owner = ground arith

  repair_one-table :
      (n : LocalNode) (w : W) (res : Resource)
      → table_after n.rt (repair_one net fuel n w res) ≡ n.rt
  unfolding repair_one
  repair_one-table n w res = grind (arith, repair_at-table)

  install_window-halts :
      (n : LocalNode) (w : W) (anchor : Node) (list : List Entry)
      → halts (install_window net fuel n w anchor list) ≡ true
  unfolding install_window
  install_window-halts n w anchor list = ground arith

  window_from-halts :
      (n : LocalNode) (w : W) (anchor : Node) → halts (window_from net fuel n w anchor) ≡ true
  unfolding window_from
  window_from-halts n w anchor = grind (arith, install_window-halts)

  with_anchor-halts :
      (n : LocalNode) (w : W) (anchor : Entry) → halts (with_anchor net fuel n w anchor) ≡ true
  unfolding with_anchor
  with_anchor-halts n w none = refl
  with_anchor-halts n w (some anchor) = window_from-halts n w anchor

  anchor_from-halts :
      (n : LocalNode) (w : W) (succ : Node) → halts (anchor_from net fuel n w succ) ≡ true
  unfolding anchor_from
  anchor_from-halts n w succ = grind (arith, with_anchor-halts)

  module _ {k : ℕ} where
    fix_de_bruijn-halts :
        (n : LocalNode) (w : W) → IsFueled n.rt fuel k → halts (fix_de_bruijn net fuel n w) ≡ true
    unfolding fix_de_bruijn
    fix_de_bruijn-halts n w v =
        let (target, named, valid, number) =
          mul_k_mod_lem v.spaced n.rt.self.id (grade_le v) v.valid in
        let ended =
          find_successor_init-ends net.streams.ctx_err net.step n.rt v.spaced v.narrow v.divided
            fuel target v.enough v.valid valid n.pool (net.with_timeout w) in
        rw (fix_de_bruijn, named) (grind (arith, anchor_from-halts))

    repair_one-halts :
        (n : LocalNode) (w : W) (res : Resource)
        → IsFueled n.rt fuel k
        → IsId n.rt.space res.key
        → halts (repair_one net fuel n w res) ≡ true
    unfolding repair_one
    repair_one-halts n w res v valid =
        let ended =
          find_successor_init-ends net.streams.ctx_err net.step n.rt v.spaced v.narrow v.divided
            fuel res.key v.enough v.valid valid n.pool w in
        grind (arith, repair_at-halts)

    repair_all-halts :
        (resources : List Resource) (n m : LocalNode) (w : W)
        → IsFueled n.rt fuel k
        → All (λ (r : Resource). IsId n.rt.space r.key) resources
        → m.rt ≡ n.rt
        → halts (repair_all net fuel m w resources) ≡ true
    unfolding repair_all
    repair_all-halts [] n m w v ids same = refl
    repair_all-halts (res ∷ resources) n m w v ids same =
        let halted = repair_one-halts m w res (rw same v) (rw same ids.0) in
        elim (Answer-cases (repair_one net fuel m w res)) [
          | inl (l, w', _, ended) ↦
              rw (repair_all, ended)
                (repair_all-halts resources n l w' v ids.1
                  (sym (ap (table_after m.rt) ended) ∙ repair_one-table m w res ∙ same))
          | inr (inl crashed) ↦ rw (repair_all, crashed) refl
          | inr (inr (inl blocked_)) ↦ rw (repair_all, blocked_) refl
          | inr (inr (inr endless)) ↦ cc
        ]

    resource_repair-halts :
        (n : LocalNode) (w : W)
        → IsFueled n.rt fuel k
        → All (λ (r : Resource). IsId n.rt.space r.key) (all n.store)
        → halts (resource_repair net fuel n w) ≡ true
    unfolding resource_repair
    resource_repair-halts n w v ids = elim (Option-cases (get_predecessor n.rt)) [
      | inl unset ↦ rw (resource_repair, unset) refl
      | inr (pred, known) ↦
          rw (resource_repair, known)
            (repair_all-halts _ n n w v
              (All-resources_between (IsId n.rt.space) n.store n.rt.self.id pred.id ids) refl)
    ]

    -- In a space whose digits have k bits, at most 8 and at most Bits, if every address can be
    -- dialled and the pool references every role of another node's address, then a pass of
    -- fixDeBruijn and a pass of resourceRepair of a node with a valid identifier and valid stored keys
    -- return or panic, whatever the network answers: neither of them is stuck on the pool or uses up
    -- 2 * Bits + 1 steps of a lookup at this node.
    pub rounds-settle :
        AllDialled net.dial net.hang_up
        → (n : LocalNode) (w : W) → IsFueled n.rt fuel k
        → All (λ (r : Resource). IsId n.rt.space r.key) (all n.store)
        → IsReferenced n
        → (settles (fix_de_bruijn net fuel n w) ≡ true)
          × (settles (resource_repair net fuel n w) ≡ true)
    rounds-settle dialled n w v ids h = (
      halts-settles IsReferenced _ (fix_de_bruijn-halts n w v)
          (fix_de_bruijn-IsReferenced net fuel dialled n w h),
      halts-settles IsReferenced _ (resource_repair-halts n w v ids)
          (resource_repair-IsReferenced net fuel n w h),
    )
