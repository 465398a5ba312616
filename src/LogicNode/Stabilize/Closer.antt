-- ===== src/LogicNode/Stabilize/Closer.antt =====
-- The test of stabilizeSuccessor on the node that the successor reports.
use koorde_dht.Prelude.{◌↔◌, ◌≢◌, sym, ◌≡◌, refl, ◌∙◌, true, false, arith, inl, inr, Bool-cases}
use koorde_dht.Identifier.Order.{equal}
use koorde_dht.Identifier.Space.Valid.{IsId}
use koorde_dht.Domain.{Node}
use koorde_dht.LogicNode.Local.{LocalNode}
use koorde_dht.Identifier.Order.Circle.{equal_iff, IsOnArc, between_iff}
use koorde_dht.LogicNode.Network.{Network}
use koorde_dht.LogicNode.Stabilize.{is_closer}

pub no_confusion : ¬ (true ≡ false)
no_confusion e = ground arith

-- pred is not the node itself and lies in (self, succ].
abbrev pub IsCloser : LocalNode → Node → Node → Type 0
IsCloser n pred succ = IsOnArc n.rt.space pred.id n.rt.self.id succ.id × (pred.id ≢ n.rt.self.id)

pub is_closer_iff :
    {W : Type 0} (net : Network W) (n : LocalNode) (pred succ : Node)
    → IsId n.rt.space n.rt.self.id
    → IsId n.rt.space succ.id
    → IsId n.rt.space pred.id
    → (is_closer net n pred succ ≡ true) ↔ IsCloser n pred succ
unfolding is_closer
is_closer_iff net n pred succ own next back =
    let arc = between_iff back own next in
    let same = equal_iff pred.id n.rt.self.id in
    (
      (λ e. (arc.0 (ground arith), (λ q. no_confusion (sym (same.1 q) ∙ ground arith)))),
      (λ c. elim (Bool-cases (equal pred.id n.rt.self.id)) [
        | inl own_id ↦ absurd (c.1 (same.0 own_id))
        | inr other ↦ rw (arc.1 c.0) (rw other refl)
      ]),
    )
