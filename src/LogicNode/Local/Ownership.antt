-- ===== src/LogicNode/Local/Ownership.antt =====
-- StoreLocal stores the resources that the node owns.
use koorde_dht.Prelude.{
  Bool, true, false, ◌&&◌, ◌≡◌, ◌↔◌, ◌⊎◌, inl, inr, sym, ◌∙◌, refl, Option, Option-cases, none,
  some, All, arith, if◌then◌else◌,
}
use koorde_dht.Result.{Error}
use koorde_dht.Identifier.Space.{Ident, IsByte}
use koorde_dht.Identifier.Order.{equal}
use koorde_dht.Identifier.Space.Valid.{IsId}
use koorde_dht.Identifier.Order.Circle.{IsOnArc, between_iff}
use koorde_dht.Domain.{Node, Resource}
use koorde_dht.RoutingTable.{RoutingTable, get_predecessor}
use koorde_dht.Storage.Map.{view, put-view}
use koorde_dht.LogicNode.Context.{check_context}
use koorde_dht.LogicNode.Local.{LocalNode, store_local, is_responsible}

abbrev pub succeeds : Option Error → Bool
succeeds none = true
succeeds (some e) = false

check_context-none : (e : Option Error) → (check_context e ≡ none) ↔ (e ≡ none)
unfolding check_context
check_context-none none = ((λ p. refl), (λ p. refl))
check_context-none (some e) = ((λ p. ground arith), (λ p. ground arith))

-- StoreLocal by its own test of the key.
store_local-test :
    (ctx_err : Option Error) (n : LocalNode) (r : Resource) (id : Ident)
    → All IsByte r.key
    → All IsByte id
    → (((store_local ctx_err n r).1 ≡ none)
        ↔ ((ctx_err ≡ none) × (is_responsible n.rt r.key ≡ true)))
      × (view (store_local ctx_err n r).0.store id ≡ (
          if succeeds (store_local ctx_err n r).1 && equal r.key id
          then some r
          else view n.store id))
      × ((store_local ctx_err n r).0.rt ≡ n.rt)
      × ((store_local ctx_err n r).0.pool ≡ n.pool)
unfolding store_local
store_local-test ctx_err n r id hr hid =
    ground (arith, check_context-none ctx_err, (put-view n.store r id hr hid).0)

-- The node has no predecessor, or the key lies in (predecessor, self].
abbrev pub Owns : RoutingTable → Ident → Type 0
Owns rt key =
    (rt.predecessor ≡ none)
    ⊎ ((p : Node) × (rt.predecessor ≡ some p) × IsOnArc rt.space key p.id rt.self.id)

-- The node and its predecessor, if it has one, have valid identifiers.
pub record IsPlaced (rt : RoutingTable) : Type 0 where
  pub own : IsId rt.space rt.self.id
  pub before : (p : Node) → rt.predecessor ≡ some p → IsId rt.space p.id

is_responsible_iff :
    (rt : RoutingTable) (key : Ident)
    → IsPlaced rt
    → IsId rt.space key
    → (is_responsible rt key ≡ true) ↔ Owns rt key
unfolding is_responsible get_predecessor
is_responsible_iff rt key placed valid = elim (Option-cases rt.predecessor) [
  | inl unset ↦ ((λ _. inl unset), (λ _. rw (is_responsible, unset) refl))
  | inr (p, known) ↦
      let arc = between_iff valid (placed.before p known) placed.own in
      (
        (λ e. inr (p, known, arc.0 (sym (rw (is_responsible, known) refl) ∙ e))),
        (λ owns. elim owns [
          | inl unset ↦ rw (is_responsible, unset) refl
          | inr (q, same, inside) ↦
              rw (is_responsible, same)
                ((between_iff valid (placed.before q same) placed.own).1 inside)
        ]),
      )
]

-- For a node and a predecessor with valid identifiers and a valid key, StoreLocal returns no error
-- exactly if the request's context is alive and the node has no predecessor, or its predecessor has
-- its own identifier, or walking clockwise from the predecessor one meets the key after leaving the
-- predecessor and not after the node. Then it binds the resource to its key; otherwise no binding of
-- the store changes. The routing table and the pool stay as they were.
pub store_local_lem :
    (ctx_err : Option Error) (n : LocalNode) (r : Resource) (id : Ident)
    → IsPlaced n.rt
    → IsId n.rt.space r.key
    → All IsByte id
    → (((store_local ctx_err n r).1 ≡ none) ↔ ((ctx_err ≡ none) × Owns n.rt r.key))
      × (view (store_local ctx_err n r).0.store id ≡ (
          if succeeds (store_local ctx_err n r).1 && equal r.key id
          then some r
          else view n.store id))
      × ((store_local ctx_err n r).0.rt ≡ n.rt)
      × ((store_local ctx_err n r).0.pool ≡ n.pool)
store_local_lem ctx_err n r id placed valid hid =
    let (stores, bound, table, pool) = store_local-test ctx_err n r id valid.bytes hid in
    let owns = is_responsible_iff n.rt r.key placed valid in
    (
      (
        (λ e. let (alive, mine) = stores.0 e in (alive, owns.0 mine)),
        (λ e. stores.1 (e.0, owns.1 e.1)),
      ),
      bound,
      table,
      pool,
    )
