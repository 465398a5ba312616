-- ===== src/LogicNode/Local/Predecessor.antt =====
-- Notify and HandleLeave: the predecessor changes with the references of its address.
use Prim.Native.String.{String}
use koorde_dht.Prelude.{
  Bool, true, not, ◌&&◌, ◌≡◌, List, [], ◌∷◌, Option, none, some, All, arith, if◌then◌else◌,
}
use koorde_dht.Result.{Error}
use koorde_dht.Identifier.Order.{equal, between}
use koorde_dht.Domain.{Node}
use koorde_dht.RoutingTable.{Entry, get_predecessor, set_predecessor}
use koorde_dht.Storage.{resources_between}
use koorde_dht.Pool.{Pool, release}
use koorde_dht.Pool.Counts.{Ref, gain, lose, IsOpen, IsCall, refs, total, run, run-refs, apply}
use koorde_dht.LogicNode.Local.{LocalNode, logged, release_entry, adopt, notify, handle_leave}

-- The candidate becomes the predecessor: it is not the node itself, and there is no predecessor or it
-- lies between it and the node.
unfoldable pub accepts : LocalNode → Node → Bool
accepts n p =
    not (equal p.id n.rt.self.id)
    && elim (get_predecessor n.rt) [ none ↦ true | some pred ↦ between p.id pred.id n.rt.self.id ]

-- The calls of the pool for a change of predecessor.
abbrev pub changes : Node → Entry → List Ref
changes p none = gain p.addr ∷ []
changes p (some old) = gain p.addr ∷ lose old.addr ∷ []

module _ (dial hang_up : String → Option Error) where
  adopt-run :
      (n : LocalNode) (p : Node) (q : Pool)
      → run dial hang_up n.pool (changes p (get_predecessor n.rt)) ≡ some q
      → adopt dial hang_up n p
        ≡ some (
          record n { rt = set_predecessor n.rt (some p); pool = q },
          resources_between n.store n.rt.self.id p.id,
        )
  unfolding run adopt release_entry apply
  adopt-run n p q e = ground arith

  -- If the pool is in service, p's address is neither empty nor the node's own, and the predecessor's
  -- is not empty, then Notify(p) does not block. It makes p the predecessor exactly if p is not the node itself and there is no predecessor or p
  -- lies between it and the node; then it hands over the stored resources of (self, p], p's address
  -- gains a reference if it can be dialled, and the old predecessor's loses one. Otherwise nothing
  -- changes.
  pub notify_lem :
      (n : LocalNode) (p : Node)
      → IsOpen n.pool
      → All (IsCall n.pool.self_addr) (changes p (get_predecessor n.rt))
      → (q : Pool) × (notify dial hang_up n (some p) ≡ (
          if accepts n p
          then some (
            record n { rt = set_predecessor n.rt (some p); pool = q },
            resources_between n.store n.rt.self.id p.id,
          )
          else some (n, [])))
        × IsOpen q
        × ((a : String)
            → refs q a ≡ total dial hang_up (changes p (get_predecessor n.rt)) a (refs n.pool a))
  unfolding notify accepts
  notify_lem n p h calls =
      let (q, ran, service, counts) =
        run-refs dial hang_up (changes p (get_predecessor n.rt)) n.pool h calls in
      (q, ground (arith, adopt-run n p q ran), service, counts)

  -- If the pool is in service and the leaving node's address is not empty, HandleLeave
  -- of a node that has a predecessor does not block.
  -- It clears the predecessor exactly if the leaving node has its identifier, and then the leaving
  -- node's address loses a reference; otherwise nothing changes.
  pub handle_leave_lem :
      (n : LocalNode) (leaving pred : Node)
      → IsOpen n.pool
      → IsCall n.pool.self_addr (lose leaving.addr)
      → get_predecessor n.rt ≡ some pred
      → (q : Pool) × (handle_leave dial hang_up n (some leaving) ≡ (
          if equal leaving.id pred.id
          then some (record n { rt = set_predecessor n.rt none; pool = q })
          else some n))
        × IsOpen q
        × ((a : String) → refs q a ≡ total dial hang_up (lose leaving.addr ∷ []) a (refs n.pool a))
  unfolding handle_leave
  handle_leave_lem n leaving pred h call known =
      let (q, ran, service, counts) =
        run-refs dial hang_up (lose leaving.addr ∷ []) n.pool h (call, tt) in
      (q, ground (arith, released n leaving q ran), service, counts)
    where
      released :
          (n : LocalNode) (leaving : Node) (q : Pool)
          → run dial hang_up n.pool (lose leaving.addr ∷ []) ≡ some q
          → logged (release dial hang_up n.pool leaving.addr) ≡ some q
      released n leaving q e = unfold run apply in ground arith
