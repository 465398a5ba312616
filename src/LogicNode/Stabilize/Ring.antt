-- ===== src/LogicNode/Stabilize/Ring.antt =====
-- A round of stabilizeSuccessor moves the successor closer, and closes a ring of two.
use koorde_dht.Prelude.{
  ◌⊎◌, sym, ◌∷◌, drop, ◌<◌, ◌≡◌, refl, ◌∙◌, true, false, List, none, some, arith, inl, inr,
  Bool-cases, if◌then◌else◌, get_elem?-set_self, leb,
}
use koorde_dht.Prelude.Int.{pos}
use koorde_dht.Result.{ok}
use koorde_dht.Identifier.Order.{equal, between}
use koorde_dht.Identifier.Space.Valid.{IsId}
use koorde_dht.Domain.{Node, Resource}
use koorde_dht.RoutingTable.{
  RoutingTable, Entry, get_predecessor, first_successor, get_successor, set_successor,
  set_predecessor,
}
use koorde_dht.RoutingTable.Shape.{IsTable, set_successor-first}
use koorde_dht.Storage.{resources_between}
use koorde_dht.Pool.{Pool, returns, get_from_pool}
use koorde_dht.Pool.Counts.{IsOpen}
use koorde_dht.Pool.Tally.{AllDialled, add_ref-Leaves, release-Leaves, get_from_pool-cases}
use koorde_dht.LogicNode.Local.{LocalNode, notify}
use koorde_dht.LogicNode.Calls.{predecessor_of, notify_peer}
use koorde_dht.LogicNode.Referenced.Requests.{IsTable-predecessor, adopt-Leaves}
use koorde_dht.Identifier.Order.Circle.{equal_iff}
use koorde_dht.LogicNode.Answer.{finished}
use koorde_dht.LogicNode.Network.{Network}
use koorde_dht.LogicNode.Requests.Single.{between-whole}
use koorde_dht.LogicNode.Stabilize.{
  notify_successor, is_closer, adopt_closer, with_predecessor, stabilize_successor,
}
use koorde_dht.LogicNode.Stabilize.Closer.{IsCloser, is_closer_iff, no_confusion}

first_successor-set :
    (rt : RoutingTable) (n : Node)
    → IsTable rt
    → 0 < rt.space.succ_list_size
    → first_successor (set_successor rt (pos 0) (some n)) ≡ some n
unfolding first_successor get_successor set_successor
first_successor-set rt n h lt = ground (
  arith,
  h.successors_length,
  get_elem?-set_self rt.successors 0 (some n) (omega (arith, h.successors_length)),
)

set_successor-predecessor :
    (rt : RoutingTable) (e : Entry)
    → get_predecessor (set_successor rt (pos 0) e) ≡ get_predecessor rt
unfolding get_predecessor set_successor
set_successor-predecessor rt e = elim (Bool-cases (leb rt.space.succ_list_size 0)) [
  | inl out ↦ rw out refl
  | inr fits ↦ rw fits refl
]

module _ {W : Type 0} (net : Network W) where
  -- The successor reports pred: the node's own predecessor if it is its own successor, or else the
  -- answer to GetPredecessor over a pooled connection.
  unfoldable pub Reports : LocalNode → W → Node → Node → Type 0
  Reports n w succ pred =
      ((equal succ.id n.rt.self.id ≡ true) × (get_predecessor n.rt ≡ some pred))
      ⊎ ((equal succ.id n.rt.self.id ≡ false)
          × (get_from_pool n.pool succ.addr ≡ returns none n.pool)
          × ((predecessor_of net.streams.ctx_err net.peers n.rt.space (net.with_timeout w)
                succ.addr).1
              ≡ ok (some pred)))

  notify_successor-same :
      (n : LocalNode) (w : W) (succ : Node)
      → IsOpen n.pool
      → (v : W) × (notify_successor net n w succ ≡ finished n v tt)
  unfolding notify_successor
  notify_successor-same n w succ h = elim (Bool-cases (equal succ.id n.rt.self.id)) [
    | inl own ↦ (w, rw (notify_successor, own) refl)
    | inr other ↦ elim (get_from_pool-cases n.pool succ.addr h) [
      | inl got ↦ (
        (notify_peer net.streams.ctx_err net.peers n.rt.space (net.with_timeout w) succ.addr
            n.rt.self).0,
        rw (notify_successor, other) (rw got refl),
      )
      | inr (e, missing) ↦ (w, rw (notify_successor, other) (rw missing refl))
    ]
  ]

  -- The table after a round in which the successor reports pred.
  abbrev pub moved : LocalNode → Node → Node → RoutingTable
  moved n pred succ =
      if is_closer net n pred succ then set_successor n.rt (pos 0) (some pred) else n.rt

  module _ (dialled : AllDialled net.dial net.hang_up) where
    adopt_closer_lem :
        (n : LocalNode) (w : W) (pred succ : Node)
        → IsOpen n.pool
        → (q : Pool) × (v : W) × (adopt_closer net n w pred succ
            ≡ finished (record n { rt = moved n pred succ; pool = q }) v tt)
          × IsOpen q
    unfolding adopt_closer
    adopt_closer_lem n w pred succ h = elim (Bool-cases (is_closer net n pred succ)) [
      | inr farther ↦
          let (v, told) = notify_successor-same n w succ h in
          (n.pool, v, rw (adopt_closer, farther) told, h)
      | inl closer ↦
          let (e, p, added, l) = add_ref-Leaves net.dial net.hang_up dialled n.pool pred.addr h in
          let (e', q, released, l') =
            release-Leaves net.dial net.hang_up p succ.addr l.in_service in
          let (v, told) =
            notify_successor-same
              (record n { rt = set_successor n.rt (pos 0) (some pred); pool = q }) w pred
              l'.in_service in
          (q, v, rw (adopt_closer, closer) (rw added (rw released told)), l'.in_service)
    ]

    stabilize_successor-moved :
        (n : LocalNode) (w : W) (succ pred : Node)
        → IsOpen n.pool
        → first_successor n.rt ≡ some succ
        → Reports n w succ pred
        → (q : Pool) × (v : W) × (stabilize_successor net n w
            ≡ finished (record n { rt = moved n pred succ; pool = q }) v tt)
          × IsOpen q
    unfolding stabilize_successor with_predecessor Reports
    stabilize_successor-moved n w succ pred h first (inl (own, known)) =
        let (q, v, ran, service) = adopt_closer_lem n w pred succ h in
        (q, v, rw (stabilize_successor, first) (rw own (rw known ran)), service)
    stabilize_successor-moved n w succ pred h first (inr (other, got, said)) =
        let (q, v, ran, service) =
          adopt_closer_lem n
            (predecessor_of net.streams.ctx_err net.peers n.rt.space (net.with_timeout w)
              succ.addr).0
            pred succ h in
        (q, v, rw (stabilize_successor, first) (rw other (rw got (rw said ran))), service)

    -- If the pool is in service, every address can be dialled, the successor reports its predecessor
    -- and the three nodes have valid identifiers, then stabilizeSuccessor finishes: the reported node
    -- takes the place of the first successor exactly if it is not the node itself and lies in (self,
    -- successor], that is, successor and node have one identifier, or walking clockwise from the node
    -- one meets the reported node not after the successor. Otherwise the table stays as it was;
    -- nothing else in it changes, and nothing stored.
    pub stabilize_successor_lem :
        (n : LocalNode) (w : W) (succ pred : Node)
        → IsOpen n.pool
        → first_successor n.rt ≡ some succ
        → Reports n w succ pred
        → IsId n.rt.space n.rt.self.id
        → IsId n.rt.space succ.id
        → IsId n.rt.space pred.id
        → (m : LocalNode) × (v : W) × (stabilize_successor net n w ≡ finished m v tt)
          × (m.store ≡ n.store)
          × IsOpen m.pool
          × ((IsCloser n pred succ
                × (m.rt ≡ record n.rt { successors = some pred ∷ drop 1 n.rt.successors }))
              ⊎ (¬ IsCloser n pred succ × (m.rt ≡ n.rt)))
    stabilize_successor_lem n w succ pred h first reports own next back =
        let (q, v, ran, service) = stabilize_successor-moved n w succ pred h first reports in
        let closer = is_closer_iff net n pred succ own next back in
        (
          record n { rt = moved n pred succ; pool = q },
          v,
          ran,
          refl,
          service,
          (elim (Bool-cases (is_closer net n pred succ)) [
            | inl yes_closer ↦ inl (
              closer.0 yes_closer,
              rw yes_closer (set_successor-first n.rt succ (some pred) first),
            )
            | inr no_closer ↦
                inr ((λ c. no_confusion (sym (closer.1 c) ∙ no_closer)), rw no_closer refl)
          ]),
        )

    -- Let a node be its own successor and predecessor, as after CreateNewDHT, with its pool in service
    -- and every address dialled. After Notify of another node and one round of stabilizeSuccessor, that node is its
    -- predecessor and its first successor.
    pub notify-stabilize_successor :
        (n : LocalNode) (w : W) (p : Node)
        → IsOpen n.pool
        → IsTable n.rt
        → 0 < n.rt.space.succ_list_size
        → first_successor n.rt ≡ some n.rt.self
        → get_predecessor n.rt ≡ some n.rt.self
        → equal p.id n.rt.self.id ≡ false
        → (m m' : LocalNode) × (resources : List Resource) × (v : W) × (notify net.dial net.hang_up
              n
              (some p)
            ≡ some (m, resources))
          × (stabilize_successor net m w ≡ finished m' v tt)
          × (get_predecessor m'.rt ≡ some p)
          × (first_successor m'.rt ≡ some p)
    unfolding notify
    notify-stabilize_successor n w p h shape lt first known other =
        let whole : between p.id n.rt.self.id n.rt.self.id ≡ true =
          between-whole p.id n.rt.self.id in
        let (q, adopted, l) = adopt-Leaves net.dial net.hang_up dialled n p h in
        let m = record n { rt = set_predecessor n.rt (some p); pool = q } in
        let own = (equal_iff n.rt.self.id n.rt.self.id).1 refl in
        let (q', v, ran, service) =
          stabilize_successor-moved m w n.rt.self p l.in_service
            (unfold set_predecessor first_successor get_successor in
              unfold first_successor get_successor in first)
            (unfold Reports set_predecessor get_predecessor in inl (own, refl)) in
        let closer : is_closer net m p n.rt.self ≡ true =
          unfold is_closer set_predecessor in rw (whole, other) refl in
        (
          m,
          record m { rt = moved m p n.rt.self; pool = q' },
          resources_between n.store n.rt.self.id p.id,
          v,
          rw (notify, other) (rw known (rw whole adopted)),
          ran,
          rw closer (
              set_successor-predecessor (set_predecessor n.rt (some p)) (some p)
              ∙ unfold get_predecessor set_predecessor in refl),
          rw closer (
              first_successor-set (set_predecessor n.rt (some p)) p
                (IsTable-predecessor (some p) shape) (unfold set_predecessor in lt)),
        )
