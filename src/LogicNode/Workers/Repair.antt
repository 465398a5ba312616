-- ===== src/LogicNode/Workers/Repair.antt =====
-- resourceRepair and transferResourcesAsync keep what the node is not to hand over.
use koorde_dht.Prelude.{
  ℕ, ◌≡◌, refl, ap, ◌∙◌, false, List, [], ◌∷◌, none, some, All, arith, inl, inr, Bool-cases,
  Option-cases, if◌then◌else◌,
}
use koorde_dht.Result.{ok, err, panic}
use koorde_dht.Identifier.Space.{Ident, IsByte}
use koorde_dht.Identifier.Order.{equal, between}
use koorde_dht.Identifier.Order.Circle.{equal_iff}
use koorde_dht.Domain.{Node, Resource}
use koorde_dht.RoutingTable.{get_predecessor}
use koorde_dht.Storage.{Store, delete, resources_between}
use koorde_dht.Storage.Map.{view, delete-view}
use koorde_dht.Pool.{returns}
use koorde_dht.Pool.Counts.{IsOpen}
use koorde_dht.LogicNode.Lookup.Pools.{LeavesPool-cases, find_successor_init-LeavesPool}
use koorde_dht.LogicNode.Local.{LocalNode}
use koorde_dht.LogicNode.Local.Transfer.{has_key, Keys}
use koorde_dht.LogicNode.Remote.{store_remote}
use koorde_dht.LogicNode.Answer.{finished}
use koorde_dht.LogicNode.Network.{Network}
use koorde_dht.LogicNode.Requests.{connect}
use koorde_dht.LogicNode.Workers.{repair_at, repair_one, repair_all, resource_repair}
use koorde_dht.LogicNode.Referenced.{Ends, Ends-cases}
use koorde_dht.LogicNode.Referenced.Windows.{connect-cases}

-- A node whose pool is in service and that holds the same as n under an identifier.
pub record IsKept (n : LocalNode) (id : Ident) (m : LocalNode) : Type 0 where
  pub in_service : IsOpen m.pool
  pub held : view m.store id ≡ view n.store id

IsKept-refl : (n : LocalNode) (id : Ident) → IsOpen n.pool → IsKept n id n
IsKept-refl n id h = record { in_service = h; held = refl }

-- The resources of an arc have no key outside it.
has_key-resources_between :
    (s : Store) (from to id : Ident)
    → between id from to ≡ false
    → has_key id (resources_between s from to) ≡ false
unfolding has_key resources_between
has_key-resources_between [] from to id e = refl
has_key-resources_between ((k, res) ∷ s) from to id e =
    let rest = has_key-resources_between s from to id e in
    elim (Bool-cases (equal res.key id)) [
      | inl same ↦
          let out : between res.key from to ≡ false =
            ap (λ (x : Ident). between x from to) ((equal_iff res.key id).0 same) ∙ e in
          rw out rest
      | inr other ↦ elim (Bool-cases (between res.key from to)) [
        | inl inside ↦ rw inside (rw other rest)
        | inr out ↦ rw out rest
      ]
    ]

module _ {W : Type 0} (net : Network W) (fuel : ℕ) where
  -- With the connection to the owner in place, repair deletes the resource exactly if StoreRemote
  -- returns no error, whether or not it lists the resource as failed.
  pub repair_at_lem :
      (n : LocalNode) (w : W) (res : Resource) (owner : Node) (id : Ident)
      → All IsByte res.key
      → All IsByte id
      → equal owner.id n.rt.self.id ≡ false
      → connect net.streams net.step net.dial net.hang_up fuel n.pool owner.addr
        ≡ returns none n.pool
      → (m : LocalNode) × (repair_at net fuel n w res owner
          ≡ finished m (store_remote net.streams w owner.addr (res ∷ [])).0 tt)
        × (view m.store id ≡ (
            if equal res.key id
            then elim (store_remote net.streams w owner.addr (res ∷ [])).2 [
              | none ↦ none
              | some e ↦ view n.store id
            ]
            else view n.store id))
  unfolding repair_at
  repair_at_lem n w res owner id hr hid other got =
      elim (Option-cases (store_remote net.streams w owner.addr (res ∷ [])).2) [
        | inl stored ↦ (
          record n { store = (delete n.store res.key).0 },
          rw (repair_at, other) (rw got (rw stored refl)),
          rw stored (delete-view n.store res.key id hr hid).0,
        )
        | inr (e, refused) ↦
            (n, rw (repair_at, other) (rw got (rw refused refl)), rw refused (ground arith))
      ]

  repair_at-IsKept :
      (n : LocalNode) (w : W) (res : Resource) (owner : Node) (id : Ident)
      → All IsByte res.key
      → All IsByte id
      → equal res.key id ≡ false
      → IsOpen n.pool
      → Ends (IsKept n id) (repair_at net fuel n w res owner)
  unfolding repair_at Ends
  repair_at-IsKept n w res owner id hr hid apart h =
      elim (Bool-cases (equal owner.id n.rt.self.id)) [
        | inl own ↦ rw (repair_at, own) (IsKept-refl n id h)
        | inr other ↦ elim (connect-cases net fuel n.pool owner.addr h) [
          | inr (e, failed) ↦ rw (repair_at, other) (rw failed (IsKept-refl n id h))
          | inl got ↦ elim (Option-cases (store_remote net.streams w owner.addr (res ∷ [])).2) [
            | inr (e, refused) ↦ rw (repair_at, other) (rw got (rw refused (IsKept-refl n id h)))
            | inl stored ↦
                rw (repair_at, other)
                  (rw got (
                    rw stored (record {
                      in_service = h;
                      held = (delete-view n.store res.key id hr hid).0 ∙ rw apart refl;
                    })))
          ]
        ]
      ]

  repair_one-IsKept :
      (n : LocalNode) (w : W) (res : Resource) (id : Ident)
      → All IsByte res.key
      → All IsByte id
      → equal res.key id ≡ false
      → IsOpen n.pool
      → Ends (IsKept n id) (repair_one net fuel n w res)
  unfolding repair_one Ends
  repair_one-IsKept n w res id hr hid apart h =
      elim (LeavesPool-cases n.pool _ (
        find_successor_init-LeavesPool net.streams.ctx_err net.step n.rt n.pool h fuel res.key w)) [
          | inr endless ↦ rw (repair_one, endless) tt
          | inl (panic, v, looked) ↦ rw (repair_one, looked) tt
          | inl (err e, v, looked) ↦ rw (repair_one, looked) (IsKept-refl n id h)
          | inl (ok none, v, looked) ↦ rw (repair_one, looked) (IsKept-refl n id h)
          | inl (ok (some owner), v, looked) ↦
              rw (repair_one, looked) (repair_at-IsKept n v res owner id hr hid apart h)
        ]

  repair_all-IsKept :
      (resources : List Resource) (n m : LocalNode) (w : W) (id : Ident)
      → Keys resources
      → All IsByte id
      → has_key id resources ≡ false
      → IsKept n id m
      → Ends (IsKept n id) (repair_all net fuel m w resources)
  unfolding repair_all Ends has_key
  repair_all-IsKept [] n m w id hs hid apart h = h
  repair_all-IsKept (res ∷ resources) n m w id hs hid apart h =
      elim (Ends-cases (IsKept m id) (repair_one net fuel m w res)
        (repair_one-IsKept m w res id hs.0 hid (ground arith) h.in_service)) [
          | inl (l, v, _, ended, k) ↦
              rw (repair_all, ended)
                (repair_all-IsKept resources n l v id hs.1 hid (ground arith)
                  (record { in_service = k.in_service; held = k.held ∙ h.held }))
          | inr (inl crashed) ↦ rw (repair_all, crashed) tt
          | inr (inr endless) ↦ rw (repair_all, endless) tt
        ]

  -- A pass of resourceRepair of a node with a predecessor is not stuck on a pool in service; and if it
  -- finishes, then the node holds what it held under every identifier outside (self, predecessor],
  -- whatever the network answers. If the predecessor has the node's own identifier, then no identifier
  -- is outside. The keys and the identifier are made of bytes.
  pub resource_repair-IsKept :
      (n : LocalNode) (w : W) (pred : Node) (id : Ident)
      → IsOpen n.pool
      → get_predecessor n.rt ≡ some pred
      → Keys (resources_between n.store n.rt.self.id pred.id)
      → All IsByte id
      → between id n.rt.self.id pred.id ≡ false
      → Ends (IsKept n id) (resource_repair net fuel n w)
  unfolding resource_repair
  resource_repair-IsKept n w pred id h known hs hid outside =
      rw (resource_repair, known)
        (repair_all-IsKept _ n n w id hs hid
          (has_key-resources_between n.store n.rt.self.id pred.id id outside) (IsKept-refl n id h))
