-- ===== src/LogicNode/Referenced/Windows.antt =====
-- fixDeBruijn and resourceRepair keep every role referenced.
use Prim.Native.String.{String}
use koorde_dht.Prelude.{
  ℕ, zero, suc, ◌+◌, ◌-◌, ◌≡◌, ◌⊎◌, refl, sym, ap, ◌∙◌, not, ◌&&◌, List, [], ◌∷◌, none, some, arith,
  inl, inr, Bool-cases, Option-cases, length, length-replicate, present, zero_or_suc,
}
use koorde_dht.Result.{Error, ok, err, panic, Result-cases}
use koorde_dht.Identifier.Order.{equal}
use koorde_dht.Identifier.Arith.{mul_k_mod}
use koorde_dht.Domain.{Node, Resource}
use koorde_dht.RoutingTable.{
  Entry, get_predecessor, successor_list, de_bruijn_list, set_de_bruijn_list,
}
use koorde_dht.RoutingTable.Window.{set_de_bruijn_list_lem, padded_full}
use koorde_dht.Storage.{Store}
use koorde_dht.Pool.{Pool, returns}
use koorde_dht.Pool.Counts.{IsOpen}
use koorde_dht.Pool.Tally.{ind, Leaves, AllDialled, get_from_pool-cases, dial_ephemeral-cases}
use koorde_dht.LogicNode.Lookup.Pools.{LeavesPool-cases, find_successor_init-LeavesPool}
use koorde_dht.LogicNode.Local.{LocalNode}
use koorde_dht.LogicNode.Remote.{store_remote}
use koorde_dht.LogicNode.Calls.{predecessor_of, successors_of}
use koorde_dht.LogicNode.Network.{Network}
use koorde_dht.LogicNode.Requests.{connect}
use koorde_dht.LogicNode.References.Swap.{named, swap_references_lem}
use koorde_dht.LogicNode.Window.{
  fill_window, install_window, window_from, with_anchor, anchor_from, fix_de_bruijn,
}
use koorde_dht.LogicNode.Workers.{
  transfer_resources, repair_at, repair_one, repair_all, resource_repair,
}
use koorde_dht.LogicNode.Referenced.{
  is_addr, need, IsReferenced, IsReferenced-change, Ends, Ends-cases,
}
use koorde_dht.LogicNode.Referenced.Rounds.{role_change}

length-fill_window : (m : ℕ) (list : List Entry) → length (fill_window m list) ≡ m
unfolding fill_window
length-fill_window zero list = refl
length-fill_window (suc m) [] = length-replicate {A = Entry} (suc m) none
length-fill_window (suc m) (e ∷ list) = ap suc (length-fill_window m list)

-- The node with a new window, of the right size.
window-IsReferenced :
    {n : LocalNode} (list : List Entry) {q : Pool}
    → length list ≡ n.rt.space.graph_grade
    → IsReferenced n
    → Leaves n.pool q (λ a r.
      r
      + ind (named a (present list) && not (named a (de_bruijn_list n.rt)))
      - ind (named a (de_bruijn_list n.rt) && not (named a (present list))))
    → IsReferenced (record n { rt = set_de_bruijn_list n.rt list; pool = q })
unfolding need get_predecessor successor_list de_bruijn_list
window-IsReferenced {n = n} list {q = q} size h l =
    let e : set_de_bruijn_list n.rt list ≡ record n.rt { de_bruijn = list } =
      set_de_bruijn_list_lem n.rt list h.table
      ∙ ap (λ (s : List Entry). record n.rt { de_bruijn = s }) (padded_full _ list size) in
    rw e (
      IsReferenced-change h
        (record { successors_length = h.table.successors_length; de_bruijn_length = size }) l
        (λ a other r le.
          let k =
            role_change (named a (present n.rt.de_bruijn)) (named a (present list))
              (ind (named a (present n.rt.successors)) + ind (is_addr a n.rt.predecessor)) r
              (omega (arith, le)) in
          omega (arith, k)))

-- The node with another store.
pub stored-IsReferenced :
    {n : LocalNode} (s : Store) → IsReferenced n → IsReferenced (record n { store = s })
stored-IsReferenced s h = record { table = h.table; in_service = h.in_service; covered = h.covered }

module _ {W : Type 0} (net : Network W) (fuel : ℕ) where
  pub connect-cases :
      (p : Pool) (b : String)
      → IsOpen p
      → (connect net.streams net.step net.dial net.hang_up fuel p b ≡ returns none p)
        ⊎ ((e : Error) × (connect net.streams net.step net.dial net.hang_up fuel p b
              ≡ returns (some e) p))
  unfolding connect
  connect-cases p b h = elim (get_from_pool-cases p b h) [
    | inl got ↦ inl (rw (connect, got) refl)
    | inr (e, missing) ↦ elim (dial_ephemeral-cases net.dial net.hang_up p b h) [
      | inl dialled ↦ inl (rw (connect, missing) dialled)
      | inr (e', failed) ↦ inr (e', rw (connect, missing) failed)
    ]
  ]

  module _ (dialled : AllDialled net.dial net.hang_up) where
    install_window-IsReferenced :
        (n : LocalNode) (w : W) (anchor : Node) (list : List Entry)
        → IsReferenced n
        → Ends IsReferenced (install_window net fuel n w anchor list)
    unfolding install_window Ends
    install_window-IsReferenced n w anchor list h = elim (zero_or_suc n.rt.space.graph_grade) [
      | inl none_left ↦ rw (install_window, none_left) tt
      | inr (m, size) ↦
          let window = some anchor ∷ fill_window m list in
          let (q, swapped, l) =
            swap_references_lem net.dial net.hang_up dialled (de_bruijn_list n.rt) (present window)
              n.pool h.in_service in
          rw (install_window, size)
            (rw swapped
              (window-IsReferenced window (ap suc (length-fill_window m list) ∙ sym size) h l))
    ]

    window_from-IsReferenced :
        (n : LocalNode) (w : W) (anchor : Node)
        → IsReferenced n
        → Ends IsReferenced (window_from net fuel n w anchor)
    unfolding window_from Ends
    window_from-IsReferenced n w anchor h = elim (Bool-cases (equal anchor.id n.rt.self.id)) [
      | inl own ↦ rw (window_from, own) (install_window-IsReferenced n w anchor _ h)
      | inr other ↦ elim (connect-cases n.pool anchor.addr h.in_service) [
        | inr (e, failed) ↦ rw (window_from, other) (rw failed h)
        | inl got ↦
            elim (Result-cases
              (successors_of net.streams.ctx_err net.peers n.rt.space (net.with_timeout w)
                anchor.addr).1) [
                  | inl (list, said) ↦
                      rw (window_from, other)
                        (rw got (rw said (install_window-IsReferenced n _ anchor list h)))
                  | inr (inl (e, failed)) ↦ rw (window_from, other) (rw got (rw failed h))
                  | inr (inr crashed) ↦ rw (window_from, other) (rw got (rw crashed tt))
                ]
      ]
    ]

    with_anchor-IsReferenced :
        (n : LocalNode) (w : W) (e : Entry)
        → IsReferenced n
        → Ends IsReferenced (with_anchor net fuel n w e)
    unfolding with_anchor Ends
    with_anchor-IsReferenced n w none h = h
    with_anchor-IsReferenced n w (some anchor) h = window_from-IsReferenced n w anchor h

    anchor_from-IsReferenced :
        (n : LocalNode) (w : W) (succ : Node)
        → IsReferenced n
        → Ends IsReferenced (anchor_from net fuel n w succ)
    unfolding anchor_from Ends
    anchor_from-IsReferenced n w succ h = elim (Bool-cases (equal succ.id n.rt.self.id)) [
      | inl own ↦ rw (anchor_from, own) (with_anchor-IsReferenced n w _ h)
      | inr other ↦ elim (connect-cases n.pool succ.addr h.in_service) [
        | inr (e, failed) ↦ rw (anchor_from, other) (rw failed h)
        | inl got ↦
            elim (Result-cases
              (predecessor_of net.streams.ctx_err net.peers n.rt.space (net.with_timeout w)
                succ.addr).1) [
                  | inl (anchor, said) ↦
                      rw (anchor_from, other)
                        (rw got (rw said (with_anchor-IsReferenced n _ anchor h)))
                  | inr (inl (e, failed)) ↦ rw (anchor_from, other) (rw got (rw failed h))
                  | inr (inr crashed) ↦ rw (anchor_from, other) (rw got (rw crashed tt))
                ]
      ]
    ]

    pub fix_de_bruijn-IsReferenced :
        (n : LocalNode) (w : W) → IsReferenced n → Ends IsReferenced (fix_de_bruijn net fuel n w)
    unfolding fix_de_bruijn Ends
    fix_de_bruijn-IsReferenced n w h = elim (Result-cases (mul_k_mod n.rt.space n.rt.self.id)) [
      | inr (inl (e, failed)) ↦ rw (fix_de_bruijn, failed) h
      | inr (inr crashed) ↦ rw (fix_de_bruijn, crashed) tt
      | inl (target, product) ↦
          elim (LeavesPool-cases n.pool _ (
            find_successor_init-LeavesPool net.streams.ctx_err net.step n.rt n.pool h.in_service
              fuel target (net.with_timeout w))) [
                | inr endless ↦ rw (fix_de_bruijn, product) (rw endless tt)
                | inl (panic, v, looked) ↦ rw (fix_de_bruijn, product) (rw looked tt)
                | inl (err e, v, looked) ↦ rw (fix_de_bruijn, product) (rw looked h)
                | inl (ok none, v, looked) ↦ rw (fix_de_bruijn, product) (rw looked h)
                | inl (ok (some succ), v, looked) ↦
                    rw (fix_de_bruijn, product) (rw looked (anchor_from-IsReferenced n v succ h))
              ]
    ]

  repair_at-IsReferenced :
      (n : LocalNode) (w : W) (res : Resource) (owner : Node)
      → IsReferenced n
      → Ends IsReferenced (repair_at net fuel n w res owner)
  unfolding repair_at Ends
  repair_at-IsReferenced n w res owner h = elim (Bool-cases (equal owner.id n.rt.self.id)) [
    | inl own ↦ rw (repair_at, own) h
    | inr other ↦ elim (connect-cases n.pool owner.addr h.in_service) [
      | inr (e, failed) ↦ rw (repair_at, other) (rw failed h)
      | inl got ↦ elim (Option-cases (store_remote net.streams w owner.addr (res ∷ [])).2) [
        | inr (e, refused) ↦ rw (repair_at, other) (rw got (rw refused h))
        | inl stored ↦ rw (repair_at, other) (rw got (rw stored (stored-IsReferenced _ h)))
      ]
    ]
  ]

  repair_one-IsReferenced :
      (n : LocalNode) (w : W) (res : Resource)
      → IsReferenced n
      → Ends IsReferenced (repair_one net fuel n w res)
  unfolding repair_one Ends
  repair_one-IsReferenced n w res h =
      elim (LeavesPool-cases n.pool _ (
        find_successor_init-LeavesPool net.streams.ctx_err net.step n.rt n.pool h.in_service fuel
          res.key w)) [
            | inr endless ↦ rw (repair_one, endless) tt
            | inl (panic, v, looked) ↦ rw (repair_one, looked) tt
            | inl (err e, v, looked) ↦ rw (repair_one, looked) h
            | inl (ok none, v, looked) ↦ rw (repair_one, looked) h
            | inl (ok (some owner), v, looked) ↦
                rw (repair_one, looked) (repair_at-IsReferenced n v res owner h)
          ]

  repair_all-IsReferenced :
      (resources : List Resource) (n : LocalNode) (w : W)
      → IsReferenced n
      → Ends IsReferenced (repair_all net fuel n w resources)
  unfolding repair_all Ends
  repair_all-IsReferenced [] n w h = h
  repair_all-IsReferenced (res ∷ resources) n w h =
      elim (Ends-cases IsReferenced (repair_one net fuel n w res)
        (repair_one-IsReferenced n w res h)) [
          | inl (m, v, _, ended, k) ↦
              rw (repair_all, ended) (repair_all-IsReferenced resources m v k)
          | inr (inl crashed) ↦ rw (repair_all, crashed) tt
          | inr (inr endless) ↦ rw (repair_all, endless) tt
        ]

  pub resource_repair-IsReferenced :
      (n : LocalNode) (w : W) → IsReferenced n → Ends IsReferenced (resource_repair net fuel n w)
  unfolding resource_repair Ends
  resource_repair-IsReferenced n w h = elim (Option-cases (get_predecessor n.rt)) [
    | inl absent ↦ rw (resource_repair, absent) h
    | inr (pred, there) ↦ rw (resource_repair, there) (repair_all-IsReferenced _ n w h)
  ]

  pub transfer_resources-IsReferenced :
      (n : LocalNode) (w : W) (p : Node) (resources : List Resource)
      → IsReferenced n
      → Ends IsReferenced (transfer_resources net fuel n w p resources)
  unfolding transfer_resources Ends
  transfer_resources-IsReferenced n w p resources h =
      elim (get_from_pool-cases n.pool p.addr h.in_service) [
        | inr (e, missing) ↦ rw (transfer_resources, missing) h
        | inl got ↦
            elim (Option-cases (store_remote net.streams (net.with_timeout w) p.addr resources).2) [
              | inr (e, refused) ↦ rw (transfer_resources, got) (rw refused h)
              | inl stored ↦ rw (transfer_resources, got) (rw stored (stored-IsReferenced _ h))
            ]
      ]
