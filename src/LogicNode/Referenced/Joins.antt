-- ===== src/LogicNode/Referenced/Joins.antt =====
-- Join and Leave keep every role referenced.
use Prim.Native.String.{String}
use text.Mathlib.Text.{◌==◌ as str_eq}
use koorde_dht.Prelude.{
  ℕ, ◌+◌, ◌≤◌, ◌≡◌, refl, List, [], ◌∷◌, Option, none, some, arith, inl, inr, Bool-cases,
  Option-cases, present, set, length-set, leb,
}
use koorde_dht.Prelude.Int.{pos}
use koorde_dht.Result.{Error, ok, err, panic, Result-cases}
use koorde_dht.Identifier.Order.{equal}
use koorde_dht.Domain.{Node, Resource}
use koorde_dht.RoutingTable.{
  RoutingTable, Entry, get_predecessor, set_predecessor, set_successor, first_successor,
  successor_list, de_bruijn_list,
}
use koorde_dht.RoutingTable.Shape.{IsTable}
use koorde_dht.Pool.Tally.{
  ind, AllDialled, add_ref-Leaves, get_from_pool-cases, dial_ephemeral-cases,
}
use koorde_dht.LogicNode.Local.{LocalNode}
use koorde_dht.LogicNode.Calls.{find_successor_start, predecessor_of, notify_peer}
use koorde_dht.LogicNode.Network.{Network}
use koorde_dht.LogicNode.References.Swap.{named}
use koorde_dht.LogicNode.Join.{
  bootstrap, introduce, take_predecessor, take_successor, enter, join_at, join_peers, join,
}
use koorde_dht.LogicNode.Workers.{fix_successor_list}
use koorde_dht.LogicNode.Window.{fix_de_bruijn}
use koorde_dht.LogicNode.Departure.{retry_at, retry_one, retry_all, hand_over, leave}
use koorde_dht.LogicNode.Referenced.{
  is_addr, need, IsReferenced, IsReferenced-change, Ends, Ends-cases,
}
use koorde_dht.LogicNode.Referenced.Requests.{IsTable-predecessor}
use koorde_dht.LogicNode.Referenced.Rounds.{fix_successor_list-IsReferenced}
use koorde_dht.LogicNode.Referenced.Windows.{fix_de_bruijn-IsReferenced, connect-cases}

-- A new entry adds one role at most.
pub named-set :
    (entries : List Entry) (n : Node) (a : String)
    → ind (named a (present (set entries 0 (some n))))
      ≤ ind (named a (present entries)) + ind (str_eq n.addr a)
unfolding named
named-set [] n a = ground arith
named-set (none ∷ entries) n a = ground arith
named-set (some m ∷ entries) n a = ground arith

set_successor-need :
    (rt : RoutingTable) (n : Node) (a : String) (r : ℕ)
    → need rt a ≤ r
    → need (set_successor rt (pos 0) (some n)) a ≤ r + ind (str_eq n.addr a)
unfolding need set_successor get_predecessor successor_list de_bruijn_list
set_successor-need rt n a r le = elim (Bool-cases (leb rt.space.succ_list_size 0)) [
  | inl out ↦ rw out (omega arith)
  | inr fits ↦ rw fits (omega (arith, named-set rt.successors n a))
]

IsTable-successor :
    (rt : RoutingTable) (n : Node) → IsTable rt → IsTable (set_successor rt (pos 0) (some n))
unfolding set_successor
IsTable-successor rt n h = ground (arith, length-set rt.successors 0 (some n))

module _ {W : Type 0} (net : Network W) (fuel : ℕ) where
  bootstrap-IsReferenced :
      (peers : List String) (n : LocalNode) (w : W) (last : Option Error)
      → IsReferenced n
      → Ends IsReferenced (bootstrap net fuel n w last peers)
  unfolding bootstrap Ends
  bootstrap-IsReferenced [] n w last h = h
  bootstrap-IsReferenced (addr ∷ peers) n w last h =
      elim (Bool-cases (str_eq addr n.rt.self.addr)) [
        | inl own ↦ rw (bootstrap, own) (bootstrap-IsReferenced peers n w last h)
        | inr other ↦ elim (dial_ephemeral-cases net.dial net.hang_up n.pool addr h.in_service) [
          | inr (e, failed) ↦
              rw (bootstrap, other) (rw failed (bootstrap-IsReferenced peers n w _ h))
          | inl got ↦
              elim (Result-cases
                (find_successor_start net.streams.ctx_err net.peers n.rt.space (net.with_timeout w)
                  addr n.rt.self.id).1) [
                    | inr (inr crashed) ↦ rw (bootstrap, other) (rw got (rw crashed tt))
                    | inr (inl (e, failed)) ↦
                        rw (bootstrap, other)
                          (rw got (rw failed (bootstrap-IsReferenced peers n _ _ h)))
                    | inl (none, said) ↦
                        rw (bootstrap, other)
                          (rw got (rw said (bootstrap-IsReferenced peers n _ _ h)))
                    | inl (some succ, said) ↦ elim (Bool-cases (equal succ.id n.rt.self.id)) [
                      | inl same ↦ rw (bootstrap, other) (rw got (rw said (rw same h)))
                      | inr distinct ↦ rw (bootstrap, other) (rw got (rw said (rw distinct h)))
                    ]
                  ]
        ]
      ]

  introduce-IsReferenced :
      (n : LocalNode) (w : W) (succ : Node)
      → IsReferenced n
      → Ends IsReferenced (introduce net fuel n w succ)
  unfolding introduce Ends
  introduce-IsReferenced n w succ h =
      elim (dial_ephemeral-cases net.dial net.hang_up n.pool succ.addr h.in_service) [
        | inr (e, failed) ↦ rw (introduce, failed) h
        | inl got ↦
            let asked =
              predecessor_of net.streams.ctx_err net.peers n.rt.space (net.with_timeout w)
                succ.addr in
            elim (Result-cases asked.1) [
              | inr (inr crashed) ↦ rw (introduce, got) (rw crashed tt)
              | inr (inl (e, failed)) ↦ rw (introduce, got) (rw failed h)
              | inl (pred, said) ↦
                  elim (Option-cases
                    (notify_peer net.streams.ctx_err net.peers n.rt.space (net.with_timeout asked.0)
                      succ.addr n.rt.self).1) [
                        | inl told ↦ rw (introduce, got) (rw said (rw told h))
                        | inr (e, failed) ↦ rw (introduce, got) (rw said (rw failed h))
                      ]
            ]
      ]

  module _ (dialled : AllDialled net.dial net.hang_up) where
    pub take_predecessor-IsReferenced :
        (n : LocalNode) (e : Entry)
        → IsReferenced n
        → (m : LocalNode) × (take_predecessor net fuel n e ≡ some m) × IsReferenced m
    unfolding take_predecessor
    take_predecessor-IsReferenced n none h = (n, refl, h)
    take_predecessor-IsReferenced n (some pred) h =
        let (e, q, added, l) =
          add_ref-Leaves net.dial net.hang_up dialled n.pool pred.addr h.in_service in
        (
          record n { rt = set_predecessor n.rt (some pred); pool = q },
          rw (take_predecessor, added) refl,
          IsReferenced-change h (IsTable-predecessor (some pred) h.table) l (λ a other r le.
              unfold need set_predecessor get_predecessor successor_list de_bruijn_list is_addr in
              omega (arith, le)),
        )

    pub take_successor-IsReferenced :
        (n : LocalNode) (succ : Node)
        → IsReferenced n
        → (m : LocalNode) × (take_successor net fuel n succ ≡ some m) × IsReferenced m
    unfolding take_successor
    take_successor-IsReferenced n succ h =
        let (e, q, added, l) =
          add_ref-Leaves net.dial net.hang_up dialled n.pool succ.addr h.in_service in
        (
          record n { rt = set_successor n.rt (pos 0) (some succ); pool = q },
          rw (take_successor, added) refl,
          IsReferenced-change h (IsTable-successor n.rt succ h.table) l
              (λ a other r le. set_successor-need n.rt succ a r le),
        )

    enter-IsReferenced :
        (n : LocalNode) (w : W) (pred : Entry) (succ : Node)
        → IsReferenced n
        → Ends IsReferenced (enter net fuel n w pred succ)
    unfolding enter Ends
    enter-IsReferenced n w pred succ h =
        let (m, taken, hm) = take_predecessor-IsReferenced n pred h in
        let (m', taken', hm') = take_successor-IsReferenced m succ hm in
        rw (enter, taken)
          (rw taken'
            (elim (Ends-cases IsReferenced (fix_successor_list net fuel m' w)
              (fix_successor_list-IsReferenced net fuel dialled m' w hm')) [
                | inr (inl crashed) ↦ rw crashed tt
                | inr (inr endless) ↦ rw endless tt
                | inl (fixed, v, _, listed, hf) ↦
                    rw listed
                      (elim (Ends-cases IsReferenced (fix_de_bruijn net fuel fixed v)
                        (fix_de_bruijn-IsReferenced net fuel dialled fixed v hf)) [
                          | inr (inl crashed) ↦ rw crashed tt
                          | inr (inr endless) ↦ rw endless tt
                          | inl (joined, v', _, windowed, hj) ↦ rw windowed hj
                        ])
              ]))

    join_at-IsReferenced :
        (n : LocalNode) (w : W) (succ : Node)
        → IsReferenced n
        → Ends IsReferenced (join_at net fuel n w succ)
    unfolding join_at Ends
    join_at-IsReferenced n w succ h =
        elim (Ends-cases IsReferenced (introduce net fuel n w succ)
          (introduce-IsReferenced n w succ h)) [
            | inr (inl crashed) ↦ rw (join_at, crashed) tt
            | inr (inr endless) ↦ rw (join_at, endless) tt
            | inl (m, v, panic, ended, hm) ↦ rw (join_at, ended) tt
            | inl (m, v, err e, ended, hm) ↦ rw (join_at, ended) hm
            | inl (m, v, ok pred, ended, hm) ↦
                rw (join_at, ended) (enter-IsReferenced m v pred succ hm)
          ]

    join_peers-IsReferenced :
        (n : LocalNode) (w : W) (peers : List String)
        → IsReferenced n
        → Ends IsReferenced (join_peers net fuel n w peers)
    unfolding join_peers Ends
    join_peers-IsReferenced n w peers h =
        elim (Ends-cases IsReferenced (bootstrap net fuel n w none peers)
          (bootstrap-IsReferenced peers n w none h)) [
            | inr (inl crashed) ↦ rw (join_peers, crashed) tt
            | inr (inr endless) ↦ rw (join_peers, endless) tt
            | inl (m, v, panic, ended, hm) ↦ rw (join_peers, ended) tt
            | inl (m, v, err e, ended, hm) ↦ rw (join_peers, ended) hm
            | inl (m, v, ok succ, ended, hm) ↦
                rw (join_peers, ended) (join_at-IsReferenced m v succ hm)
          ]

    pub join-IsReferenced :
        (n : LocalNode) (w : W) (peers : List String)
        → IsReferenced n
        → Ends IsReferenced (join net fuel n w peers)
    unfolding join Ends
    join-IsReferenced n w [] h = h
    join-IsReferenced n w (addr ∷ peers) h = join_peers-IsReferenced n w (addr ∷ peers) h

  retry_at-IsReferenced :
      (n : LocalNode) (w : W) (res : Resource) (owner : Node)
      → IsReferenced n
      → Ends IsReferenced (retry_at net fuel n w res owner)
  unfolding retry_at Ends
  retry_at-IsReferenced n w res owner h = elim (Bool-cases (equal owner.id n.rt.self.id)) [
    | inl own ↦ rw (retry_at, own) h
    | inr other ↦ elim (connect-cases net fuel n.pool owner.addr h.in_service) [
      | inr (e, failed) ↦ rw (retry_at, other) (rw failed h)
      | inl got ↦ rw (retry_at, other) (rw got h)
    ]
  ]

  retry_one-IsReferenced :
      (n : LocalNode) (w : W) (succ : Node) (res : Resource)
      → IsReferenced n
      → Ends IsReferenced (retry_one net fuel n w succ res)
  unfolding retry_one Ends
  retry_one-IsReferenced n w succ res h =
      elim (Result-cases
        (find_successor_start net.streams.ctx_err net.peers n.rt.space (net.with_timeout w)
          succ.addr res.key).1) [
            | inr (inr crashed) ↦ rw (retry_one, crashed) tt
            | inr (inl (e, failed)) ↦ rw (retry_one, failed) h
            | inl (none, said) ↦ rw (retry_one, said) h
            | inl (some owner, said) ↦ rw (retry_one, said) (retry_at-IsReferenced n _ res owner h)
          ]

  retry_all-IsReferenced :
      (resources : List Resource) (n : LocalNode) (w : W) (succ : Node)
      → IsReferenced n
      → Ends IsReferenced (retry_all net fuel n w succ resources)
  unfolding retry_all Ends
  retry_all-IsReferenced [] n w succ h = h
  retry_all-IsReferenced (res ∷ resources) n w succ h =
      elim (Ends-cases IsReferenced (retry_one net fuel n w succ res)
        (retry_one-IsReferenced n w succ res h)) [
          | inl (m, v, _, ended, k) ↦
              rw (retry_all, ended) (retry_all-IsReferenced resources m v succ k)
          | inr (inl crashed) ↦ rw (retry_all, crashed) tt
          | inr (inr endless) ↦ rw (retry_all, endless) tt
        ]

  hand_over-IsReferenced :
      (n : LocalNode) (w : W) (succ : Node) (resources : List Resource)
      → IsReferenced n
      → Ends IsReferenced (hand_over net fuel n w succ resources)
  unfolding hand_over Ends
  hand_over-IsReferenced n w succ [] h = h
  hand_over-IsReferenced n w succ (res ∷ resources) h = retry_all-IsReferenced _ n _ succ h

  pub leave-IsReferenced :
      (n : LocalNode) (w : W) → IsReferenced n → Ends IsReferenced (leave net fuel n w)
  unfolding leave Ends
  leave-IsReferenced n w h = elim (Option-cases (first_successor n.rt)) [
    | inl absent ↦ rw (leave, absent) h
    | inr (succ, there) ↦ elim (Bool-cases (equal succ.id n.rt.self.id)) [
      | inl own ↦ rw (leave, there) (rw own h)
      | inr other ↦ elim (get_from_pool-cases n.pool succ.addr h.in_service) [
        | inr (e, missing) ↦ rw (leave, there) (rw other (rw missing h))
        | inl got ↦ rw (leave, there) (rw other (rw got (hand_over-IsReferenced n _ succ _ h)))
      ]
    ]
  ]
