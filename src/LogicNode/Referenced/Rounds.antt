-- ===== src/LogicNode/Referenced/Rounds.antt =====
-- The rounds of the workers keep every role referenced.
use koorde_dht.Prelude.{
  ℕ, zero, suc, ◌+◌, ◌-◌, ◌≤◌, ◌≡◌, refl, ap, ◌∙◌, Bool, true, false, not, ◌&&◌, List, [], ◌∷◌,
  none, some, arith, inl, inr, Bool-cases, Option-cases, length, length-replicate, present,
  zero_or_suc, sym,
}
use koorde_dht.Result.{Result-cases}
use koorde_dht.Identifier.Space.{Ident}
use koorde_dht.Identifier.Order.{equal}
use koorde_dht.Domain.{Node}
use koorde_dht.RoutingTable.{
  Entry, get_predecessor, set_predecessor, first_successor, successor_list, de_bruijn_list,
  set_successor_list,
}
use koorde_dht.RoutingTable.Window.{set_successor_list_lem, padded_full}
use koorde_dht.Pool.{Pool}
use koorde_dht.Pool.Tally.{ind, Leaves, AllDialled, release-Leaves, get_from_pool-cases}
use koorde_dht.LogicNode.Local.{LocalNode}
use koorde_dht.LogicNode.Calls.{ping_peer, successors_of}
use koorde_dht.LogicNode.Network.{Network}
use koorde_dht.LogicNode.References.Swap.{named, swap_references_lem}
use koorde_dht.LogicNode.Workers.{
  fill_successors, install_successors, fix_successor_list, check_predecessor,
}
use koorde_dht.LogicNode.Referenced.{is_addr, need, IsReferenced, IsReferenced-change, Ends}
use koorde_dht.LogicNode.Referenced.Requests.{IsTable-predecessor, need-cleared}

-- A list's role passes from the old list to the new one.
pub role_change :
    (old new : Bool) (d r : ℕ)
    → ind old + d ≤ r
    → ind new + d ≤ r + ind (new && not old) - ind (old && not new)
role_change true true d r h = omega arith
role_change true false d r h = omega arith
role_change false true d r h = omega arith
role_change false false d r h = omega arith

length-fill_successors :
    (self : Ident) (m : ℕ) (remote : List Entry) → length (fill_successors self m remote) ≡ m
unfolding fill_successors
length-fill_successors self zero remote = refl
length-fill_successors self (suc m) [] = length-replicate {A = Entry} (suc m) none
length-fill_successors self (suc m) (none ∷ remote) = ap suc (length-fill_successors self m remote)
length-fill_successors self (suc m) (some n ∷ remote) = elim (Bool-cases (equal n.id self)) [
  | inl own ↦ rw (fill_successors, own) (length-replicate {A = Entry} (suc m) none)
  | inr other ↦ rw (fill_successors, other) (ap suc (length-fill_successors self m remote))
]

-- The node without a predecessor, when the old one's connection is not released.
forgotten :
    {n : LocalNode} → IsReferenced n → IsReferenced (record n { rt = set_predecessor n.rt none })
unfolding need set_predecessor get_predecessor successor_list de_bruijn_list is_addr
forgotten {n = n} h = record {
  table = IsTable-predecessor none h.table;
  in_service = h.in_service;
  covered = λ a other. let le = h.covered a other in omega (arith, le);
}

-- The node with a new list of successors, of the right size.
successors-IsReferenced :
    {n : LocalNode} (list : List Entry) {q : Pool}
    → length list ≡ n.rt.space.succ_list_size
    → IsReferenced n
    → Leaves n.pool q (λ a r.
      r
      + ind (named a (present list) && not (named a (successor_list n.rt)))
      - ind (named a (successor_list n.rt) && not (named a (present list))))
    → IsReferenced (record n { rt = set_successor_list n.rt list; pool = q })
unfolding need get_predecessor successor_list de_bruijn_list
successors-IsReferenced {n = n} list {q = q} size h l =
    let e : set_successor_list n.rt list ≡ record n.rt { successors = list } =
      set_successor_list_lem n.rt list h.table
      ∙ ap (λ (s : List Entry). record n.rt { successors = s }) (padded_full _ list size) in
    rw e (
      IsReferenced-change h
        (record { successors_length = size; de_bruijn_length = h.table.de_bruijn_length }) l
        (λ a other r le.
          let k =
            role_change (named a (present n.rt.successors)) (named a (present list))
              (ind (named a (present n.rt.de_bruijn)) + ind (is_addr a n.rt.predecessor)) r
              (omega (arith, le)) in
          omega (arith, k)))

module _ {W : Type 0} (net : Network W) (fuel : ℕ) (dialled : AllDialled net.dial net.hang_up) where
  pub check_predecessor-IsReferenced :
      (n : LocalNode) (w : W) → IsReferenced n → Ends IsReferenced (check_predecessor net fuel n w)
  unfolding check_predecessor Ends
  check_predecessor-IsReferenced n w h = elim (Option-cases (get_predecessor n.rt)) [
    | inl absent ↦ rw (check_predecessor, absent) h
    | inr (pred, there) ↦ elim (Bool-cases (equal pred.id n.rt.self.id)) [
      | inl own ↦ rw (check_predecessor, there) (rw own h)
      | inr other ↦ elim (get_from_pool-cases n.pool pred.addr h.in_service) [
        | inr (e, missing) ↦ rw (check_predecessor, there) (rw other (rw missing (forgotten h)))
        | inl got ↦
            elim (Option-cases
              (ping_peer net.streams.ctx_err net.peers n.rt.space (net.with_timeout w)
                pred.addr).1) [
                  | inl alive ↦ rw (check_predecessor, there) (rw other (rw got (rw alive h)))
                  | inr (e, dead) ↦
                      let (e', q, released, l) =
                        release-Leaves net.dial net.hang_up n.pool pred.addr h.in_service in
                      rw (check_predecessor, there)
                        (rw other (
                          rw got (
                            rw dead (
                              rw released (
                                IsReferenced-change h (IsTable-predecessor none h.table) l
                                  (λ a o k le. need-cleared n.rt pred a k there le))))))
                ]
      ]
    ]
  ]

  install_successors-IsReferenced :
      (n : LocalNode) (w : W) (succ : Node) (remote : List Entry)
      → IsReferenced n
      → Ends IsReferenced (install_successors net fuel n w succ remote)
  unfolding install_successors Ends
  install_successors-IsReferenced n w succ remote h = elim (zero_or_suc n.rt.space.succ_list_size) [
    | inl none_left ↦ rw (install_successors, none_left) tt
    | inr (m, size) ↦
        let list = some succ ∷ fill_successors n.rt.self.id m remote in
        let (q, swapped, l) =
          swap_references_lem net.dial net.hang_up dialled (successor_list n.rt) (present list)
            n.pool h.in_service in
        rw (install_successors, size)
          (rw swapped (
            successors-IsReferenced list
              (ap suc (length-fill_successors n.rt.self.id m remote) ∙ sym size) h l))
  ]

  pub fix_successor_list-IsReferenced :
      (n : LocalNode) (w : W) → IsReferenced n → Ends IsReferenced (fix_successor_list net fuel n w)
  unfolding fix_successor_list Ends
  fix_successor_list-IsReferenced n w h = elim (Option-cases (first_successor n.rt)) [
    | inl absent ↦ rw (fix_successor_list, absent) h
    | inr (succ, there) ↦ elim (Bool-cases (equal succ.id n.rt.self.id)) [
      | inl own ↦ rw (fix_successor_list, there) (rw own h)
      | inr other ↦ elim (get_from_pool-cases n.pool succ.addr h.in_service) [
        | inr (e, missing) ↦ rw (fix_successor_list, there) (rw other (rw missing h))
        | inl got ↦
            elim (Result-cases
              (successors_of net.streams.ctx_err net.peers n.rt.space (net.with_timeout w)
                succ.addr).1) [
                  | inl (remote, said) ↦
                      rw (fix_successor_list, there)
                        (rw other
                          (rw got (rw said (install_successors-IsReferenced n _ succ remote h))))
                  | inr (inl (e, failed)) ↦
                      rw (fix_successor_list, there) (rw other (rw got (rw failed h)))
                  | inr (inr crashed) ↦
                      rw (fix_successor_list, there) (rw other (rw got (rw crashed tt)))
                ]
      ]
    ]
  ]
