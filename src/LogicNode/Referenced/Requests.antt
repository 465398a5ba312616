-- ===== src/LogicNode/Referenced/Requests.antt =====
-- Notify and HandleLeave keep every role referenced.
use Prim.Native.String.{String}
use text.Mathlib.Text.{◌==◌ as str_eq}
use koorde_dht.Prelude.{
  ℕ, ◌+◌, ◌-◌, ◌≤◌, ◌≡◌, refl, ap, true, List, [], Option, none, some, arith, inl, inr, Bool-cases,
  Option-cases,
}
use koorde_dht.Result.{Error}
use koorde_dht.Identifier.Order.{equal, between}
use koorde_dht.Domain.{Node, Resource}
use koorde_dht.RoutingTable.{
  RoutingTable, Entry, get_predecessor, set_predecessor, successor_list, de_bruijn_list,
}
use koorde_dht.RoutingTable.Shape.{IsTable}
use koorde_dht.Storage.{resources_between}
use koorde_dht.Pool.{Pool}
use koorde_dht.Pool.Counts.{IsOpen}
use koorde_dht.Pool.Tally.{
  ind, Leaves, Leaves-same, Leaves-then, AllDialled, add_ref-Leaves, release-Leaves,
}
use koorde_dht.LogicNode.Local.{LocalNode, release_entry, adopt, notify, handle_leave}
use koorde_dht.LogicNode.Referenced.{is_addr, need, IsReferenced, IsReferenced-change}

-- The table with another predecessor.
pub IsTable-predecessor :
    {rt : RoutingTable} (e : Entry) → IsTable rt → IsTable (set_predecessor rt e)
unfolding set_predecessor
IsTable-predecessor e h = record {
  successors_length = h.successors_length;
  de_bruijn_length = h.de_bruijn_length;
}

-- The predecessor's role ends with one reference.
pub need-cleared :
    (rt : RoutingTable) (pred : Node) (a : String) (k : ℕ)
    → get_predecessor rt ≡ some pred
    → need rt a ≤ k
    → need (set_predecessor rt none) a ≤ k - ind (str_eq pred.addr a)
unfolding need set_predecessor get_predecessor successor_list de_bruijn_list is_addr
need-cleared rt pred a k there le =
    let e : is_addr a rt.predecessor ≡ str_eq pred.addr a = rw there refl in
    omega (arith, le, ap ind e)

-- A node that leaves with the predecessor's identifier leaves with its address.
unfoldable pub IsKnown : LocalNode → Node → Type 0
IsKnown n leaving =
    (pred : Node)
    → get_predecessor n.rt ≡ some pred
    → equal leaving.id pred.id ≡ true
    → leaving.addr ≡ pred.addr

module _ (dial hang_up : String → Option Error) where
  pub release_entry-Leaves :
      (p : Pool) (e : Entry)
      → IsOpen p
      → (q : Pool) × (release_entry dial hang_up p e ≡ some q)
        × Leaves p q (λ a n. n - ind (is_addr a e))
  unfolding release_entry is_addr
  release_entry-Leaves p none h = (p, refl, Leaves-same p _ h (λ a other. omega arith))
  release_entry-Leaves p (some m) h =
      let (e, q, released, l) = release-Leaves dial hang_up p m.addr h in (q, rw released refl, l)

  pub adopt-Leaves :
      AllDialled dial hang_up
      → (n : LocalNode) (p : Node) → IsOpen n.pool
      → (q : Pool) × (adopt dial hang_up n p
          ≡ some (
            record n { rt = set_predecessor n.rt (some p); pool = q },
            resources_between n.store n.rt.self.id p.id,
          ))
        × Leaves n.pool q
            (λ a r. r + ind (str_eq p.addr a) - ind (is_addr a (get_predecessor n.rt)))
  unfolding adopt
  adopt-Leaves dialled n p h =
      let (e, r, added, l) = add_ref-Leaves dial hang_up dialled n.pool p.addr h in
      let (q, released, m) = release_entry-Leaves r (get_predecessor n.rt) l.in_service in
      (q, rw (adopt, added) (rw released refl), Leaves-then l m)

  adopt-IsReferenced :
      AllDialled dial hang_up
      → (n : LocalNode) (p : Node) → IsReferenced n
      → (q : Pool) × (adopt dial hang_up n p
          ≡ some (
            record n { rt = set_predecessor n.rt (some p); pool = q },
            resources_between n.store n.rt.self.id p.id,
          ))
        × IsReferenced (record n { rt = set_predecessor n.rt (some p); pool = q })
  unfolding need set_predecessor get_predecessor successor_list de_bruijn_list is_addr
  adopt-IsReferenced dialled n p h =
      let (q, adopted, l) = adopt-Leaves dialled n p h.in_service in
      (
        q,
        adopted,
        IsReferenced-change h (IsTable-predecessor (some p) h.table) l
            (λ a other k le. omega arith),
      )

  -- If every address can be dialled, Notify does not block and keeps every role referenced.
  pub notify-IsReferenced :
      AllDialled dial hang_up
      → (n : LocalNode) (e : Entry) → IsReferenced n
      → (m : LocalNode) × (resources : List Resource) × (notify dial hang_up n e
          ≡ some (m, resources))
        × IsReferenced m
  unfolding notify
  notify-IsReferenced dialled n none h = (n, [], refl, h)
  notify-IsReferenced dialled n (some p) h =
      let (q, ran, kept) = adopt-IsReferenced dialled n p h in
      let m = record n { rt = set_predecessor n.rt (some p); pool = q } in
      let handed = resources_between n.store n.rt.self.id p.id in
      elim (Bool-cases (equal p.id n.rt.self.id)) [
        | inl own ↦ (n, [], rw (notify, own) refl, h)
        | inr other ↦ elim (Option-cases (get_predecessor n.rt)) [
          | inl absent ↦ (m, handed, rw (notify, other) (rw absent ran), kept)
          | inr (pred, there) ↦ elim (Bool-cases (between p.id pred.id n.rt.self.id)) [
            | inl closer ↦ (m, handed, rw (notify, other) (rw there (rw closer ran)), kept)
            | inr apart ↦ (n, [], rw (notify, other) (rw there (rw apart refl)), h)
          ]
        ]
      ]

  -- If a leaving node that has the predecessor's identifier has its address as well, HandleLeave does
  -- not block and keeps every role referenced.
  pub handle_leave-IsReferenced :
      (n : LocalNode) (leaving : Node)
      → IsReferenced n
      → IsKnown n leaving
      → (m : LocalNode) × (handle_leave dial hang_up n (some leaving) ≡ some m) × IsReferenced m
  unfolding handle_leave IsKnown
  handle_leave-IsReferenced n leaving h known = elim (Option-cases (get_predecessor n.rt)) [
    | inl absent ↦ (n, rw (handle_leave, absent) refl, h)
    | inr (pred, there) ↦ elim (Bool-cases (equal leaving.id pred.id)) [
      | inr other ↦ (n, rw (handle_leave, there) (rw other refl), h)
      | inl leaves ↦
          let (e, q, released, l) = release-Leaves dial hang_up n.pool leaving.addr h.in_service in
          (
            record n { rt = set_predecessor n.rt none; pool = q },
            rw (handle_leave, there) (rw leaves (rw released refl)),
            IsReferenced-change h (IsTable-predecessor none h.table) l (λ a other k le.
                rw (known pred there leaves) (need-cleared n.rt pred a k there le)),
          )
    ]
  ]
