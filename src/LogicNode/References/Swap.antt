-- ===== src/LogicNode/References/Swap.antt =====
-- The pool's references follow a list of nodes when it is replaced.
use Prim.Native.String.{String}
use text.Mathlib.Text.{◌==◌ as str_eq}
use text.Mathlib.TextEquality.{eq_iff}
use koorde_dht.Prelude.{
  ℕ, ◌+◌, ◌-◌, ◌≡◌, ◌∙◌, refl, sym, ap, Bool, true, false, not, ◌&&◌, ◌||◌, List, [], ◌∷◌, Option,
  none, some, arith, if◌then◌else◌, Option-cases, inl, inr, Bool-cases,
}
use koorde_dht.Prelude.Assoc.{lookup, insert, lookup-insert}
use koorde_dht.Result.{Error}
use koorde_dht.Domain.{Node}
use koorde_dht.Pool.{Pool}
use koorde_dht.Pool.Counts.{IsOpen, refs}
use koorde_dht.Pool.Tally.{
  ind, Leaves, Leaves-same, Leaves-map, Leaves-then, AllDialled, add_ref-Leaves, release-Leaves,
}
use koorde_dht.LogicNode.References.{
  AddressSet, add_addresses, address_set, add_missing, release_missing, swap_references,
}

-- Does a node of the list have the address?
unfoldable pub named : String → List Node → Bool
named a [] = false
named a (n ∷ nodes) = str_eq n.addr a || named a nodes

has : String → AddressSet → Bool
has a set = elim (lookup str_eq a set) [ none ↦ false | some n ↦ true ]

-- How many entries of the set have the address?
occurs : String → AddressSet → ℕ
occurs a [] = 0
occurs a ((b, n) ∷ set) = ind (str_eq b a) + occurs a set

has-insert :
    (a b : String) (n : Node) (set : AddressSet)
    → has a (insert str_eq b n set) ≡ (str_eq b a || has a set)
unfolding has
has-insert a b n set = ground (arith, lookup-insert str_eq eq_iff b a n set)

eq_self : (a : String) → str_eq a a ≡ true
eq_self a = (eq_iff a a).1 refl

has_here :
    (b a : String) (n : Node) (set : AddressSet) → str_eq b a ≡ true → has a ((b, n) ∷ set) ≡ true
unfolding has lookup
has_here b a n set e = rw (has, e) refl

occurs-insert :
    (a b : String) (n : Node) (set : AddressSet)
    → occurs a (insert str_eq b n set)
      ≡ (if has b set then occurs a set else occurs a set + ind (str_eq b a))
unfolding has occurs insert lookup
occurs-insert a b n [] = omega arith
occurs-insert a b n ((c, m) ∷ set) = elim (Bool-cases (str_eq c b)) [
  | inl same ↦ rw (has_here c b m set same) (rw same (rw ((eq_iff c b).0 same) refl))
  | inr other ↦ rw other (ground (arith, occurs-insert a b n set))
]

-- An address has at most one entry.
IsMap : AddressSet → Type 0
IsMap set = (a : String) → occurs a set ≡ ind (has a set)

IsMap-insert :
    (b : String) (n : Node) (set : AddressSet) → IsMap set → IsMap (insert str_eq b n set)
unfolding IsMap
IsMap-insert b n set h a = elim (Bool-cases (str_eq b a)) [
  | inl same ↦
      let e : b ≡ a = (eq_iff b a).0 same in
      rw (← e) (
        occurs-insert b b n set
        ∙ rw (eq_self b) (elim (Bool-cases (has b set)) [
          | inl there ↦ rw there (h b ∙ rw there (rw (has-insert b b n set) (rw (eq_self b) refl)))
          | inr absent ↦
              rw absent (rw (h b) (rw absent (rw (has-insert b b n set) (rw (eq_self b) refl))))
        ]))
  | inr other ↦ occurs-insert a b n set ∙ rw other (ground (arith, h a, has-insert a b n set))
]

add_addresses-has :
    (nodes : List Node) (set : AddressSet) (a : String)
    → has a (add_addresses set nodes) ≡ (has a set || named a nodes)
unfolding add_addresses named
add_addresses-has [] set a = ground arith
add_addresses-has (n ∷ nodes) set a =
    add_addresses-has nodes (insert str_eq n.addr n set) a
    ∙ rw (has-insert a n.addr n set) (ground arith)

IsMap-add_addresses :
    (nodes : List Node) (set : AddressSet) → IsMap set → IsMap (add_addresses set nodes)
unfolding add_addresses
IsMap-add_addresses [] set h = h
IsMap-add_addresses (n ∷ nodes) set h =
    IsMap-add_addresses nodes (insert str_eq n.addr n set) (IsMap-insert n.addr n set h)

-- The entries for an address in the set of a list.
address_set-occurs :
    (nodes : List Node) (a : String) → occurs a (address_set nodes) ≡ ind (named a nodes)
unfolding address_set IsMap
address_set-occurs nodes a =
    IsMap-add_addresses nodes [] (λ b. unfold has occurs lookup in refl) a
    ∙ ap ind (add_addresses-has nodes [] a ∙ unfold has lookup in refl)

address_set-has : (nodes : List Node) (a : String) → has a (address_set nodes) ≡ named a nodes
unfolding address_set
address_set-has nodes a = add_addresses-has nodes [] a ∙ unfold has lookup in refl

has-same : (a b : String) (set : AddressSet) → str_eq b a ≡ true → has a set ≡ has b set
has-same a b set e = ap (λ c. has c set) (sym ((eq_iff b a).0 e))

-- The entry of an address that the other set has, or has not, in the count of the missing ones.
missing_there :
    (a b : String) (k : Node) (set : AddressSet) (t : ℕ)
    → lookup str_eq b set ≡ some k
    → (if has a set then 0 else t) ≡ (if has a set then 0 else ind (str_eq b a) + t)
unfolding has
missing_there a b k set t there = elim (Bool-cases (str_eq b a)) [
  | inl same ↦ rw (has-same a b set same) (rw (has, there) refl)
  | inr other ↦ rw other (ground arith)
]

missing_absent :
    (a b : String) (set : AddressSet) (t : ℕ)
    → lookup str_eq b set ≡ none
    → ind (str_eq b a) + (if has a set then 0 else t)
      ≡ (if has a set then 0 else ind (str_eq b a) + t)
unfolding has
missing_absent a b set t absent = elim (Bool-cases (str_eq b a)) [
  | inl same ↦ rw (has-same a b set same) (rw (has, absent) (rw same refl))
  | inr other ↦ rw other (ground arith)
]

module _ (dial hang_up : String → Option Error) where
  add_missing-Leaves :
      AllDialled dial hang_up
      → (old new : AddressSet) (p : Pool) → IsOpen p
      → (q : Pool) × (add_missing dial hang_up old new p ≡ some q)
        × Leaves p q (λ a n. n + (if has a old then 0 else occurs a new))
  unfolding add_missing occurs
  add_missing-Leaves dialled old [] p h = (p, refl, Leaves-same p _ h (λ a other. ground arith))
  add_missing-Leaves dialled old ((b, m) ∷ new) p h = elim (Option-cases (lookup str_eq b old)) [
    | inr (k, there) ↦
        let (q, ran, l) = add_missing-Leaves dialled old new p h in
        (
          q,
          rw (add_missing, there) ran,
          Leaves-map l (λ a other. ap (λ t. refs p a + t) (missing_there a b k old _ there)),
        )
    | inl absent ↦
        let (e, r, added, l) = add_ref-Leaves dial hang_up dialled p b h in
        let (q, ran, m) = add_missing-Leaves dialled old new r l.in_service in
        (
          q,
          rw (add_missing, absent) (rw added ran),
          Leaves-map (Leaves-then l m)
              (λ a other. let e = missing_absent a b old (occurs a new) absent in omega (arith, e)),
        )
  ]

  release_missing-Leaves :
      (new old : AddressSet) (p : Pool)
      → IsOpen p
      → (q : Pool) × (release_missing dial hang_up new old p ≡ some q)
        × Leaves p q (λ a n. n - (if has a new then 0 else occurs a old))
  unfolding release_missing occurs
  release_missing-Leaves new [] p h = (p, refl, Leaves-same p _ h (λ a other. ground arith))
  release_missing-Leaves new ((b, m) ∷ old) p h = elim (Option-cases (lookup str_eq b new)) [
    | inr (k, there) ↦
        let (q, ran, l) = release_missing-Leaves new old p h in
        (
          q,
          rw (release_missing, there) ran,
          Leaves-map l (λ a other. ap (λ t. refs p a - t) (missing_there a b k new _ there)),
        )
    | inl absent ↦
        let (e, r, released, l) = release-Leaves dial hang_up p b h in
        let (q, ran, m) = release_missing-Leaves new old r l.in_service in
        (
          q,
          rw (release_missing, absent) (rw released ran),
          Leaves-map (Leaves-then l m)
              (λ a other. let e = missing_absent a b new (occurs a old) absent in omega (arith, e)),
        )
  ]

  -- In a pool in service, if every address can be dialled, the replacement of a list of nodes by
  -- another does not block; another node's address gains a reference if only the new list has it,
  -- loses one if only the old list has it, and keeps its references otherwise, however often a list
  -- names it.
  pub swap_references_lem :
      AllDialled dial hang_up
      → (old new : List Node) (p : Pool) → IsOpen p
      → (q : Pool) × (swap_references dial hang_up old new p ≡ some q)
        × Leaves p q (λ a n.
          n + ind (named a new && not (named a old)) - ind (named a old && not (named a new)))
  unfolding swap_references
  swap_references_lem dialled old new p h =
      let (r, added, l) = add_missing-Leaves dialled (address_set old) (address_set new) p h in
      let (q, released, m) =
        release_missing-Leaves (address_set new) (address_set old) r l.in_service in
      (
        q,
        rw (swap_references, added) released,
        Leaves-map (Leaves-then l m) (λ a other.
            rw
              (
                address_set-occurs old a,
                address_set-occurs new a,
                address_set-has old a,
                address_set-has new a,
              )
              (elim (Bool-cases (named a new)) [
                | inl there ↦ rw there (ground arith)
                | inr absent ↦ rw absent (ground arith)
              ])),
      )
