-- ===== src/RoutingTable/Promote.antt =====
-- PromoteCandidate.
use koorde_dht.Prelude.{
  ℕ, zero, suc, ◌-◌, ◌≤◌, ◌<◌, ◌≡◌, refl, ap, ◌∙◌, List, [], ◌∷◌, ◌++◌, none, some, arith, map,
  length, length-append, length-map, length-replicate, length-present-le, length-drop, set,
  replicate, drop, drop-replicate, write_from, write_from-cons, write_from-zero, present,
  present-append, present-map-some, present-replicate-none, append-nil,
}
use koorde_dht.Prelude.Int.{pos}
use koorde_dht.Domain.{Node}
use koorde_dht.RoutingTable.{
  RoutingTable, Entry, entry_at, promote_loop, promote_candidate, set_successor_list,
  successor_list,
}
use koorde_dht.RoutingTable.Shape.{IsTable}
use koorde_dht.RoutingTable.Window.{padded_full, set_successor_list_lem}

promote_loop-write :
    (entries : List Entry) (k : ℕ) (arr : List Entry)
    → promote_loop entries k arr ≡ write_from (map some (present entries)) k arr
unfolding promote_loop
promote_loop-write [] k arr = refl
promote_loop-write (none ∷ entries) k arr = promote_loop-write entries k arr
promote_loop-write (some n ∷ entries) k arr = promote_loop-write entries (suc k) _

module _ (rt : RoutingTable) (h : IsTable rt) (i : ℕ) (candidate : Node) where
  -- The nodes after the candidate, in order.
  abbrev later : List Node
  later = present (drop (suc (suc i)) rt.successors)

  abbrev promoted : List Entry
  promoted =
      map some (candidate ∷ later) ++ replicate (rt.space.succ_list_size - suc (length later)) none

  later-le : suc i < rt.space.succ_list_size → suc (length later) ≤ rt.space.succ_list_size
  later-le lt = omega (
    arith,
    length-present-le (drop (suc (suc i)) rt.successors),
    length-drop (suc (suc i)) rt.successors,
    h.successors_length,
  )

  built :
      (size : ℕ)
      → suc (length later) ≤ size
      → promote_loop
          (drop (suc (suc i)) rt.successors)
          1
          (set (replicate size none) 0 (some candidate))
        ≡ map some (candidate ∷ later) ++ replicate (size - suc (length later)) none
  built zero le = absurd (omega arith)
  built (suc size) le =
      promote_loop-write (drop (suc (suc i)) rt.successors) 1 (some candidate ∷ replicate size none)
      ∙ write_from-cons (map some later) 0 (some candidate) (replicate size none)
      ∙ ap (◌∷◌ (some candidate)) (
          write_from-zero (map some later) (replicate size none) (
            omega
              (arith, length-map {B = Entry} later some, length-replicate {A = Entry} size none))
          ∙ rw (length-map, drop-replicate)
              (ap (λ (t : ℕ). map some later ++ replicate t none) rest))
    where
      rest : size - length later ≡ suc size - suc (length later)
      rest = omega arith

  -- If 0 < i < the list's size and entry i holds a node, PromoteCandidate(i) makes it the first
  -- successor, followed by the nodes after it in their order and then by nil entries, and changes
  -- nothing else; so the nodes that SuccessorList then returns are the candidate and those after it.
  pub promote_candidate_lem :
      suc i < rt.space.succ_list_size
      → entry_at rt.successors (suc i) ≡ some candidate
      → (promote_candidate rt (pos (suc i)) ≡ record rt { successors = promoted })
        × (successor_list (promote_candidate rt (pos (suc i))) ≡ candidate ∷ later)
  promote_candidate_lem lt e = (table, ap successor_list table ∙ nodes)
    where
      size : ℕ
      size = rt.space.succ_list_size

      full : length promoted ≡ size
      full = omega (
        arith,
        later-le lt,
        length-append (map some (candidate ∷ later)) (replicate (size - suc (length later)) none),
        length-map {B = Entry} (candidate ∷ later) some,
        length-replicate {A = Entry} (size - suc (length later)) none,
      )

      run :
          promote_candidate rt (pos (suc i))
          ≡ set_successor_list rt (
              promote_loop
                (drop (suc (suc i)) rt.successors)
                1
                (set (replicate size none) 0 (some candidate)))
      run = unfold promote_candidate in ground arith

      table : promote_candidate rt (pos (suc i)) ≡ record rt { successors = promoted }
      table =
          run
          ∙ ap (set_successor_list rt) (built size (later-le lt))
          ∙ set_successor_list_lem rt promoted h
          ∙ ap (λ (t : List Entry). record rt { successors = t }) (padded_full size promoted full)

      nodes : successor_list (record rt { successors = promoted }) ≡ candidate ∷ later
      nodes =
          unfold successor_list in
          ap (◌∷◌ candidate) (
            present-append (map some later) (replicate (size - suc (length later)) none)
            ∙ rw (present-map-some, present-replicate-none) (append-nil later))
