-- ===== src/Pool/Counts.antt =====
-- Reference counts of an open pool.
use Prim.Native.String.{String}
use text.Mathlib.Text.{◌==◌ as str_eq}
use text.Mathlib.TextEquality.{eq_iff}
use koorde_dht.Prelude.{
  ℕ, ◌+◌, ◌-◌, ◌<◌, ◌≡◌, ◌∙◌, refl, sym, ap, subst, false, List, [], ◌∷◌, Option, none, some, All,
  arith, if◌then◌else◌, ◌==◌, Option-cases, inl, inr, Bool-cases,
}
use koorde_dht.Prelude.Assoc.{lookup, insert, erase, lookup-insert, lookup-erase}
use koorde_dht.Result.{Error}
use koorde_dht.Pool.{
  Pool, Outcome, returns, blocks, add_ref, add_ref_locked, release, release_locked, close_conn,
}

abbrev count_of : Option ℕ → ℕ
count_of none = 0
count_of (some n) = n

-- The references that an address has: none if it has no connection.
unfoldable pub refs : Pool → String → ℕ
refs p addr = count_of (lookup str_eq addr p.clients)

-- No connection is kept without a reference.
abbrev pub AllUsed : List (String × ℕ) → Type 0
AllUsed = All (λ (e : String × ℕ). 0 < e.1)

-- A pool in service: open, its mutex free, each connection in use.
pub record IsOpen (p : Pool) : Type 0 where
  pub open_flag : p.closed ≡ false
  pub unlocked : p.locked ≡ false
  pub used : AllUsed p.clients

lookup-pos :
    (addr : String) (m : List (String × ℕ)) (n : ℕ)
    → AllUsed m
    → lookup str_eq addr m ≡ some n
    → 0 < n
unfolding lookup
lookup-pos addr [] n h e = cc
lookup-pos addr ((a, k) ∷ m) n h e = ground (arith, lookup-pos addr m n)

AllUsed-insert :
    (addr : String) (n : ℕ) (m : List (String × ℕ))
    → 0 < n
    → AllUsed m
    → AllUsed (insert str_eq addr n m)
unfolding insert
AllUsed-insert addr n [] hn h = (hn, tt)
AllUsed-insert addr n ((a, k) ∷ m) hn h = elim (Bool-cases (str_eq a addr)) [
  | inl same ↦ rw same (hn, h.1)
  | inr other ↦ rw other (h.0, AllUsed-insert addr n m hn h.1)
]

AllUsed-erase : (addr : String) (m : List (String × ℕ)) → AllUsed m → AllUsed (erase str_eq addr m)
unfolding erase
AllUsed-erase addr [] h = tt
AllUsed-erase addr ((a, k) ∷ m) h = elim (Bool-cases (str_eq a addr)) [
  | inl same ↦ rw same (AllUsed-erase addr m h.1)
  | inr other ↦ rw other (h.0, AllUsed-erase addr m h.1)
]

-- A routing entry gained or lost.
pub data Ref : Type 0 where
  gain : String → Ref
  lose : String → Ref

-- A call that a node makes: the address is not empty, and the node's own is not dialled.
abbrev pub IsCall : String → Ref → Type 0
IsCall self_addr (gain addr) = (str_eq addr "" ≡ false) × (str_eq addr self_addr ≡ false)
IsCall self_addr (lose addr) = str_eq addr "" ≡ false

module _ (dial hang_up : String → Option Error) where
  unfoldable pub apply : Pool → Ref → Outcome (Option Error)
  apply p (gain addr) = add_ref dial hang_up p addr
  apply p (lose addr) = release dial hang_up p addr

  abbrev pub ref_addr : Ref → String
  ref_addr (gain addr) = addr
  ref_addr (lose addr) = addr

  -- What a call makes of the count of its address. A first reference that cannot be dialled is none.
  unfoldable pub next_count : Ref → ℕ → ℕ
  next_count (gain addr) n = if n == 0 then elim (dial addr) [ none ↦ 1 | some e ↦ 0 ] else n + 1
  next_count (lose addr) n = n - 1

  pub record Counted (p : Pool) (op : Ref) (q : Pool) : Type 0 where
    pub in_service : IsOpen q
    pub same_self : q.self_addr ≡ p.self_addr
    pub counts :
        (a : String)
        → refs q a ≡ (if str_eq (ref_addr op) a then next_count op (refs p a) else refs p a)

  -- Binding an address to a positive count.
  insert-Counted :
      (p : Pool) (op : Ref) (k : ℕ)
      → IsOpen p
      → 0 < k
      → next_count op (refs p (ref_addr op)) ≡ k
      → Counted p op (record p { clients = insert str_eq (ref_addr op) k p.clients })
  insert-Counted p op k h hk e = record {
    in_service = record {
      open_flag = h.open_flag;
      unlocked = h.unlocked;
      used = AllUsed-insert (ref_addr op) k p.clients hk h.used;
    };
    same_self = refl;
    counts = λ a. count a;
  }
    where
      count :
          (a : String)
          → refs (record p { clients = insert str_eq (ref_addr op) k p.clients }) a
            ≡ (if str_eq (ref_addr op) a then next_count op (refs p a) else refs p a)
      count a =
          unfold refs in
          elim (Bool-cases (str_eq (ref_addr op) a)) [
            | inl same ↦
                rw (lookup-insert str_eq eq_iff, same)
                  (rw (← (eq_iff (ref_addr op) a).0 same) (sym e))
            | inr other ↦ rw (lookup-insert str_eq eq_iff, other) refl
          ]

  -- A call that leaves the pool as it was.
  same-Counted :
      (p : Pool) (op : Ref)
      → IsOpen p
      → next_count op (refs p (ref_addr op)) ≡ refs p (ref_addr op)
      → Counted p op p
  same-Counted p op h e = record { in_service = h; same_self = refl; counts = λ a. count a }
    where
      count :
          (a : String)
          → refs p a ≡ (if str_eq (ref_addr op) a then next_count op (refs p a) else refs p a)
      count a = elim (Bool-cases (str_eq (ref_addr op) a)) [
        | inl same ↦ rw same (rw (← (eq_iff (ref_addr op) a).0 same) (sym e))
        | inr other ↦ rw other refl
      ]

  erase-Counted :
      (p : Pool) (op : Ref)
      → IsOpen p
      → next_count op (refs p (ref_addr op)) ≡ 0
      → Counted p op (record p { clients = erase str_eq (ref_addr op) p.clients })
  erase-Counted p op h e = record {
    in_service = record {
      open_flag = h.open_flag;
      unlocked = h.unlocked;
      used = AllUsed-erase (ref_addr op) p.clients h.used;
    };
    same_self = refl;
    counts = λ a. count a;
  }
    where
      count :
          (a : String)
          → refs (record p { clients = erase str_eq (ref_addr op) p.clients }) a
            ≡ (if str_eq (ref_addr op) a then next_count op (refs p a) else refs p a)
      count a =
          unfold refs in
          elim (Bool-cases (str_eq (ref_addr op) a)) [
            | inl same ↦
                rw (lookup-erase str_eq eq_iff, same)
                  (rw (← (eq_iff (ref_addr op) a).0 same) (sym e))
            | inr other ↦ rw (lookup-erase str_eq eq_iff, other) refl
          ]

  abbrev pub Applied : Pool → Ref → Type 0
  Applied p op = (e : Option Error) × (q : Pool) × (apply p op ≡ returns e q) × Counted p op q

  pub gain-Counted :
      (p : Pool) (addr : String) → IsOpen p → IsCall p.self_addr (gain addr) → Applied p (gain addr)
  unfolding apply add_ref add_ref_locked
  gain-Counted p addr h peer = elim (Option-cases (lookup str_eq addr p.clients)) [
    | inl absent ↦ elim (Option-cases (dial addr)) [
      | inl dialled ↦ (
        none,
        record p { clients = insert str_eq addr 1 p.clients },
        ground arith,
        insert-Counted p (gain addr) 1 h (omega arith) (unfold next_count refs in ground arith),
      )
      | inr (e, failed) ↦ (
        some e,
        p,
        ground arith,
        same-Counted p (gain addr) h (unfold next_count refs in ground arith),
      )
    ]
    | inr (n, present) ↦
        let n_pos = lookup-pos addr p.clients n h.used present in
        (
          none,
          record p { clients = insert str_eq addr (n + 1) p.clients },
          ground arith,
          insert-Counted p (gain addr) (n + 1) h (omega arith)
              (unfold next_count refs in ground arith),
        )
  ]

  pub lose-Counted :
      (p : Pool) (addr : String) → IsOpen p → IsCall p.self_addr (lose addr) → Applied p (lose addr)
  unfolding apply release release_locked
  lose-Counted p addr h peer = elim (Option-cases (lookup str_eq addr p.clients)) [
    | inl absent ↦ (
      none,
      p,
      ground arith,
      same-Counted p (lose addr) h (unfold next_count refs in ground arith),
    )
    | inr (n, present) ↦ elim (Bool-cases (n - 1 == 0)) [
      | inl last ↦ (
        close_conn dial hang_up addr,
        record p { clients = erase str_eq addr p.clients },
        ground arith,
        erase-Counted p (lose addr) h (unfold next_count refs in ground arith),
      )
      | inr more ↦ (
        none,
        record p { clients = insert str_eq addr (n - 1) p.clients },
        ground arith,
        insert-Counted p (lose addr) (n - 1) h (ground arith)
            (unfold next_count refs in ground arith),
      )
    ]
  ]

  apply-Counted : (p : Pool) (op : Ref) → IsOpen p → IsCall p.self_addr op → Applied p op
  apply-Counted p (gain addr) h peer = gain-Counted p addr h peer
  apply-Counted p (lose addr) h peer = lose-Counted p addr h peer

  -- A sequence of calls; none if one blocks.
  unfoldable pub run : Pool → List Ref → Option Pool
  run p [] = some p
  run p (op ∷ ops) = elim (apply p op) [ returns e q ↦ run q ops | blocks ↦ none ]

  -- The count that a sequence of calls makes of an address.
  unfoldable pub total : List Ref → String → ℕ → ℕ
  total [] a n = n
  total (op ∷ ops) a n = total ops a (if str_eq (ref_addr op) a then next_count op n else n)

  -- In a pool in service no sequence of AddRef and Release calls blocks, if no address is empty and
  -- AddRef is not called with the node's own; the pool stays in service, with every kept connection
  -- referenced, and the references of each address are the running count of its calls, starting from
  -- those it had.
  pub run-refs :
      (ops : List Ref) (p : Pool)
      → IsOpen p
      → All (IsCall p.self_addr) ops
      → (q : Pool) × (run p ops ≡ some q)
        × IsOpen q
        × ((a : String) → refs q a ≡ total ops a (refs p a))
  unfolding run total
  run-refs [] p h peers = (p, refl, h, λ a. refl)
  run-refs (op ∷ ops) p h peers =
      let (e, q, applied, counted) = apply-Counted p op h peers.0 in
      let same : All (IsCall q.self_addr) ops =
        subst (λ s. All (IsCall s) ops) (sym counted.same_self) peers.1 in
      let (final, ran, service, counts) = run-refs ops q counted.in_service same in
      (final, rw (applied, run) ran, service, λ a. counts a ∙ ap (total ops a) (counted.counts a))
