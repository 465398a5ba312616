-- ===== src/LogicNode/Lookup/Pools.antt =====
-- A lookup reads the pool and leaves it as it was.
use Prim.Native.String.{String}
use koorde_dht.Prelude.{
  ℕ, zero, suc, ◌≡◌, ◌⊎◌, refl, true, false, ◌||◌, List, [], ◌∷◌, Option, none, some, map, inl, inr,
  Bool-cases, Option-cases, get_elem?,
}
use koorde_dht.Prelude.Int.{pos, negsuc}
use koorde_dht.Result.{Error, Result, ok, err, panic, Result-cases}
use koorde_dht.Identifier.Space.{Ident}
use koorde_dht.Identifier.Order.{equal, between}
use koorde_dht.Identifier.Digits.{best_imaginary_simple}
use koorde_dht.Domain.{Node, ProtoNode}
use koorde_dht.RoutingTable.{RoutingTable, first_successor, de_bruijn_list}
use koorde_dht.Pool.{Pool}
use koorde_dht.Pool.Counts.{IsOpen}
use koorde_dht.Pool.Tally.{get_from_pool-cases}
use koorde_dht.LogicNode.Context.{check_context, is_deadline, is_canceled}
use koorde_dht.LogicNode.Imaginary.{next_imaginary}
use koorde_dht.LogicNode.Hops.{find_next_hop}
use koorde_dht.LogicNode.Lookup.{
  StepRequest, Lookup, done, blocked, running, looping, to_successor, interrupted, after_answer,
  after_lookup, try_hops, de_bruijn_hop, step, find_successor_step, find_successor_init,
}

-- The lookup is not blocked on the pool, and leaves p.
unfoldable pub LeavesPool : {W : Type 0} → Pool → Lookup W → Type 0
LeavesPool p (done res q w) = q ≡ p
LeavesPool p blocked = ⊥
LeavesPool p running = Unit {0}

module _ {W : Type 0} (ctx_err : W → Option Error)
    (rpc : W → String → StepRequest → W × Result (Option ProtoNode)) (rt : RoutingTable) (p : Pool)
    (h : IsOpen p) where
  abbrev LeavesAt : (Pool → W → Lookup W) → Type 0
  LeavesAt f = (w : W) → LeavesPool p (f p w)

  to_successor-LeavesPool :
      (w : W) (succ : Node) (target i t : Ident)
      → LeavesPool p (to_successor ctx_err rpc rt p w succ target i t)
  unfolding to_successor LeavesPool
  to_successor-LeavesPool w succ target i t = elim (get_from_pool-cases p succ.addr h) [
    | inl got ↦ rw (to_successor, got) refl
    | inr (e, got) ↦ rw (to_successor, got) refl
  ]

  interrupted-LeavesPool : LeavesAt (interrupted ctx_err rpc rt)
  unfolding interrupted LeavesPool
  interrupted-LeavesPool w = elim (Option-cases (ctx_err w)) [
    | inl alive ↦ rw (interrupted, alive) refl
    | inr (e, over) ↦ rw (interrupted, over) refl
  ]

  after_answer-LeavesPool :
      (previous : Pool → W → Lookup W) (res : Result (Option Node)) (w : W)
      → LeavesAt previous
      → LeavesPool p (after_answer ctx_err rpc rt previous res p w)
  unfolding after_answer LeavesPool
  after_answer-LeavesPool previous (ok (some n)) w hp = refl
  after_answer-LeavesPool previous panic w hp = refl
  after_answer-LeavesPool previous (ok none) w hp = elim (Option-cases (ctx_err w)) [
    | inl alive ↦ rw (after_answer, alive) (hp w)
    | inr (e, over) ↦ rw (after_answer, over) (interrupted-LeavesPool w)
  ]
  after_answer-LeavesPool previous (err e) w hp =
      elim (Bool-cases (is_deadline e || is_canceled e)) [
        | inl stops ↦ rw (after_answer, stops) (interrupted-LeavesPool w)
        | inr goes ↦ elim (Option-cases (ctx_err w)) [
          | inl alive ↦ rw (after_answer, goes) (rw alive (hp w))
          | inr (c, over) ↦ rw (after_answer, goes) (rw over (interrupted-LeavesPool w))
        ]
      ]

  after_lookup-LeavesPool :
      (previous : Pool → W → Lookup W) (l : Lookup W)
      → LeavesAt previous
      → LeavesPool p l
      → LeavesPool p (after_lookup ctx_err rpc rt previous l)
  unfolding after_lookup LeavesPool
  after_lookup-LeavesPool previous (done res q w) hp same =
      rw same (after_answer-LeavesPool previous res w hp)
  after_lookup-LeavesPool previous blocked hp same = same
  after_lookup-LeavesPool previous running hp same = tt

  try_hops-LeavesPool :
      (again fallback : Pool → W → Lookup W) (bruijn : List Node) (target i t : Ident) (n : ℕ)
      → LeavesAt again
      → LeavesAt fallback
      → LeavesAt (try_hops ctx_err rpc rt again fallback bruijn target i t n)
  unfolding try_hops
  try_hops-LeavesPool again fallback bruijn target i t zero ha hf w = hf w
  try_hops-LeavesPool again fallback bruijn target i t (suc n) ha hf w =
      let previous = try_hops-LeavesPool again fallback bruijn target i t n ha hf in
      elim (Option-cases (get_elem? bruijn n)) [
        | inl out ↦ rw (try_hops, out) (unfold LeavesPool in refl)
        | inr (d, found) ↦ elim (Bool-cases (equal d.id rt.self.id)) [
          | inl own ↦ rw (try_hops, found) (rw own (after_lookup-LeavesPool _ _ previous (ha w)))
          | inr other ↦ elim (get_from_pool-cases p d.addr h) [
            | inl got ↦
                rw (try_hops, found) (rw other (rw got (after_answer-LeavesPool _ _ _ previous)))
            | inr (e, got) ↦ rw (try_hops, found) (rw other (rw got (previous w)))
          ]
        ]
      ]

  -- The hop to the next imaginary node, over the window's nodes.
  hop-LeavesPool :
      (again : Ident → Ident → Pool → W → Lookup W) (succ : Node) (target i j u : Ident) (w : W)
      → ((j u : Ident) → LeavesAt (again j u))
      → (bruijn : List Node)
      → LeavesPool p (elim bruijn [
        | [] ↦ to_successor ctx_err rpc rt p w succ target j u
        | d ∷ ds ↦ elim (equal j i) [
          | true ↦ done (err (looping ctx_err rpc rt)) p w
          | false ↦ elim (find_next_hop (map some (d ∷ ds)) j) [
            | none ↦ running
            | some (negsuc m) ↦ to_successor ctx_err rpc rt p w succ target j u
            | some (pos k) ↦
                try_hops ctx_err rpc rt
                  (again j u)
                  (λ (q : Pool) (v : W). to_successor ctx_err rpc rt q v succ target j u)
                  (d ∷ ds)
                  target
                  j
                  u
                  (suc k)
                  p
                  w
          ]
        ]
      ])
  unfolding LeavesPool
  hop-LeavesPool again succ target i j u w ha [] = to_successor-LeavesPool w succ target j u
  hop-LeavesPool again succ target i j u w ha (d ∷ ds) = elim (Bool-cases (equal j i)) [
    | inl same ↦ rw same refl
    | inr other ↦ rw other (elim (Option-cases (find_next_hop (map some (d ∷ ds)) j)) [
      | inl endless ↦ rw endless tt
      | inr (negsuc m, found) ↦ rw found (to_successor-LeavesPool w succ target j u)
      | inr (pos k, found) ↦ rw found (
          try_hops-LeavesPool _ _ (d ∷ ds) target j u (suc k) (ha j u)
            (λ v. to_successor-LeavesPool v succ target j u) w)
    ])
  ]

  de_bruijn_hop-LeavesPool :
      (again : Ident → Ident → Pool → W → Lookup W) (succ : Node) (target i t : Ident) (w : W)
      → ((j u : Ident) → LeavesAt (again j u))
      → LeavesPool p (de_bruijn_hop ctx_err rpc rt again succ target i t p w)
  unfolding de_bruijn_hop LeavesPool
  de_bruijn_hop-LeavesPool again succ target i t w ha =
      elim (Result-cases (next_imaginary rt.space i t)) [
        | inr (inl (e, failed)) ↦ rw (de_bruijn_hop, failed) refl
        | inr (inr crashed) ↦ rw (de_bruijn_hop, crashed) refl
        | inl ((j, u), next) ↦
            rw (de_bruijn_hop, next)
              (hop-LeavesPool again succ target i j u w ha (de_bruijn_list rt))
      ]

  step-LeavesPool :
      (again : Ident → Ident → Pool → W → Lookup W) (target i t : Ident) (w : W)
      → ((j u : Ident) → LeavesAt (again j u))
      → LeavesPool p (step ctx_err rpc rt again target i t p w)
  unfolding step LeavesPool
  step-LeavesPool again target i t w ha = elim (Option-cases (check_context (ctx_err w))) [
    | inr (e, over) ↦ rw (step, over) refl
    | inl alive ↦ elim (Option-cases (first_successor rt)) [
      | inl absent ↦ rw (step, alive) (rw absent refl)
      | inr (succ, there) ↦ elim (Bool-cases (between target rt.self.id succ.id)) [
        | inl here ↦ rw (step, alive) (rw there (rw here refl))
        | inr on ↦ elim (Bool-cases (between i rt.self.id succ.id)) [
          | inl hops ↦
              rw (step, alive)
                (rw there (rw on (rw hops (de_bruijn_hop-LeavesPool again succ target i t w ha))))
          | inr forward ↦
              rw (step, alive)
                (rw there (rw on (rw forward (to_successor-LeavesPool w succ target i t))))
        ]
      ]
    ]
  ]

  find_successor_step-LeavesPool :
      (fuel : ℕ) (target i t : Ident)
      → LeavesAt (find_successor_step ctx_err rpc rt fuel target i t)
  unfolding find_successor_step LeavesPool
  find_successor_step-LeavesPool zero target i t w = tt
  find_successor_step-LeavesPool (suc fuel) target i t w =
      step-LeavesPool _ target i t w (λ j u. find_successor_step-LeavesPool fuel target j u)

  -- A lookup in a node whose pool is in service does not block, and leaves the pool as it was.
  pub find_successor_init-LeavesPool :
      (fuel : ℕ) (target : Ident) (w : W)
      → LeavesPool p (find_successor_init ctx_err rpc rt fuel target p w)
  unfolding find_successor_init LeavesPool
  find_successor_init-LeavesPool fuel target w = elim (Option-cases (check_context (ctx_err w))) [
    | inr (e, over) ↦ rw (find_successor_init, over) refl
    | inl alive ↦ elim (Option-cases (first_successor rt)) [
      | inl absent ↦ rw (find_successor_init, alive) (rw absent refl)
      | inr (succ, there) ↦ elim (Bool-cases (between target rt.self.id succ.id)) [
        | inl here ↦ rw (find_successor_init, alive) (rw there (rw here refl))
        | inr on ↦ elim (Result-cases (best_imaginary_simple rt.space rt.self.id succ.id target)) [
          | inl ((i, t), start) ↦
              rw (find_successor_init, alive)
                (rw there (rw on (rw start (find_successor_step-LeavesPool fuel target i t w))))
          | inr (inl (e, failed)) ↦
              rw (find_successor_init, alive) (rw there (rw on (rw failed refl)))
          | inr (inr crashed) ↦ rw (find_successor_init, alive) (rw there (rw on (rw crashed refl)))
        ]
      ]
    ]
  ]

-- What a lookup that leaves the pool comes to.
pub LeavesPool-cases :
    {W : Type 0} (p : Pool) (l : Lookup W)
    → LeavesPool p l
    → ((res : Result (Option Node)) × (w : W) × (l ≡ done res p w)) ⊎ (l ≡ running)
unfolding LeavesPool
LeavesPool-cases p (done res q w) same = inl (res, w, rw same refl)
LeavesPool-cases p running same = inr refl
LeavesPool-cases p blocked same = absurd same
