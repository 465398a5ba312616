-- ===== src/LogicNode/Lookup/Ends.antt =====
-- The lookup at one node ends.
use Prim.Native.String.{String}
use koorde_dht.Prelude.{
  ℕ, zero, suc, ◌≡◌, refl, Bool, true, false, List, [], ◌∷◌, Option, none, some, arith, map,
  get_elem?, Option-cases, Bool-cases, inl, inr,
}
use koorde_dht.Prelude.Int.{ℤ, pos, negsuc}
use koorde_dht.Result.{Error, Result, ok, err, panic}
use koorde_dht.Identifier.Space.{Ident}
use koorde_dht.Identifier.Order.{equal}
use koorde_dht.Domain.{Node, ProtoNode}
use koorde_dht.RoutingTable.{RoutingTable, first_successor, de_bruijn_list}
use koorde_dht.Pool.{Pool, Outcome, returns, blocks, get_from_pool}
use koorde_dht.LogicNode.Context.{check_context}
use koorde_dht.LogicNode.Imaginary.{next_imaginary}
use koorde_dht.LogicNode.Hops.Skips.{find_next_hop_ends}
use koorde_dht.LogicNode.Lookup.{
  StepRequest, Lookup, done, blocked, running, remote_step, to_successor, shadowed, interrupted,
  after_answer, after_lookup, try_hops, de_bruijn_hop, step,
}

-- The lookup returns or blocks.
abbrev pub ends : {W : Type 0} → Lookup W → Bool
ends (done res p w) = true
ends blocked = true
ends running = false

module _ {W : Type 0} (ctx_err : W → Option Error)
    (rpc : W → String → StepRequest → W × Result (Option ProtoNode)) (rt : RoutingTable) where
  AlwaysEnds : (Pool → W → Lookup W) → Type 0
  AlwaysEnds f = (p : Pool) (w : W) → ends (f p w) ≡ true

  to_successor-ends :
      (succ : Node) (target i t : Ident) (p : Pool) (w : W)
      → ends (to_successor ctx_err rpc rt p w succ target i t) ≡ true
  unfolding to_successor
  to_successor-ends succ target i t p w = ground arith

  interrupted-ends : (p : Pool) (w : W) → ends (interrupted ctx_err rpc rt p w) ≡ true
  unfolding interrupted
  interrupted-ends p w = ground arith

  after_answer-ends :
      (previous : Pool → W → Lookup W)
      → AlwaysEnds previous
      → (res : Result (Option Node)) (p : Pool) (w : W)
      → ends (after_answer ctx_err rpc rt previous res p w) ≡ true
  unfolding after_answer AlwaysEnds
  after_answer-ends previous h (ok (some n)) p w = refl
  after_answer-ends previous h (ok none) p w = ground (arith, h p w, interrupted-ends p w)
  after_answer-ends previous h (err e) p w = ground (arith, h p w, interrupted-ends p w)
  after_answer-ends previous h panic p w = refl

  after_lookup-ends :
      (previous : Pool → W → Lookup W)
      → AlwaysEnds previous
      → (l : Lookup W) → ends l ≡ true
      → ends (after_lookup ctx_err rpc rt previous l) ≡ true
  unfolding after_lookup
  after_lookup-ends previous h (done res p w) e = after_answer-ends previous h res p w
  after_lookup-ends previous h blocked e = refl
  after_lookup-ends previous h running e = cc

  try_hops-ends :
      (again fallback : Pool → W → Lookup W) (bruijn : List Node) (target i t : Ident) (n : ℕ)
      → AlwaysEnds again
      → AlwaysEnds fallback
      → AlwaysEnds (try_hops ctx_err rpc rt again fallback bruijn target i t n)
  unfolding try_hops AlwaysEnds
  try_hops-ends again fallback bruijn target i t zero ha hf p w = hf p w
  try_hops-ends again fallback bruijn target i t (suc n) ha hf p w =
      let previous = try_hops ctx_err rpc rt again fallback bruijn target i t n in
      let h : AlwaysEnds previous = try_hops-ends again fallback bruijn target i t n ha hf in
      elim (Option-cases (get_elem? bruijn n)) [
        | inl out ↦ rw (try_hops, out) refl
        | inr (d, here) ↦ elim (Bool-cases (equal d.id rt.self.id)) [
          | inl own ↦
              rw (try_hops, here) (rw own (after_lookup-ends previous h (again p w) (ha p w)))
          | inr other ↦
              rw (try_hops, here) (rw other (remote previous h d (get_from_pool p d.addr)))
        ]
      ]
    where
      remote :
          (previous : Pool → W → Lookup W)
          → AlwaysEnds previous
          → (d : Node) (got : Outcome (Option Error))
          → ends (elim got [
            | blocks ↦ blocked
            | returns (some e) q ↦ previous q w
            | returns none q ↦
                let (later, res) = remote_step ctx_err rpc rt w d.addr target i t in
                after_answer ctx_err rpc rt previous (shadowed ctx_err rpc rt res) q later
          ])
            ≡ true
      remote previous h d blocks = refl
      remote previous h d (returns (some e) q) = h q w
      remote previous h d (returns none q) = after_answer-ends previous h _ q _

  -- Every hop ends if the node's own next step does.
  de_bruijn_hop-ends :
      (again : Ident → Ident → Pool → W → Lookup W) (succ : Node) (target i t : Ident)
      → ((i' t' : Ident)
          → next_imaginary rt.space i t ≡ ok (i', t')
          → equal i' i ≡ false
          → AlwaysEnds (again i' t'))
      → AlwaysEnds (de_bruijn_hop ctx_err rpc rt again succ target i t)
  unfolding AlwaysEnds de_bruijn_hop
  de_bruijn_hop-ends again succ target i t h p w = by_next (next_imaginary rt.space i t) refl
    where
      by_found :
          (i' t' : Ident) (d : Node) (ds : List Node) (z : ℤ)
          → AlwaysEnds (again i' t')
          → ends (elim z [
            | negsuc m ↦ to_successor ctx_err rpc rt p w succ target i' t'
            | pos k ↦
                try_hops ctx_err rpc rt
                  (again i' t')
                  (λ (q : Pool) (v : W). to_successor ctx_err rpc rt q v succ target i' t')
                  (d ∷ ds)
                  target
                  i'
                  t'
                  (suc k)
                  p
                  w
          ])
            ≡ true
      by_found i' t' d ds (negsuc m) ha = to_successor-ends succ target i' t' p w
      by_found i' t' d ds (pos k) ha =
          try_hops-ends (again i' t') _ (d ∷ ds) target i' t' (suc k) ha
            (λ q v. to_successor-ends succ target i' t' q v) p w

      by_list :
          (i' t' : Ident) (l : List Node)
          → next_imaginary rt.space i t ≡ ok (i', t')
          → de_bruijn_list rt ≡ l
          → ends (de_bruijn_hop ctx_err rpc rt again succ target i t p w) ≡ true
      by_list i' t' [] e el =
          rw (de_bruijn_hop, e) (rw el (to_successor-ends succ target i' t' p w))
      by_list i' t' (d ∷ ds) e el =
          rw (de_bruijn_hop, e)
            (rw el (elim (Bool-cases (equal i' i)) [
              | inl same ↦ rw same refl
              | inr moved ↦
                  let (z, found) = find_next_hop_ends (map some (d ∷ ds)) i' in
                  rw moved (rw found (by_found i' t' d ds z (h i' t' e moved)))
            ]))

      by_next :
          (r : Result (Ident × Ident))
          → next_imaginary rt.space i t ≡ r
          → ends (de_bruijn_hop ctx_err rpc rt again succ target i t p w) ≡ true
      by_next (ok (i', t')) e = by_list i' t' (de_bruijn_list rt) e refl
      by_next (err x) e = rw (de_bruijn_hop, e) refl
      by_next panic e = rw (de_bruijn_hop, e) refl

  -- A step that cannot move on ends, and so does one whose own next step ends.
  pub step-ends :
      (again : Ident → Ident → Pool → W → Lookup W) (target i t : Ident)
      → ((i' t' : Ident)
          → next_imaginary rt.space i t ≡ ok (i', t')
          → equal i' i ≡ false
          → (p : Pool) (w : W) → ends (again i' t' p w) ≡ true)
      → (p : Pool) (w : W) → ends (step ctx_err rpc rt again target i t p w) ≡ true
  unfolding step AlwaysEnds
  step-ends again target i t h p w = elim (Option-cases (check_context (ctx_err w))) [
    | inr (e, over) ↦ rw (step, over) refl
    | inl fine ↦
        rw (step, fine)
          (elim (Option-cases (first_successor rt)) [
            | inl unset ↦ rw (unset, step) refl
            | inr (succ, known) ↦
                rw (known, step)
                  (ground (
                    arith,
                    de_bruijn_hop-ends again succ target i t h p w,
                    to_successor-ends succ target i t p w,
                  ))
          ])
  ]
