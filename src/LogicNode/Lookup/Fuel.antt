-- ===== src/LogicNode/Lookup/Fuel.antt =====
-- Fuel that is enough for a node's calls of itself: the target's digits run out, and then currentI
-- is shifted to zero, from where it does not move.
use Prim.Native.String.{String}
use koorde_dht.Prelude.{
  ℕ, zero, suc, ◌+◌, ◌-◌, ◌*◌, ◌/◌, ◌%◌, ◌^◌, ◌≤◌, ◌<◌, ◌≡◌, refl, sym, ap, ap₂, subst, ◌∙◌, true,
  Option, arith, inl, inr, Option-cases, Bool-cases, leb,
}
use koorde_dht.Prelude.Powers.{pow-add, mod-mul}
use koorde_dht.Result.{Error, Result, ok}
use koorde_dht.Identifier.Space.{Ident}
use koorde_dht.Identifier.Space.Value.{IsSpace, value}
use koorde_dht.Identifier.Space.Valid.{IsId}
use koorde_dht.Identifier.Order.{equal, between}
use koorde_dht.Identifier.Order.Circle.{equal_iff, value-injective}
use koorde_dht.Identifier.Digits.Wide.{best_imaginary_simple_lem}
use koorde_dht.Domain.{ProtoNode}
use koorde_dht.RoutingTable.{RoutingTable, first_successor}
use koorde_dht.Pool.{Pool}
use koorde_dht.LogicNode.Context.{check_context}
use koorde_dht.LogicNode.Imaginary.{next_imaginary}
use koorde_dht.LogicNode.Imaginary.Walk.{next_imaginary_lem}
use koorde_dht.LogicNode.Lookup.{StepRequest, find_successor_step, find_successor_init}
use koorde_dht.LogicNode.Lookup.Ends.{ends, step-ends}
use native.Mathlib.Nat.{
  mul-mod_left, mul_assoc, mod-eq_of_lt, zero-mul, mul-one, add-zero, zero-mod, zero-div, mul_comm,
}

-- A multiple of 2^c is 0 modulo 2^b, if c is at least b.
multiple-zero : (q b c : ℕ) → b ≤ c → q * 2 ^ c % 2 ^ b ≡ 0
multiple-zero q b c h =
    ap (λ (t : ℕ). q * t % 2 ^ b)
      (ap (λ (t : ℕ). 2 ^ t) (let w : c ≡ c - b + b = omega arith in w) ∙ pow-add 2 (c - b) b)
    ∙ ap (λ (t : ℕ). t % 2 ^ b) (sym (mul_assoc q (2 ^ (c - b)) (2 ^ b)))
    ∙ mul-mod_left (q * 2 ^ (c - b)) (2 ^ b)

-- Shifting a multiple of 2^c by k more bits.
shift-multiple : (q b c k : ℕ) → q * 2 ^ c % 2 ^ b * 2 ^ k % 2 ^ b ≡ q * 2 ^ (c + k) % 2 ^ b
shift-multiple q b c k =
    mod-mul (2 ^ b) (q * 2 ^ c) (2 ^ k)
    ∙ ap (λ (t : ℕ). t % 2 ^ b)
        (mul_assoc q (2 ^ c) (2 ^ k) ∙ ap (λ (t : ℕ). q * t) (sym (pow-add 2 c k)))

module _ {W : Type 0} (ctx_err : W → Option Error)
    (rpc : W → String → StepRequest → W × Result (Option ProtoNode)) (rt : RoutingTable) {k : ℕ}
    (v : IsSpace rt.space k) (h8 : k ≤ 8) (hb : k ≤ rt.space.bits) where
  abbrev size : ℕ
  size = 2 ^ rt.space.bits

  next_numbers :
      (i t i' t' : Ident)
      → IsId rt.space i
      → IsId rt.space t
      → next_imaginary rt.space i t ≡ ok (i', t')
      → IsId rt.space i'
        × IsId rt.space t'
        × (value i' ≡ (2 ^ k * value i + value t / 2 ^ (rt.space.bits - k)) % size)
        × (value t' ≡ value t * 2 ^ k % size)
  next_numbers i t i' t' hi ht e =
      let (i1, t1, run, i_valid, t_valid, i_value, t_value) =
        next_imaginary_lem v h8 i t hb hi ht in
      let same : ◌≡◌ {A = Result (Ident × Ident)} (ok (i1, t1)) (ok (i', t')) = sym run ∙ e in
      let i_eq : i1 ≡ i' = cc in
      let t_eq : t1 ≡ t' = cc in
      (
        subst (IsId rt.space) i_eq i_valid,
        subst (IsId rt.space) t_eq t_valid,
        ap value (sym i_eq) ∙ i_value,
        ap value (sym t_eq) ∙ t_value,
      )

  -- With nothing left of kshift, a step only shifts currentI.
  shifted :
      (q c : ℕ) (i t i' t' : Ident)
      → IsId rt.space i
      → IsId rt.space t
      → value t ≡ 0
      → value i ≡ q * 2 ^ c % size
      → next_imaginary rt.space i t ≡ ok (i', t')
      → IsId rt.space i' × IsId rt.space t' × (value t' ≡ 0) × (value i' ≡ q * 2 ^ (c + k) % size)
  shifted q c i t i' t' hi ht t_zero i_multiple e =
      let (i_valid, t_valid, i_value, t_value) = next_numbers i t i' t' hi ht e in
      (
        i_valid,
        t_valid,
        t_value
            ∙ ap (λ (a : ℕ). a * 2 ^ k % size) t_zero
            ∙ ap (λ (a : ℕ). a % size) (zero-mul (2 ^ k))
            ∙ zero-mod size,
        i_value
            ∙ ap₂ (λ (a b : ℕ). (2 ^ k * a + b / 2 ^ (rt.space.bits - k)) % size) i_multiple t_zero
            ∙ ap₂ (λ (a b : ℕ). (a + b) % size) (mul_comm (2 ^ k) (q * 2 ^ c % size))
                (zero-div (2 ^ (rt.space.bits - k)))
            ∙ ap (λ (a : ℕ). a % size) (add-zero (q * 2 ^ c % size * 2 ^ k))
            ∙ shift-multiple q rt.space.bits c k,
      )

  drained :
      (fuel c q : ℕ) (target i t : Ident)
      → IsId rt.space i
      → IsId rt.space t
      → value t ≡ 0
      → value i ≡ q * 2 ^ c % size
      → rt.space.bits ≤ fuel + c
      → (p : Pool) (w : W)
      → ends (find_successor_step ctx_err rpc rt (suc fuel) target i t p w) ≡ true
  unfolding find_successor_step
  drained zero c q target i t hi ht t_zero i_multiple h =
      step-ends ctx_err rpc rt (λ i t. find_successor_step ctx_err rpc rt zero target i t) target i
        t
        (λ i' t' e moved.
          let (i_valid, t_valid, t_value, i_value) =
            shifted q c i t i' t' hi ht t_zero i_multiple e in
          let same : i' ≡ i = value-injective i_valid hi (
            i_value
            ∙ multiple-zero q rt.space.bits (c + k) (omega arith)
            ∙ sym (i_multiple ∙ multiple-zero q rt.space.bits c (omega arith))) in
          let found : equal i' i ≡ true = (equal_iff i' i).1 same in cc)
  drained (suc fuel) c q target i t hi ht t_zero i_multiple h =
      step-ends ctx_err rpc rt (λ i t. find_successor_step ctx_err rpc rt (suc fuel) target i t)
        target i t
        (λ i' t' e moved.
          let (i_valid, t_valid, t_value, i_value) =
            shifted q c i t i' t' hi ht t_zero i_multiple e in
          drained fuel (c + k) q target i' t' i_valid t_valid t_value i_value
            (omega (arith, v.log_pos)))

  draining :
      (fuel c q : ℕ) (target i t : Ident)
      → IsId rt.space i
      → IsId rt.space t
      → value t ≡ q * 2 ^ c % size
      → rt.space.bits + (rt.space.bits - c) ≤ fuel
      → (p : Pool) (w : W)
      → ends (find_successor_step ctx_err rpc rt (suc fuel) target i t p w) ≡ true
  unfolding find_successor_step
  draining zero c q target i t hi ht t_multiple h = absurd (omega (arith, v.bits_pos))
  draining (suc fuel) c q target i t hi ht t_multiple h = elim (Bool-cases (leb rt.space.bits c)) [
    | inl gone ↦
        drained (suc fuel) 0 (value i) target i t hi ht
          (t_multiple ∙ multiple-zero q rt.space.bits c (ground arith))
          (sym (ap (λ (a : ℕ). a % size) (mul-one (value i)) ∙ mod-eq_of_lt hi.below)) (omega arith)
    | inr left ↦
        let lt : c < rt.space.bits = ground arith in
        step-ends ctx_err rpc rt (λ i t. find_successor_step ctx_err rpc rt (suc fuel) target i t)
          target i t
          (λ i' t' e moved.
            let (i_valid, t_valid, i_value, t_value) = next_numbers i t i' t' hi ht e in
            draining fuel (c + k) q target i' t' i_valid t_valid
              (t_value
                ∙ ap (λ (a : ℕ). a * 2 ^ k % size) t_multiple
                ∙ shift-multiple q rt.space.bits c k)
              (omega (arith, lt, h, v.log_pos)))
  ]

  -- In a space whose digits have k bits, at most 8 and at most Bits, FindSuccessorStep with valid
  -- currentI and kshift returns or blocks on the pool after at most 2 * Bits + 1 steps at this node,
  -- whatever the other nodes answer: a node does not call itself for ever.
  pub find_successor_step-ends :
      (fuel : ℕ) (target i t : Ident)
      → 2 * rt.space.bits < fuel
      → IsId rt.space i
      → IsId rt.space t
      → (p : Pool) (w : W) → ends (find_successor_step ctx_err rpc rt fuel target i t p w) ≡ true
  find_successor_step-ends zero target i t h hi ht p w = absurd (omega arith)
  find_successor_step-ends (suc fuel) target i t h hi ht p w =
      draining fuel 0 (value t) target i t hi ht
        (sym (ap (λ (a : ℕ). a % size) (mul-one (value t)) ∙ mod-eq_of_lt ht.below)) (omega arith) p
        w

  pub find_successor_init-ends :
      (fuel : ℕ) (target : Ident)
      → 2 * rt.space.bits < fuel
      → IsId rt.space rt.self.id
      → IsId rt.space target
      → (p : Pool) (w : W) → ends (find_successor_init ctx_err rpc rt fuel target p w) ≡ true
  unfolding find_successor_init
  find_successor_init-ends fuel target h hs ht p w =
      elim (Option-cases (check_context (ctx_err w))) [
        | inr (e, over) ↦ rw (find_successor_init, over) refl
        | inl fine ↦
            rw (find_successor_init, fine)
              (elim (Option-cases (first_successor rt)) [
                | inl unset ↦ rw unset refl
                | inr (succ, known) ↦
                    rw known (elim (Bool-cases (between target rt.self.id succ.id)) [
                      | inl near ↦ rw near refl
                      | inr far ↦
                          let (i, start, i_valid, number) =
                            best_imaginary_simple_lem v succ.id target hs in
                          rw far (
                            rw start
                              (find_successor_step-ends fuel target i target h i_valid ht p w))
                    ])
              ])
      ]
