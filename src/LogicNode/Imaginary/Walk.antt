-- ===== src/LogicNode/Imaginary/Walk.antt =====
-- Each imaginary step shifts one digit of the target in, so the walk arrives at the target.
use koorde_dht.Prelude.{
  ℕ, zero, suc, ◌+◌, ◌-◌, ◌*◌, ◌/◌, ◌%◌, ◌^◌, ◌≤◌, ◌<◌, ◌≡◌, refl, sym, ap, ap₂, subst, ◌∙◌, arith,
}
use koorde_dht.Prelude.Powers.{pow-add, pow_pos, mod_unique, div_unique, mod-mul}
use koorde_dht.Result.{ok}
use koorde_dht.Identifier.Space.{Space, Ident, from_uint64, zero_id}
use koorde_dht.Identifier.Space.Value.{IsSpace, value}
use koorde_dht.Identifier.Space.Valid.{IsId, from_uint64_lem, zero_id_lem}
use koorde_dht.Identifier.Order.Circle.{value-injective}
use koorde_dht.Identifier.Arith.Mod.{mul_k_mod_lem, add_mod_lem}
use koorde_dht.Identifier.Digits.Next.{next_digit_base_k_lem}
use koorde_dht.LogicNode.Imaginary.{next_imaginary, walk}
use native.Mathlib.Nat.{
  zero-mul, pow-le-pow_right, mod-lt, div-add-mod', mod-eq_of_lt, add-mul-mod_self_right,
  add-mod-mod, mod-add-mod, div-eq_of_lt, add-zero, mul-one, mul_assoc, mul-add-mod_self_left,
  mul-mod_left, div-one,
}

rest_shift : (d r v a b c : ℕ) → d * (a * c) + r ≡ v → v * b ≡ r * b + d * (a * b * c)
rest_shift d r v a b c e = grind arith

scaled : (q s r a b : ℕ) → q * a + s ≡ r → r * b ≡ s * b + q * (a * b)
scaled q s r a b e = grind arith

scaled_fits : (s a b : ℕ) → 0 < b → s < a → s * b < a * b
scaled_fits s a b hb h = grind arith

rest_fits : (r a b c : ℕ) → 0 < b → r < a * c → r * b < a * b * c
rest_fits r a b c hb h = subst (λ t. r * b < t) (swap a b c) (scaled_fits r (a * c) b hb h)
  where
    swap : (a b c : ℕ) → a * c * b ≡ a * b * c
    swap a b c = grind arith

two_digits : (d q s r v a c : ℕ) → q * a + s ≡ r → d * (a * c) + r ≡ v → v ≡ s + (d * c + q) * a
two_digits d q s r v a c e f = grind arith

collect :
    (b c x d q n t m : ℕ) → t * n + m ≡ b * x + d → b * c * x + (d * c + q) ≡ c * m + q + c * t * n
collect b c x d q n t m e = distribute (ap (λ (s : ℕ). c * s) e)
  where
    distribute : c * (t * n + m) ≡ c * (b * x + d) → b * c * x + (d * c + q) ≡ c * m + q + c * t * n
    distribute e = grind arith

-- The digits of v that c * b rounds shift into x, one round at first: b is a digit's weight.
shift_digits :
    (a b c x v : ℕ)
    → 0 < a
    → 0 < b
    → 0 < c
    → (c * ((b * x + v / (a * c)) % (a * b * c)) + v * b % (a * b * c) / (a * b)) % (a * b * c)
      ≡ (b * c * x + v / a) % (a * b * c)
shift_digits a b c x v ha hb hc =
    let n = a * b * c in
    let d = v / (a * c) in
    let r = v % (a * c) in
    let whole : d * (a * c) + r ≡ v = div-add-mod' v (a * c) in
    let part : r / a * a + r % a ≡ r = div-add-mod' r a in
    let r_lt : r < a * c = mod-lt v (product a c ha hc) in
    let rest : v * b % n ≡ r * b =
      mod_unique (v * b) n d (r * b) (rest_shift d r v a b c whole) (rest_fits r a b c hb r_lt) in
    let next : r * b / (a * b) ≡ r / a =
      div_unique (r * b) (a * b) (r / a) (r % a * b) (scaled (r / a) (r % a) r a b part)
        (scaled_fits (r % a) a b hb (mod-lt r ha)) in
    let top : v / a ≡ d * c + r / a =
      div_unique v a (d * c + r / a) (r % a) (two_digits d (r / a) (r % a) r v a c part whole)
        (mod-lt r ha) in
    let m = (b * x + d) % n in
    ap (λ (t : ℕ). (c * m + t) % n) (ap (λ (t : ℕ). t / (a * b)) rest ∙ next)
    ∙ sym (
        ap (λ (t : ℕ). (b * c * x + t) % n) top
        ∙ ap (λ (t : ℕ). t % n)
            (collect b c x d (r / a) n ((b * x + d) / n) m (div-add-mod' (b * x + d) n))
        ∙ add-mul-mod_self_right (c * m + r / a) (c * ((b * x + d) / n)) n)
  where
    product : (a c : ℕ) → 0 < a → 0 < c → 0 < a * c
    product a c ha hc = grind arith

-- One round of k bits, and then j bits.
round_number :
    (bits k j x v : ℕ)
    → k + j ≤ bits
    → (2 ^ j * ((2 ^ k * x + v / 2 ^ (bits - k)) % 2 ^ bits)
          + v * 2 ^ k % 2 ^ bits / 2 ^ (bits - j))
        % 2 ^ bits
      ≡ (2 ^ (k + j) * x + v / 2 ^ (bits - (k + j))) % 2 ^ bits
round_number bits k j x v h =
    rw (whole, without_k, without_j, pow-add 2 k j)
      (shift_digits (2 ^ (bits - (k + j))) (2 ^ k) (2 ^ j) x v (pow_pos _) (pow_pos k) (pow_pos j))
  where
    split : (a b c : ℕ) → c ≡ a + b → 2 ^ c ≡ 2 ^ a * 2 ^ b
    split a b c e = ap (λ (t : ℕ). 2 ^ t) e ∙ pow-add 2 a b

    without_k : 2 ^ (bits - k) ≡ 2 ^ (bits - (k + j)) * 2 ^ j
    without_k = split (bits - (k + j)) j (bits - k) (omega arith)

    without_j : 2 ^ (bits - j) ≡ 2 ^ (bits - (k + j)) * 2 ^ k
    without_j = split (bits - (k + j)) k (bits - j) (omega arith)

    whole : 2 ^ bits ≡ 2 ^ (bits - (k + j)) * 2 ^ k * 2 ^ j
    whole = split (bits - j) j bits (omega arith) ∙ ap (λ (t : ℕ). t * 2 ^ j) without_j

module _ {sp : Space} {k : ℕ} (v : IsSpace sp k) (h8 : k ≤ 8) where
  -- If a digit has k bits, at most 8 and at most Bits, then a step from valid currentI and kshift
  -- succeeds: nextI is 2^k * currentI plus the k top bits of kshift, and nextKshift is kshift shifted
  -- left by k bits, both modulo 2^Bits.
  pub next_imaginary_lem :
      (i t : Ident)
      → k ≤ sp.bits
      → IsId sp i
      → IsId sp t
      → (i' : Ident) × (t' : Ident) × (next_imaginary sp i t ≡ ok (i', t'))
        × IsId sp i'
        × IsId sp t'
        × (value i' ≡ (2 ^ k * value i + value t / 2 ^ (sp.bits - k)) % 2 ^ sp.bits)
        × (value t' ≡ value t * 2 ^ k % 2 ^ sp.bits)
  next_imaginary_lem i t hb hi ht =
      let (t', shift, t_valid, t_value) = next_digit_base_k_lem v ht h8 hb in
      let digit = value t / 2 ^ (sp.bits - k) in
      let (s, mul, s_valid, s_value) = mul_k_mod_lem v i (grade_le v.grade_eq) hi in
      let (d_valid, d_value) = from_uint64_lem v digit in
      let (i', add, i_valid, i_value) = add_mod_lem v s (from_uint64 sp digit) s_valid d_valid in
      (
        i',
        t',
        unfold next_imaginary in rw shift (rw mul (rw add refl)),
        i_valid,
        t_valid,
        i_value
            ∙ ap₂ (λ (a b : ℕ). (a + b) % 2 ^ sp.bits) s_value d_value
            ∙ mod-add-mod (sp.graph_grade * value i) (2 ^ sp.bits) (digit % 2 ^ sp.bits)
            ∙ add-mod-mod (sp.graph_grade * value i) digit (2 ^ sp.bits)
            ∙ ap (λ (g : ℕ). (g * value i + digit) % 2 ^ sp.bits) v.grade_eq,
        t_value,
      )
    where
      grade_le : sp.graph_grade ≡ 2 ^ k → sp.graph_grade ≤ 2 ^ 56
      grade_le e =
          rw e (pow-le-pow_right (let w : 0 < 2 = omega arith in w) {j = 56} (omega (arith, h8)))

  -- After m steps whose digits fit in Bits bits, currentI is the target's m * k top bits shifted into
  -- the start.
  walk_lem :
      (m : ℕ) (i t : Ident)
      → m * k ≤ sp.bits
      → IsId sp i
      → IsId sp t
      → (i' : Ident) × (t' : Ident) × (walk sp m i t ≡ ok (i', t'))
        × IsId sp i'
        × IsId sp t'
        × (value i' ≡ (2 ^ (m * k) * value i + value t / 2 ^ (sp.bits - m * k)) % 2 ^ sp.bits)
        × (value t' ≡ value t * 2 ^ (m * k) % 2 ^ sp.bits)
  unfolding walk
  walk_lem zero i t hm hi ht = (
    i,
    t,
    refl,
    hi,
    ht,
    sym (
        ap₂ (λ (j b : ℕ). (2 ^ j * value i + value t / 2 ^ b) % 2 ^ sp.bits) (zero-mul k) all_left
        ∙ ap (λ (a : ℕ). (a + value t / 2 ^ sp.bits) % 2 ^ sp.bits) (one_mul (value i))
        ∙ ap (λ (a : ℕ). (value i + a) % 2 ^ sp.bits) (div-eq_of_lt ht.below)
        ∙ ap (λ (a : ℕ). a % 2 ^ sp.bits) (add-zero (value i))
        ∙ mod-eq_of_lt hi.below),
    sym (
        ap (λ (j : ℕ). value t * 2 ^ j % 2 ^ sp.bits) (zero-mul k)
        ∙ ap (λ (a : ℕ). a % 2 ^ sp.bits) (mul-one (value t))
        ∙ mod-eq_of_lt ht.below),
  )
    where
      one_mul : (a : ℕ) → 1 * a ≡ a
      one_mul a = omega arith

      all_left : sp.bits - 0 * k ≡ sp.bits
      all_left = omega (arith, zero-mul k)
  walk_lem (suc m) i t hm hi ht =
      let (i1, t1, step, i1_valid, t1_valid, i1_value, t1_value) =
        next_imaginary_lem i t (le_of_sum m k sp.bits hm).0 hi ht in
      let (i', t', rest, i_valid, t_valid, i_value, t_value) =
        walk_lem m i1 t1 (le_of_sum m k sp.bits hm).1 i1_valid t1_valid in
      (
        i',
        t',
        rw step rest,
        i_valid,
        t_valid,
        i_value
            ∙ ap₂ (λ (a b : ℕ). (2 ^ (m * k) * a + b / 2 ^ (sp.bits - m * k)) % 2 ^ sp.bits)
                i1_value t1_value
            ∙ round_number sp.bits k (m * k) (value i) (value t) (rw (← one_more) hm)
            ∙ ap (λ (j : ℕ). (2 ^ j * value i + value t / 2 ^ (sp.bits - j)) % 2 ^ sp.bits)
                (sym one_more),
        t_value
            ∙ ap (λ (a : ℕ). a * 2 ^ (m * k) % 2 ^ sp.bits) t1_value
            ∙ mod-mul (2 ^ sp.bits) (value t * 2 ^ k) (2 ^ (m * k))
            ∙ ap (λ (a : ℕ). a % 2 ^ sp.bits)
                (mul_assoc (value t) (2 ^ k) (2 ^ (m * k))
                  ∙ ap (λ (a : ℕ). value t * a)
                      (sym (ap (λ (j : ℕ). 2 ^ j) one_more ∙ pow-add 2 k (m * k)))),
      )
    where
      one_more : suc m * k ≡ k + m * k
      one_more = omega arith

      le_of_sum : (m k b : ℕ) → suc m * k ≤ b → (k ≤ b) × (m * k ≤ b)
      le_of_sum m k b h = (omega arith, omega arith)

  -- If digits of k bits, at most 8, divide the identifier's Bits bits evenly, then Bits / k imaginary
  -- steps succeed from any valid start, and lead to the target itself with nothing left of kshift.
  pub walk-target :
      (m : ℕ) (start target : Ident)
      → m * k ≡ sp.bits
      → IsId sp start
      → IsId sp target
      → walk sp m start target ≡ ok (target, zero_id sp)
  walk-target m start target e hs ht =
      let (i, t, run, i_valid, t_valid, i_value, t_value) =
        walk_lem m start target (omega arith) hs ht in
      let (zero_valid, zero_value) = zero_id_lem v in
      let i_eq : i ≡ target = value-injective i_valid ht (
        i_value
        ∙ ap (λ (j : ℕ). (2 ^ j * value start + value target / 2 ^ (sp.bits - j)) % 2 ^ sp.bits) e
        ∙ ap (λ (a : ℕ). (2 ^ sp.bits * value start + a) % 2 ^ sp.bits) all_digits
        ∙ mul-add-mod_self_left (2 ^ sp.bits) (value start) (value target)
        ∙ mod-eq_of_lt ht.below) in
      let t_eq : t ≡ zero_id sp = value-injective t_valid zero_valid (
        t_value
        ∙ ap (λ (j : ℕ). value target * 2 ^ j % 2 ^ sp.bits) e
        ∙ mul-mod_left (value target) (2 ^ sp.bits)
        ∙ sym zero_value) in
      rw (run, i_eq, t_eq) refl
    where
      none_left : sp.bits - sp.bits ≡ 0
      none_left = omega arith

      all_digits : value target / 2 ^ (sp.bits - sp.bits) ≡ value target
      all_digits = ap (λ (j : ℕ). value target / 2 ^ j) none_left ∙ div-one (value target)
