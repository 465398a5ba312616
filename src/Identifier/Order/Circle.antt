-- ===== src/Identifier/Order/Circle.antt =====
-- Identifiers of one length compare as their numbers, and Between is the interval of the circle.
use Prim.Native.Nat.{compare, Ordering}
use koorde_dht.Prelude.{
  ℕ, ◌+◌, ◌-◌, ◌*◌, ◌^◌, ◌≤◌, ◌<◌, ◌≡◌, refl, sym, ap, ◌∙◌, ◌≢◌, ◌⊎◌, ◌↔◌, inl, inr, not, Bool,
  true, [], ◌∷◌, All, arith, length, ltb, leb, ◌==◌, ◌&&◌, ◌||◌, if◌then◌else◌,
}
use koorde_dht.Identifier.Space.{Space, Ident, IsByte}
use koorde_dht.Identifier.Space.Value.{value, value-lt}
use koorde_dht.Identifier.Space.Valid.{IsId}
use koorde_dht.Identifier.Order.{cmp, equal, between}

columns : (a b m n v w : ℕ) → m ≡ n → v < m → a < b → a * m + v < b * n + w
columns a b m n v w q hv h = rw (← q) (omega (arith, whole a b m h))
  where
    whole : (a b m : ℕ) → a < b → a * m + m ≤ b * m
    whole a b m h = grind arith

-- Cmp of identifiers of one length is the comparison of their numbers.
pub cmp-value :
    (x y : Ident)
    → length x ≡ length y
    → All IsByte x
    → All IsByte y
    → cmp x y ≡ compare (value x) (value y)
unfolding cmp
cmp-value [] [] e hx hy = refl
cmp-value [] (b ∷ bs) e hx hy = absurd (omega arith)
cmp-value (a ∷ as') [] e hx hy = absurd (omega arith)
cmp-value (a ∷ as') (b ∷ bs) e hx hy =
    let tails : length as' ≡ length bs = omega arith in
    let ih = cmp-value as' bs tails hx.1 hy.1 in
    first a b (256 ^ length as') (256 ^ length bs) (value as') (value bs) (cmp as' bs) ih
      (ap (λ (t : ℕ). 256 ^ t) tails) (value-lt as' hx.1) (value-lt bs hy.1)
  where
    first :
        (a b m n v w : ℕ) (o : Ordering)
        → o ≡ compare v w
        → m ≡ n
        → v < m
        → w < n
        → (elim (compare a b) [
          | Ordering.lt ↦ Ordering.lt
          | Ordering.eq ↦ o
          | Ordering.gt ↦ Ordering.gt
        ])
          ≡ compare (a * m + v) (b * n + w)
    first a b m n v w o e q hv hw =
        ground (arith, columns a b m n v w q hv, columns b a n m w v (sym q) hw)

-- Equal holds of the same bytes only.
pub equal_iff : (x y : Ident) → (equal x y ≡ true) ↔ (x ≡ y)
unfolding equal
equal_iff [] [] = ((λ _. refl), (λ _. refl))
equal_iff [] (b ∷ bs) = ((λ e. cc), (λ e. cc))
equal_iff (a ∷ as') [] = ((λ e. cc), (λ e. cc))
equal_iff (a ∷ as') (b ∷ bs) = equal_step (equal_iff as' bs)
  where
    equal_step :
        (equal as' bs ≡ true) ↔ (as' ≡ bs) → ((a == b && equal as' bs) ≡ true) ↔ (a ∷ as' ≡ b ∷ bs)
    equal_step ih = ((λ e. ground arith), (λ e. ground arith))

cmp-eq : (x y : Ident) → cmp x y ≡ Ordering.eq → x ≡ y
unfolding cmp
cmp-eq [] [] e = refl
cmp-eq [] (b ∷ bs) e = cc
cmp-eq (a ∷ as') [] e = cc
cmp-eq (a ∷ as') (b ∷ bs) e = ground (arith, cmp-eq as' bs)

-- How far clockwise x lies from a, on a circle of size n.
unfoldable pub offset : ℕ → ℕ → ℕ → ℕ
offset n a x = if leb a x then x - a else x + n - a

-- Between over numbers.
unfoldable pub in_arc : ℕ → ℕ → ℕ → Bool
in_arc x a b = if a == b then true else if ltb a b then ltb a x && leb x b else ltb a x || leb x b

module _ {sp : Space} where
  pub cmp-IsId : {x y : Ident} → IsId sp x → IsId sp y → cmp x y ≡ compare (value x) (value y)
  cmp-IsId {x} {y} i j = cmp-value x y (i.length_eq ∙ sym j.length_eq) i.bytes j.bytes

  pub between-in_arc :
      {x a b : Ident}
      → IsId sp x
      → IsId sp a
      → IsId sp b
      → between x a b ≡ in_arc (value x) (value a) (value b)
  unfolding between in_arc
  between-in_arc i j k = ground (arith, cmp-IsId j k, cmp-IsId j i, cmp-IsId i k)

  -- Two identifiers with the same number are the same bytes.
  pub value-injective : {x y : Ident} → IsId sp x → IsId sp y → value x ≡ value y → x ≡ y
  value-injective {x} {y} i j e = cmp-eq x y (cmp-IsId i j ∙ rw e (compare_self (value y)))
    where
      compare_self : (n : ℕ) → compare n n ≡ Ordering.eq
      compare_self n = ground arith

-- x lies in (a, b] exactly if that is the whole circle (a = b), or if walking clockwise from a one
-- comes to x after leaving a and not after b.
pub in_arc_iff :
    (n x a b : ℕ)
    → x < n
    → a < n
    → b < n
    → (in_arc x a b ≡ true) ↔ ((a ≡ b) ⊎ ((0 < offset n a x) × (offset n a x ≤ offset n a b)))
unfolding in_arc offset
in_arc_iff n x a b hx ha hb = ((λ e. ground arith), (λ e. ground arith))

-- x lies in (a, b]: that is the whole circle (a = b), or walking clockwise from a on the circle of
-- 2^Bits numbers one meets x after leaving a and not after b.
abbrev pub IsOnArc : Space → Ident → Ident → Ident → Type 0
IsOnArc sp x a b =
    (a ≡ b)
    ⊎ ((0 < offset (2 ^ sp.bits) (value a) (value x))
        × (offset (2 ^ sp.bits) (value a) (value x) ≤ offset (2 ^ sp.bits) (value a) (value b)))

module _ {sp : Space} {x a b : Ident} (i : IsId sp x) (j : IsId sp a) (k : IsId sp b) where
  -- Between accepts x exactly if a and b are one identifier, or if walking clockwise from a on the
  -- circle of 2^Bits numbers one meets x after leaving a and not after b.
  pub between_iff : (between x a b ≡ true) ↔ (
      (a ≡ b)
      ⊎ ((0 < offset (2 ^ sp.bits) (value a) (value x))
          × (offset (2 ^ sp.bits) (value a) (value x) ≤ offset (2 ^ sp.bits) (value a) (value b))))
  between_iff = rw (between-in_arc i j k) ((λ e. to (arc.0 e)), (λ e. arc.1 (from e)))
    where
      arc : (in_arc (value x) (value a) (value b) ≡ true) ↔ (
          (value a ≡ value b)
          ⊎ ((0 < offset (2 ^ sp.bits) (value a) (value x))
              × (offset (2 ^ sp.bits) (value a) (value x)
                  ≤ offset (2 ^ sp.bits) (value a) (value b))))
      arc = in_arc_iff (2 ^ sp.bits) (value x) (value a) (value b) i.below j.below k.below

      to : {P : Type 0} → (value a ≡ value b) ⊎ P → (a ≡ b) ⊎ P
      to (inl e) = inl (value-injective j k e)
      to (inr p) = inr p

      from : {P : Type 0} → (a ≡ b) ⊎ P → (value a ≡ value b) ⊎ P
      from (inl e) = inl (ap value e)
      from (inr p) = inr p

  -- For a and b that differ, (a, b] and (b, a] part the circle: every identifier is in exactly one.
  pub between_swap : a ≢ b → between x a b ≡ not (between x b a)
  between_swap ne =
      rw (between-in_arc i j k, between-in_arc i k j)
        (halves (value x) (value a) (value b) (λ e. ne (value-injective j k e)))
    where
      halves : (x a b : ℕ) → a ≢ b → in_arc x a b ≡ not (in_arc x b a)
      halves x a b ne = unfold in_arc in ground arith
