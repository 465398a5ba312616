-- ===== src/Prelude/Lists.antt =====
-- Lists measured and indexed by native numbers, under the library's names, and their laws.
use Prim.Native.Nat.{ℕ, zero, suc, ◌+◌, ◌-◌, ◌≤◌, ◌<◌, min}
use mathlib.Core.Path.{◌≡◌, refl, sym, ap, ◌∙◌}
use mathlib.Core.Logic.{◌≢◌, ◌⊎◌, inl, inr}
use mathlib.Core.List.{List, [], ◌∷◌, ◌++◌, map, append-nil}
use mathlib.Core.Option.{Option, none, some}
use native.Mathlib.Omega.{arith}

module _ {ℓ} {A : Type ℓ} where
  abbrev pub length : List A → ℕ
  length [] = 0
  length (first ∷ rest) = suc (length rest)

  abbrev pub get_elem? : List A → ℕ → Option A
  get_elem? [] i = none
  get_elem? (x ∷ xs) zero = some x
  get_elem? (x ∷ xs) (suc i) = get_elem? xs i

  -- A write out of bounds changes nothing.
  abbrev pub set : List A → ℕ → A → List A
  set [] i v = []
  set (x ∷ xs) zero v = v ∷ xs
  set (x ∷ xs) (suc i) v = x ∷ set xs i v

  abbrev pub drop : ℕ → List A → List A
  drop zero items = items
  drop (suc n) [] = []
  drop (suc n) (x ∷ items) = drop n items

  abbrev pub replicate : ℕ → A → List A
  replicate zero a = []
  replicate (suc n) a = a ∷ replicate n a

  abbrev pub take : ℕ → List A → List A
  take zero items = []
  take (suc n) [] = []
  take (suc n) (x ∷ items) = x ∷ take n items

  abbrev pub All {κ} : (A → Type κ) → List A → Type κ
  All P [] = Unit {κ}
  All P (x ∷ xs) = P x × All P xs

module _ {ℓ} {A : Type ℓ} where
  pub length-append : (xs ys : List A) → length (xs ++ ys) ≡ length xs + length ys
  length-append [] ys = omega arith
  length-append (x ∷ xs) ys = omega (arith, length-append xs ys)

  pub length-set : (xs : List A) (i : ℕ) (v : A) → length (set xs i v) ≡ length xs
  length-set [] i v = refl
  length-set (x ∷ xs) zero v = refl
  length-set (x ∷ xs) (suc i) v = ap suc (length-set xs i v)

  pub get_elem?-set_self :
      (xs : List A) (i : ℕ) (v : A) → i < length xs → get_elem? (set xs i v) i ≡ some v
  get_elem?-set_self [] i v h = elim h [ ]
  get_elem?-set_self (x ∷ xs) zero v h = refl
  get_elem?-set_self (x ∷ xs) (suc i) v h = get_elem?-set_self xs i v (omega arith)

  pub get_elem?-set_ne :
      (xs : List A) {i j : ℕ} (v : A) → i ≢ j → get_elem? (set xs i v) j ≡ get_elem? xs j
  get_elem?-set_ne [] v h = refl
  get_elem?-set_ne (x ∷ xs) {i = zero} {j = zero} v h = absurd (h refl)
  get_elem?-set_ne (x ∷ xs) {i = zero} {j = suc j} v h = refl
  get_elem?-set_ne (x ∷ xs) {i = suc i} {j = zero} v h = refl
  get_elem?-set_ne (x ∷ xs) {i = suc i} {j = suc j} v h = get_elem?-set_ne xs v (λ e. h (ap suc e))

  pub length-take : (n : ℕ) (xs : List A) → length (take n xs) ≡ min n (length xs)
  length-take zero xs = omega arith
  length-take (suc n) [] = omega arith
  length-take (suc n) (x ∷ xs) = omega (arith, length-take n xs)

  pub length-drop : (n : ℕ) (xs : List A) → length (drop n xs) ≡ length xs - n
  length-drop zero xs = omega arith
  length-drop (suc n) [] = omega arith
  length-drop (suc n) (x ∷ xs) = omega (arith, length-drop n xs)

  pub length-replicate : (n : ℕ) (a : A) → length (replicate n a) ≡ n
  length-replicate zero a = refl
  length-replicate (suc n) a = ap suc (length-replicate n a)

  pub length-map {κ} : {B : Type κ} (xs : List A) (f : A → B) → length (map f xs) ≡ length xs
  length-map [] f = refl
  length-map (x ∷ xs) f = ap suc (length-map xs f)

  pub All-append {κ} : (P : A → Type κ) (xs ys : List A) → All P xs → All P ys → All P (xs ++ ys)
  All-append P [] ys hx hy = hy
  All-append P (x ∷ xs) ys hx hy = (hx.0, All-append P xs ys hx.1 hy)

module _ {ℓ} {A : Type ℓ} where
  -- Writes of consecutive cells, as a loop makes them: arr[k] = x; k++.
  abbrev pub write_from : List A → ℕ → List A → List A
  write_from [] k arr = arr
  write_from (x ∷ xs) k arr = write_from xs (suc k) (set arr k x)

  pub length-write_from :
      (xs : List A) (k : ℕ) (arr : List A) → length (write_from xs k arr) ≡ length arr
  length-write_from [] k arr = refl
  length-write_from (x ∷ xs) k arr = length-write_from xs (suc k) (set arr k x) ∙ length-set arr k x

  pub write_from-cons :
      (xs : List A) (k : ℕ) (a : A) (arr : List A)
      → write_from xs (suc k) (a ∷ arr) ≡ a ∷ write_from xs k arr
  write_from-cons [] k a arr = refl
  write_from-cons (x ∷ xs) k a arr = write_from-cons xs (suc k) a (set arr k x)

  pub write_from-append :
      (xs ys : List A) (k : ℕ) (arr : List A)
      → write_from (xs ++ ys) k arr ≡ write_from ys (k + length xs) (write_from xs k arr)
  write_from-append [] ys k arr =
      let e : k ≡ k + 0 = omega arith in ap (λ (t : ℕ). write_from ys t arr) e
  write_from-append (x ∷ xs) ys k arr =
      let e : suc k + length xs ≡ k + suc (length xs) = omega arith in
      write_from-append xs ys (suc k) (set arr k x)
      ∙ ap (λ (t : ℕ). write_from ys t (write_from xs (suc k) (set arr k x))) e

  pub drop_all : (n : ℕ) (xs : List A) → length xs ≤ n → drop n xs ≡ []
  drop_all zero [] h = refl
  drop_all zero (x ∷ xs) h = absurd (omega arith)
  drop_all (suc n) [] h = refl
  drop_all (suc n) (x ∷ xs) h = drop_all n xs (omega arith)

  -- From the start, the writes replace a prefix.
  pub write_from-zero :
      (xs arr : List A) → length xs ≤ length arr → write_from xs 0 arr ≡ xs ++ drop (length xs) arr
  write_from-zero [] arr h = refl
  write_from-zero (x ∷ xs) [] h = absurd (omega arith)
  write_from-zero (x ∷ xs) (a ∷ arr) h =
      write_from-cons xs 0 x arr ∙ ap (◌∷◌ x) (write_from-zero xs arr (omega arith))

  pub drop-replicate : (k n : ℕ) (a : A) → drop k (replicate n a) ≡ replicate (n - k) a
  drop-replicate zero n a = let e : n ≡ n - 0 = omega arith in ap (λ (t : ℕ). replicate t a) e
  drop-replicate (suc k) zero a =
      let e : 0 ≡ 0 - suc k = omega arith in ap (λ (t : ℕ). replicate t a) e
  drop-replicate (suc k) (suc n) a =
      let e : n - k ≡ suc n - suc k = omega arith in
      drop-replicate k n a ∙ ap (λ (t : ℕ). replicate t a) e

  -- The entries that hold a value, in order.
  abbrev pub present : List (Option A) → List A
  present [] = []
  present (none ∷ xs) = present xs
  present (some x ∷ xs) = x ∷ present xs

  pub length-present-le : (xs : List (Option A)) → length (present xs) ≤ length xs
  length-present-le [] = omega arith
  length-present-le (none ∷ xs) = omega (arith, length-present-le xs)
  length-present-le (some x ∷ xs) = omega (arith, length-present-le xs)

  pub present-append : (xs ys : List (Option A)) → present (xs ++ ys) ≡ present xs ++ present ys
  present-append [] ys = refl
  present-append (none ∷ xs) ys = present-append xs ys
  present-append (some x ∷ xs) ys = ap (◌∷◌ x) (present-append xs ys)

  pub present-map-some : (xs : List A) → present (map some xs) ≡ xs
  present-map-some [] = refl
  present-map-some (x ∷ xs) = ap (◌∷◌ x) (present-map-some xs)

  pub present-replicate-none : (n : ℕ) → present (replicate n none) ≡ []
  present-replicate-none zero = refl
  present-replicate-none (suc n) = present-replicate-none n

module _ {ℓ} {A : Type ℓ} where
  -- Writes that fill the whole array leave nothing of it.
  pub write_from-full :
      (xs ys arr : List A)
      → length xs + length ys ≡ length arr
      → write_from ys (length xs) (write_from xs 0 arr) ≡ xs ++ ys
  write_from-full xs ys arr h =
      ap (λ (t : ℕ). write_from ys t (write_from xs 0 arr)) start
      ∙ sym (write_from-append xs ys 0 arr)
      ∙ write_from-zero (xs ++ ys) arr (omega (arith, length-append xs ys))
      ∙ rw (drop_all (length (xs ++ ys)) arr (omega (arith, length-append xs ys)))
          (append-nil (xs ++ ys))
    where
      start : length xs ≡ 0 + length xs
      start = omega arith

module _ {ℓ} {A : Type ℓ} where
  pub take-append-drop : (n : ℕ) (xs : List A) → take n xs ++ drop n xs ≡ xs
  take-append-drop zero xs = refl
  take-append-drop (suc n) [] = refl
  take-append-drop (suc n) (x ∷ xs) = ap (◌∷◌ x) (take-append-drop n xs)

  pub All-take {κ} : (P : A → Type κ) (n : ℕ) (xs : List A) → All P xs → All P (take n xs)
  All-take P zero xs h = tt
  All-take P (suc n) [] h = tt
  All-take P (suc n) (x ∷ xs) h = (h.0, All-take P n xs h.1)

  pub All-drop {κ} : (P : A → Type κ) (n : ℕ) (xs : List A) → All P xs → All P (drop n xs)
  All-drop P zero xs h = h
  All-drop P (suc n) [] h = tt
  All-drop P (suc n) (x ∷ xs) h = All-drop P n xs h.1

pub zero_or_suc : (n : ℕ) → (n ≡ 0) ⊎ ((m : ℕ) × (n ≡ suc m))
zero_or_suc zero = inl refl
zero_or_suc (suc m) = inr (m, refl)
