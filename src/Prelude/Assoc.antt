-- ===== src/Prelude/Assoc.antt =====
-- Go's maps as association lists, over keys with a Boolean equality. A map has one entry for a key;
-- a range over it goes in the order of the list.
use koorde_dht.Prelude.Tests.{if◌then◌else◌}
use mathlib.Core.Bool.{Bool, true}
use mathlib.Core.List.{List, [], ◌∷◌}
use mathlib.Core.Logic.{◌↔◌}
use mathlib.Core.Option.{Option, none, some}
use mathlib.Core.Path.{◌≡◌, refl}
use native.Mathlib.Omega.{arith}

module _ {ℓ κ} {K : Type ℓ} {V : Type κ} (eq : K → K → Bool) where
  unfoldable pub lookup : K → List (K × V) → Option V
  lookup k [] = none
  lookup k ((j, v) ∷ m) = if eq j k then some v else lookup k m

  unfoldable pub insert : K → V → List (K × V) → List (K × V)
  insert k v [] = (k, v) ∷ []
  insert k v ((j, w) ∷ m) = if eq j k then (k, v) ∷ m else (j, w) ∷ insert k v m

  unfoldable pub erase : K → List (K × V) → List (K × V)
  erase k [] = []
  erase k ((j, w) ∷ m) = let rest = erase k m in if eq j k then rest else (j, w) ∷ rest

  module _ (eq_iff : (a b : K) → (eq a b ≡ true) ↔ (a ≡ b)) where
    pub lookup-insert :
        (k j : K) (v : V) (m : List (K × V))
        → lookup j (insert k v m) ≡ (if eq k j then some v else lookup j m)
    unfolding lookup insert
    lookup-insert k j v [] = refl
    lookup-insert k j v ((i, old) ∷ m) =
        ground (arith, eq_iff i j, eq_iff k j, eq_iff i k, lookup-insert k j v m)

    pub lookup-erase :
        (k j : K) (m : List (K × V)) → lookup j (erase k m) ≡ (if eq k j then none else lookup j m)
    unfolding lookup erase
    lookup-erase k j [] = ground arith
    lookup-erase k j ((i, old) ∷ m) =
        ground (arith, eq_iff i j, eq_iff k j, eq_iff i k, lookup-erase k j m)
