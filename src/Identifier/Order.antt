-- ===== src/Identifier/Order.antt =====
-- internal/domain/identifier.go: Cmp, Equal and Between.
pub mod Circle
use Prim.Native.Nat.{compare, Ordering}
use koorde_dht.Prelude.{ℕ, Bool, true, false, ◌&&◌, ◌||◌, ◌==◌, List, [], ◌∷◌}
use koorde_dht.Identifier.Space.{Ident}

-- bytes.Compare: lexicographic, and a proper prefix is smaller. lt, eq, gt stand for -1, 0, 1.
unfoldable pub cmp : Ident → Ident → Ordering
cmp [] [] = Ordering.eq
cmp [] (b ∷ bs) = Ordering.lt
cmp (a ∷ as') [] = Ordering.gt
cmp (a ∷ as') (b ∷ bs) = elim (compare a b) [
  | Ordering.lt ↦ Ordering.lt
  | Ordering.eq ↦ cmp as' bs
  | Ordering.gt ↦ Ordering.gt
]

abbrev pub is_lt : Ordering → Bool
is_lt Ordering.lt = true
is_lt Ordering.eq = false
is_lt Ordering.gt = false

abbrev pub is_le : Ordering → Bool
is_le Ordering.lt = true
is_le Ordering.eq = true
is_le Ordering.gt = false

-- bytes.Equal
unfoldable pub equal : Ident → Ident → Bool
equal [] [] = true
equal [] (b ∷ bs) = false
equal (a ∷ as') [] = false
equal (a ∷ as') (b ∷ bs) = (a == b) && equal as' bs

-- x in (a, b] on the ring.
unfoldable pub between : Ident → Ident → Ident → Bool
between x a b = elim (cmp a b) [
  | Ordering.eq ↦ true
  | Ordering.lt ↦ is_lt (cmp a x) && is_le (cmp x b)
  | Ordering.gt ↦ is_lt (cmp a x) || is_le (cmp x b)
]
