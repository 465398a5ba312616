-- ===== src/Storage/Arcs.antt =====
-- Between over the store: a change of owner splits the stored resources.
use koorde_dht.Prelude.{not, ◌≡◌, ◌≢◌, ap, ◌∙◌, [], ◌∷◌, ◌++◌, All, Bool-cases, inl, inr}
use koorde_dht.Identifier.Space.{Space, Ident}
use koorde_dht.Identifier.Space.Valid.{IsId}
use koorde_dht.Identifier.Order.{between}
use koorde_dht.Identifier.Order.Circle.{between_swap}
use koorde_dht.Identifier.Hex.{Text}
use koorde_dht.Domain.{Resource}
use koorde_dht.Storage.{Store, resources_between, all}
use mathlib.Core.List.{Perm, perm_middle}
use mathlib.Core.List.Perm

-- Every stored key is an identifier of the space.
abbrev pub AllIds : Space → Store → Type 0
AllIds sp = All (λ (e : Text × Resource). IsId sp e.1.key)

module _ {sp : Space} {a b : Ident} (j : IsId sp a) (k : IsId sp b) (ne : a ≢ b) where
  -- For identifiers a and b that differ, the resources of (a, b] and those of (b, a] are together the
  -- stored ones, each as often.
  pub between_split :
      (s : Store) → AllIds sp s → Perm (resources_between s a b ++ resources_between s b a) (all s)
  unfolding resources_between all
  between_split [] h = Perm.refl []
  between_split ((t, res) ∷ m) h =
      let swap : between res.key a b ≡ not (between res.key b a) = between_swap h.0 j k ne in
      let rest = between_split m h.1 in
      elim (Bool-cases (between res.key b a)) [
        | inl far ↦ rw (swap ∙ ap not far) (
            rw far (
              Perm.trans (perm_middle (resources_between m a b) (resources_between m b a))
                (Perm.cons res rest)))
        | inr near ↦ rw (swap ∙ ap not near) (rw near (Perm.cons res rest))
      ]
