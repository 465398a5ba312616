-- ===== src/LogicNode/Local/Transfer.antt =====
-- A transfer of resources removes what was transferred, and nothing else.
use koorde_dht.Prelude.{
  Bool, true, false, not, ◌&&◌, ◌||◌, ◌≡◌, refl, ap, ◌∙◌, List, [], ◌∷◌, Option, none, some, All,
  arith, if◌then◌else◌, Option-cases, Bool-cases, inl, inr,
}
use koorde_dht.Prelude.Assoc.{lookup, erase, lookup-insert, lookup-erase}
use koorde_dht.Identifier.Space.{Ident, IsByte}
use koorde_dht.Identifier.Order.{equal}
use koorde_dht.Identifier.Order.Circle.{equal_iff}
use koorde_dht.Identifier.Hex.{Text}
use koorde_dht.Domain.{Resource}
use koorde_dht.Storage.{Store, store_key, delete}
use koorde_dht.Storage.Map.{view, delete-view, store_key-equal}
use koorde_dht.LogicNode.Local.{success_keys, without_failed, delete_success, remove_transferred}

-- Is there a resource with the key in the list?
unfoldable pub has_key : Ident → List Resource → Bool
has_key id [] = false
has_key id (r ∷ rs) = equal r.key id || has_key id rs

abbrev pub Keys : List Resource → Type 0
Keys = All (λ (r : Resource). All IsByte r.key)

abbrev in_set : Ident → List (Text × Bool) → Option Bool
in_set id m = lookup equal (store_key id) m

success_keys-lookup :
    (id : Ident) (rs : List Resource)
    → All IsByte id
    → Keys rs
    → in_set id (success_keys rs) ≡ (if has_key id rs then some true else none)
unfolding success_keys has_key lookup
success_keys-lookup id [] h hs = refl
success_keys-lookup id (r ∷ rs) h hs =
    lookup-insert equal equal_iff (store_key r.key) (store_key id) true (success_keys rs)
    ∙ ap (λ (b : Bool). if b then some true else in_set id (success_keys rs))
        (store_key-equal r.key id hs.0 h)
    ∙ ground (arith, success_keys-lookup id rs h hs.1)

without_failed-lookup :
    (id : Ident) (rs : List Resource) (m : List (Text × Bool))
    → All IsByte id
    → Keys rs
    → in_set id (without_failed rs m) ≡ (if has_key id rs then none else in_set id m)
unfolding without_failed has_key
without_failed-lookup id [] m h hs = refl
without_failed-lookup id (r ∷ rs) m h hs =
    without_failed-lookup id rs (erase equal (store_key r.key) m) h hs.1
    ∙ ap (λ (o : Option Bool). if has_key id rs then none else o)
        (lookup-erase equal equal_iff (store_key r.key) (store_key id) m
          ∙ ap (λ (b : Bool). if b then none else in_set id m) (store_key-equal r.key id hs.0 h))
    ∙ ground arith

abbrev is_in : Option Bool → Bool
is_in none = false
is_in (some b) = true

-- What the store holds under an identifier after the deletion of one resource that is in the set.
delete_one-view :
    (m : List (Text × Bool)) (r : Resource) (s : Store) (id : Ident)
    → All IsByte id
    → All IsByte r.key
    → view (elim (in_set r.key m) [ none ↦ s | some b ↦ (delete s r.key).0 ]) id
      ≡ (if equal r.key id && is_in (in_set id m) then none else view s id)
delete_one-view m r s id h hr = elim (Bool-cases (equal r.key id)) [
  | inl same ↦
      let e : r.key ≡ id = (equal_iff r.key id).0 same in
      rw same (elim (Option-cases (in_set r.key m)) [
        | inl absent ↦ rw absent (rw (← e) (rw absent refl))
        | inr (b, there) ↦
            rw there ((delete-view s r.key id hr h).0 ∙ rw same (rw (← e) (rw there refl)))
      ])
  | inr other ↦ rw other (elim (Option-cases (in_set r.key m)) [
    | inl absent ↦ rw absent refl
    | inr (b, there) ↦ rw there ((delete-view s r.key id hr h).0 ∙ rw other refl)
  ])
]

delete_success-view :
    (m : List (Text × Bool)) (rs : List Resource) (s : Store) (id : Ident)
    → All IsByte id
    → Keys rs
    → view (delete_success m rs s) id
      ≡ (if has_key id rs && is_in (in_set id m) then none else view s id)
unfolding delete_success has_key
delete_success-view m [] s id h hs = refl
delete_success-view m (r ∷ rs) s id h hs =
    delete_success-view m rs _ id h hs.1
    ∙ ap (λ (o : Option Resource). if has_key id rs && is_in (in_set id m) then none else o)
        (delete_one-view m r s id h hs.0)
    ∙ ground arith

-- After a transfer the store no longer holds the transferred resources that the other node stored;
-- it holds what it held under every other identifier, those of the failed resources included.
pub remove_transferred-view :
    (s : Store) (rs failed : List Resource) (id : Ident)
    → All IsByte id
    → Keys rs
    → Keys failed
    → view (remove_transferred s rs failed) id
      ≡ (if has_key id rs && not (has_key id failed) then none else view s id)
unfolding remove_transferred
remove_transferred-view s rs failed id h hs hf =
    delete_success-view (without_failed failed (success_keys rs)) rs s id h hs
    ∙ ap (λ (o : Option Bool). if has_key id rs && is_in o then none else view s id)
        (without_failed-lookup id failed (success_keys rs) h hf
          ∙ ap (λ (o : Option Bool). if has_key id failed then none else o)
              (success_keys-lookup id rs h hs))
    ∙ ground arith
