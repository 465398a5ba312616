-- ===== src/Storage/Map.antt =====
-- The store is a map from identifiers to resources.
use koorde_dht.Prelude.{Bool, ◌≡◌, ◌↔◌, ap, ◌∙◌, Option, none, some, All, arith, if◌then◌else◌}
use koorde_dht.Prelude.Assoc.{lookup, lookup-insert, lookup-erase}
use koorde_dht.Result.{ok, resource_not_found}
use koorde_dht.Identifier.Space.{Ident, IsByte}
use koorde_dht.Identifier.Order.{equal}
use koorde_dht.Identifier.Order.Circle.{equal_iff}
use koorde_dht.Identifier.Hex.{to_hex_string}
use koorde_dht.Identifier.Hex.Codec.{encode-injective}
use koorde_dht.Domain.{Resource}
use koorde_dht.Storage.{Store, store_key, put, get, delete, zero_resource}

-- The resource under an identifier.
unfoldable pub view : Store → Ident → Option Resource
view s id = lookup equal (store_key id) s

-- Identifiers share a key of the map only if they are equal.
pub store_key-equal :
    (x y : Ident) → All IsByte x → All IsByte y → equal (store_key x) (store_key y) ≡ equal x y
store_key-equal x y hx hy =
    ground (arith, equal_iff (store_key x) (store_key y), equal_iff x y, to, from)
  where
    to : store_key x ≡ store_key y → x ≡ y
    to e = encode-injective x y hx hy (unfold to_hex_string in e)

    from : x ≡ y → store_key x ≡ store_key y
    from = ap store_key

-- Put(r) binds r to its key, and leaves every other identifier's binding; Get returns what is bound,
-- and on an identifier that is not bound the zero resource with no error.
pub put-view :
    (s : Store) (r : Resource) (id : Ident)
    → All IsByte r.key
    → All IsByte id
    → (view (put s r) id ≡ (if equal r.key id then some r else view s id))
      × (get s id ≡ ok (elim (view s id) [ none ↦ zero_resource | some res ↦ res ]))
unfolding view put get
put-view s r id hr hid = (
  lookup-insert equal equal_iff (store_key r.key) (store_key id) r s
      ∙ ap (λ (b : Bool). if b then some r else lookup equal (store_key id) s)
          (store_key-equal r.key id hr hid),
  ground arith,
)

-- Delete unbinds a bound identifier, leaves every other binding, and returns no error; on an
-- identifier that is not bound it changes nothing and returns ErrResourceNotFound.
pub delete-view :
    (s : Store) (id j : Ident)
    → All IsByte id
    → All IsByte j
    → (view (delete s id).0 j ≡ (if equal id j then none else view s j))
      × (((delete s id).1 ≡ some resource_not_found) ↔ (view s id ≡ none))
      × (view s id ≡ none → (delete s id).0 ≡ s)
unfolding view delete
delete-view s id j hid hj = ground (
  arith,
  lookup-erase equal equal_iff (store_key id) (store_key j) s,
  store_key-equal id j hid hj,
  equal_iff id j,
)
