-- ===== src/Storage.antt =====
-- internal/node/storage/memory.go. Go's map is an association list with one entry for each key; the
-- order in which the map is ranged over is that of the list. The mutex makes each method one step.
pub mod Map
pub mod Arcs
use koorde_dht.Prelude.{Bool, true, false, List, [], ◌∷◌, Option, none, some, if◌then◌else◌}
use koorde_dht.Prelude.Assoc.{lookup, insert, erase}
use koorde_dht.Result.{Error, Result, ok, resource_not_found}
use koorde_dht.Identifier.Space.{Ident}
use koorde_dht.Identifier.Order.{equal, between}
use koorde_dht.Identifier.Hex.{Text, to_hex_string}
use koorde_dht.Domain.{Resource}

abbrev pub Store : Type 0
Store = List (Text × Resource)

abbrev pub new_memory_storage : Store
new_memory_storage = []

-- The map's key of an identifier.
abbrev pub store_key : Ident → Text
store_key id = to_hex_string false (some id)

unfoldable pub put : Store → Resource → Store
put s resource = insert equal (store_key resource.key) resource s

-- The zero value of domain.Resource.
abbrev pub zero_resource : Resource
zero_resource = record { key = []; raw_key = ""; value = "" }

-- `res, _ := s.data[key]` is the zero value on a missing key, and the error is always nil.
unfoldable pub get : Store → Ident → Result Resource
get s id = elim (lookup equal (store_key id) s) [ none ↦ ok zero_resource | some res ↦ ok res ]

unfoldable pub delete : Store → Ident → Store × Option Error
delete s id = elim (lookup equal (store_key id) s) [
  | none ↦ (s, some resource_not_found)
  | some res ↦ (erase equal (store_key id) s, none)
]

unfoldable pub resources_between : Store → Ident → Ident → List Resource
resources_between [] from to = []
resources_between ((k, res) ∷ m) from to =
    let rest = resources_between m from to in if between res.key from to then res ∷ rest else rest

unfoldable pub all : Store → List Resource
all [] = []
all ((k, res) ∷ m) = res ∷ all m
