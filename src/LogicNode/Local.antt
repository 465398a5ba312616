-- ===== src/LogicNode/Local.antt =====
-- internal/node/logicnode: Node and CreateNewDHT of node.go, and of operation.go the operations on the
-- node's own state: StoreLocal, RetrieveLocal, RemoveLocal, GetAllResourceStored, Notify,
-- transferResourcesAsync and HandleLeave.
pub mod Transfer
pub mod Predecessor
pub mod Ownership
use Prim.Native.String.{String}
use koorde_dht.Prelude.{Bool, true, false, List, [], ◌∷◌, Option, none, some, if◌then◌else◌}
use koorde_dht.Prelude.Assoc.{lookup, insert, erase}
use koorde_dht.Result.{Error, Result, errorf}
use koorde_dht.Identifier.Space.{Ident}
use koorde_dht.Identifier.Order.{equal, between}
use koorde_dht.Identifier.Hex.{Text}
use koorde_dht.Domain.{Node, Resource}
use koorde_dht.RoutingTable.{
  RoutingTable, Entry, get_predecessor, set_predecessor, init_single_node,
}
use koorde_dht.Storage.{Store, store_key, put, get, delete, resources_between, all}
use koorde_dht.Pool.{Pool, Outcome, returns, blocks, add_ref, release}
use koorde_dht.LogicNode.Context.{check_context}

pub record LocalNode : Type 0 where
  pub rt : RoutingTable
  pub store : Store
  pub pool : Pool

unfoldable pub create_new_dht : LocalNode → LocalNode
create_new_dht n = record n { rt = init_single_node n.rt }

-- The keys of (predecessor, self]; all keys while there is no predecessor.
unfoldable pub is_responsible : RoutingTable → Ident → Bool
is_responsible rt key = elim (get_predecessor rt) [
  | none ↦ true
  | some pred ↦ between key pred.id rt.self.id
]

unfoldable pub store_local : Option Error → LocalNode → Resource → LocalNode × Option Error
store_local ctx_err n resource = elim (check_context ctx_err) [
  | some e ↦ (n, some e)
  | none ↦
      if is_responsible n.rt resource.key
      then (record n { store = put n.store resource }, none)
      else (n, some (errorf "storelocal: not responsible for key %s"))
]

unfoldable pub retrieve_local : LocalNode → Ident → Result Resource
retrieve_local n id = get n.store id

unfoldable pub remove_local : LocalNode → Ident → LocalNode × Option Error
remove_local n id = let (s, e) = delete n.store id in (record n { store = s }, e)

unfoldable pub all_stored : LocalNode → List Resource
all_stored n = all n.store

-- The set `success`: the keys of the resources, without those that failed.
unfoldable pub success_keys : List Resource → List (Text × Bool)
success_keys [] = []
success_keys (r ∷ rs) = insert equal (store_key r.key) true (success_keys rs)

unfoldable pub without_failed : List Resource → List (Text × Bool) → List (Text × Bool)
without_failed [] m = m
without_failed (r ∷ rs) m = without_failed rs (erase equal (store_key r.key) m)

-- The last loop of transferResourcesAsync.
unfoldable pub delete_success : List (Text × Bool) → List Resource → Store → Store
delete_success m [] s = s
delete_success m (r ∷ rs) s =
    delete_success m rs
      (elim (lookup equal (store_key r.key) m) [ none ↦ s | some b ↦ (delete s r.key).0 ])

-- transferResourcesAsync once StoreRemote has returned the resources that failed, without an error.
unfoldable pub remove_transferred : Store → List Resource → List Resource → Store
remove_transferred s resources failed =
    delete_success (without_failed failed (success_keys resources)) resources s

-- A call of the pool whose error is only logged; none if it blocks.
abbrev pub logged : Outcome (Option Error) → Option Pool
logged (returns e p) = some p
logged blocks = none

module _ (dial hang_up : String → Option Error) where
  unfoldable pub release_entry : Pool → Entry → Option Pool
  release_entry p none = some p
  release_entry p (some n) = logged (release dial hang_up p n.addr)

  -- The update of Notify: the node after it, with the resources to be transferred to p. It is none if
  -- a call of the pool blocks.
  unfoldable pub adopt : LocalNode → Node → Option (LocalNode × List Resource)
  adopt n p = elim (logged (add_ref dial hang_up n.pool p.addr)) [
    | none ↦ none
    | some added ↦ elim (release_entry added (get_predecessor n.rt)) [
      | none ↦ none
      | some released ↦ some (
        record n { rt = set_predecessor n.rt (some p); pool = released },
        resources_between n.store n.rt.self.id p.id,
      )
    ]
  ]

  unfoldable pub notify : LocalNode → Entry → Option (LocalNode × List Resource)
  notify n none = some (n, [])
  notify n (some p) =
      if equal p.id n.rt.self.id then some (n, []) else elim (get_predecessor n.rt) [
        | none ↦ adopt n p
        | some pred ↦ if between p.id pred.id n.rt.self.id then adopt n p else some (n, [])
      ]

  unfoldable pub handle_leave : LocalNode → Entry → Option LocalNode
  handle_leave n none = some n
  handle_leave n (some leaving) = elim (get_predecessor n.rt) [
    | none ↦ some n
    | some pred ↦
        if equal leaving.id pred.id
        then elim (logged (release dial hang_up n.pool leaving.addr)) [
          | none ↦ none
          | some p ↦ some (record n { rt = set_predecessor n.rt none; pool = p })
        ]
        else some n
  ]
