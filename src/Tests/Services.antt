-- ===== src/Tests/Services.antt =====
-- Runs of the theorems on the store and on the connection pool.
use Prim.Native.String.{String}
use koorde_dht.Prelude.{
  ◌≡◌, false, refl, List, [], ◌∷◌, ◌++◌, Option, none, some, arith, if◌then◌else◌,
}
use koorde_dht.Result.{Error, ok}
use koorde_dht.Identifier.Order.{equal}
use koorde_dht.Domain.{Resource}
use koorde_dht.Storage.{Store, store_key, put, get, zero_resource, resources_between, all}
use koorde_dht.Storage.Map.{view, put-view}
use koorde_dht.Storage.Arcs.{between_split}
use koorde_dht.Pool.{Pool, returns, blocks, pool_closed, dial_ephemeral, close}
use koorde_dht.Pool.Counts.{Ref, gain, lose, IsOpen, refs, total, run, run-refs}
use koorde_dht.Pool.Closed.{add_call, release_call, call, close_blocks}
use koorde_dht.Tests.Data.{low, middle, high, low-IsId, middle-IsId, high-IsId}
use mathlib.Core.List.{Perm}

abbrev letter : Resource
letter = record { key = middle; raw_key = "letter"; value = "a" }

abbrev digit : Resource
digit = record { key = high; raw_key = "digit"; value = "1" }

abbrev store : Store
store = (store_key middle, letter) ∷ (store_key high, digit) ∷ []

put-view_example :
    (view (put store digit) middle ≡ (if equal high middle then some digit else view store middle))
    × (get store middle ≡ ok (elim (view store middle) [ none ↦ zero_resource | some res ↦ res ]))
put-view_example = put-view store digit middle high-IsId.bytes middle-IsId.bytes

between_split_example :
    Perm (resources_between store low middle ++ resources_between store middle low) (all store)
between_split_example =
    between_split low-IsId middle-IsId (λ e. cc) store (middle-IsId, (high-IsId, tt))

-- A network in which one address cannot be dialled and every connection closes.
abbrev dial : String → Option Error
dial addr = none

abbrev hang_up : String → Option Error
hang_up addr = none

abbrev pool : Pool
pool = record {
  self_addr = "low:4000";
  clients = ("high:4000", 1) ∷ [];
  closed = false;
  locked = false;
}

close_blocks_example :
    (e : Option Error) × (closed : Pool) × (stuck : Pool) × (close dial hang_up pool
      ≡ returns e closed)
    × (call dial hang_up closed (add_call "middle:4000") ≡ returns (some pool_closed) stuck)
    × (call dial hang_up stuck (release_call "high:4000") ≡ blocks)
    × (dial_ephemeral dial hang_up stuck "high:4000" ≡ blocks)
    × (close dial hang_up stuck ≡ blocks)
close_blocks_example =
    close_blocks dial hang_up pool (add_call "middle:4000") (release_call "high:4000") "high:4000"
      refl refl (refl, refl) (refl, refl)

abbrev calls : List Ref
calls = gain "high:4000" ∷ gain "middle:4000" ∷ lose "high:4000" ∷ lose "high:4000" ∷ []

run-refs_example :
    (q : Pool) × (run dial hang_up pool calls ≡ some q)
    × IsOpen q
    × ((a : String) → refs q a ≡ total dial hang_up calls a (refs pool a))
run-refs_example =
    run-refs dial hang_up calls pool
      (record { open_flag = refl; unlocked = refl; used = (omega arith, tt) })
      ((refl, refl), ((refl, refl), (refl, (refl, tt))))
