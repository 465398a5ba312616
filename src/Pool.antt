-- ===== src/Pool.antt =====
-- internal/node/client/clientpool.go: the reference-counted connection pool. A connection is named by
-- the address that it was dialled with. The mutex is a field: it is free between the calls of
-- methods that unlock it on every path, and a method that finds it held waits for ever.
pub mod Counts
pub mod Closed
pub mod Tally
use Prim.Native.String.{String}
use text.Mathlib.Text.{◌==◌ as str_eq}
use koorde_dht.Prelude.{
  ℕ, ◌+◌, ◌-◌, Bool, true, false, List, [], ◌∷◌, Option, none, some, if◌then◌else◌, ◌==◌, map,
}
use koorde_dht.Prelude.Assoc.{lookup, insert, erase}
use koorde_dht.Result.{Error, errorf, wrap, no_conn_in_pool}

-- `clients` maps an address to the reference count of its connection.
pub record Pool : Type 0 where
  pub self_addr : String
  pub clients : List (String × ℕ)
  pub closed : Bool
  pub locked : Bool

-- A call returns a value and the pool it leaves, or blocks on the mutex.
pub data Outcome (A : Type 0) : Type 0 where
  returns : A → Pool → Outcome A
  blocks : Outcome A

unfoldable pub new : String → Pool
new self_addr = record { self_addr = self_addr; clients = []; closed = false; locked = false }

abbrev pub empty_address : Error
empty_address = errorf "clientpool: empty address"

abbrev pub self_address : Error
self_address = errorf "clientpool: requested self address"

abbrev pub pool_closed : Error
pool_closed = errorf "clientpool: pool is closed"

-- The early return of a closed pool: it does not unlock the mutex.
abbrev pub leave_locked : Pool → Pool
leave_locked p = record p { locked = true }

-- The client of a pooled connection is named by its address; an error is on the left.
unfoldable pub get_from_pool_locked : Pool → String → Outcome (Option Error)
get_from_pool_locked p addr =
    if p.closed
    then returns (some pool_closed) (leave_locked p)
    else elim (lookup str_eq addr p.clients) [
      | none ↦ returns (some no_conn_in_pool) p
      | some refs ↦ returns none p
    ]

unfoldable pub get_from_pool : Pool → String → Outcome (Option Error)
get_from_pool p addr =
    if str_eq addr ""
    then returns (some empty_address) p
    else if str_eq addr p.self_addr
    then returns (some self_address) p
    else if p.locked
    then blocks
    else get_from_pool_locked p addr

-- `dial` is grpc.NewClient and `hang_up` is the Close of the connection to an address: the error each
-- returns, or none.
module _ (dial hang_up : String → Option Error) where
  -- AddRef after the tests of the address, with the mutex taken.
  unfoldable pub add_ref_locked : Pool → String → Outcome (Option Error)
  add_ref_locked p addr =
      if p.closed
      then returns (some pool_closed) (leave_locked p)
      else elim (lookup str_eq addr p.clients) [
        | some refs ↦ returns none (record p { clients = insert str_eq addr (refs + 1) p.clients })
        | none ↦ elim (dial addr) [
          | some e ↦ returns (some e) p
          | none ↦ returns none (record p { clients = insert str_eq addr 1 p.clients })
        ]
      ]

  unfoldable pub add_ref : Pool → String → Outcome (Option Error)
  add_ref p addr =
      if str_eq addr ""
      then returns (some empty_address) p
      else if str_eq addr p.self_addr
      then returns (some self_address) p
      else if p.locked
      then blocks
      else add_ref_locked p addr

  -- The mutex is released before the tests.
  unfoldable pub dial_ephemeral : Pool → String → Outcome (Option Error)
  dial_ephemeral p addr =
      if p.locked
      then blocks
      else if p.closed
      then returns (some pool_closed) p
      else if str_eq addr ""
      then returns (some empty_address) p
      else if str_eq addr p.self_addr
      then returns (some self_address) p
      else elim (dial addr) [
        | some e ↦ returns (some (wrap "clientpool: failed to dial %s: %w" e)) p
        | none ↦ returns none p
      ]

  -- The result of closing the connection whose last reference was released.
  unfoldable pub close_conn : String → Option Error
  close_conn addr = elim (hang_up addr) [
    | some e ↦ some (wrap "clientpool: failed to close connection for node %s: %w" e)
    | none ↦ none
  ]

  unfoldable pub release_locked : Pool → String → Outcome (Option Error)
  release_locked p addr =
      if p.closed
      then returns (some pool_closed) (leave_locked p)
      else elim (lookup str_eq addr p.clients) [
        | none ↦ returns none p
        | some refs ↦
            if refs - 1 == 0
            then returns (close_conn addr) (record p { clients = erase str_eq addr p.clients })
            else returns none (record p { clients = insert str_eq addr (refs - 1) p.clients })
      ]

  unfoldable pub release : Pool → String → Outcome (Option Error)
  release p addr =
      if str_eq addr ""
      then returns (some empty_address) p
      else if p.locked
      then blocks
      else release_locked p addr

  -- The first error of closing the connections, each of which is attempted.
  unfoldable pub close_all : List (String × ℕ) → Option Error
  close_all [] = none
  close_all ((addr, refs) ∷ m) =
      let rest = close_all m in elim (hang_up addr) [ some e ↦ some e | none ↦ rest ]

  unfoldable pub close : Pool → Outcome (Option Error)
  close p =
      if p.locked
      then blocks
      else if p.closed
      then returns none p
      else returns (close_all p.clients) (record p { closed = true; clients = [] })
