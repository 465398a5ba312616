-- ===== src/LogicNode/References.antt =====
-- internal/node/logicnode/worker.go: the adjustment of the pool's references, which fixSuccessorList
-- and fixDeBruijn share: a connection is added for each address that only the new list has, and
-- released for each that only the old list has.
pub mod Swap
use Prim.Native.String.{String}
use text.Mathlib.Text.{◌==◌ as str_eq}
use koorde_dht.Prelude.{List, [], ◌∷◌, Option, none, some}
use koorde_dht.Prelude.Assoc.{lookup, insert}
use koorde_dht.Result.{Error}
use koorde_dht.Domain.{Node}
use koorde_dht.Pool.{Pool, add_ref, release}
use koorde_dht.LogicNode.Local.{logged}

abbrev pub AddressSet : Type 0
AddressSet = List (String × Node)

-- `for _, nd := range list { set[nd.Addr] = nd }`, continuing a set.
unfoldable pub add_addresses : AddressSet → List Node → AddressSet
add_addresses set [] = set
add_addresses set (n ∷ nodes) = add_addresses (insert str_eq n.addr n set) nodes

unfoldable pub address_set : List Node → AddressSet
address_set nodes = add_addresses [] nodes

module _ (dial hang_up : String → Option Error) where
  -- AddRef for each address of the second set that is not in the first; none if a call blocks.
  unfoldable pub add_missing : AddressSet → AddressSet → Pool → Option Pool
  add_missing old [] p = some p
  add_missing old ((addr, n) ∷ new) p = elim (lookup str_eq addr old) [
    | some m ↦ add_missing old new p
    | none ↦ elim (logged (add_ref dial hang_up p addr)) [
      | none ↦ none
      | some q ↦ add_missing old new q
    ]
  ]

  -- Release for each address of the second set that is not in the first.
  unfoldable pub release_missing : AddressSet → AddressSet → Pool → Option Pool
  release_missing new [] p = some p
  release_missing new ((addr, n) ∷ old) p = elim (lookup str_eq addr new) [
    | some m ↦ release_missing new old p
    | none ↦ elim (logged (release dial hang_up p addr)) [
      | none ↦ none
      | some q ↦ release_missing new old q
    ]
  ]

  unfoldable pub swap_references : List Node → List Node → Pool → Option Pool
  swap_references old new p = elim (add_missing (address_set old) (address_set new) p) [
    | none ↦ none
    | some q ↦ release_missing (address_set new) (address_set old) q
  ]
