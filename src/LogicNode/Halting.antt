-- ===== src/LogicNode/Halting.antt =====
-- internal/node/logicnode/operation.go: the fuel that is enough for the client's requests.
pub mod Rounds
use Prim.Native.String.{String}
use koorde_dht.Result.{Result, ok, err, panic, wrap, errorf}
use koorde_dht.Pool.Counts.{IsOpen}
use koorde_dht.LogicNode.Context.{check_context}
use koorde_dht.LogicNode.Network.{Network}
use koorde_dht.LogicNode.Requests.{
  resolve, put_at, get_at, delete_at, put_request, get_request, delete_request,
}
use koorde_dht.LogicNode.Lookup.Pools.{LeavesPool-cases, find_successor_init-LeavesPool}
use koorde_dht.LogicNode.Referenced.{Ends, Ends-cases}
use koorde_dht.LogicNode.Referenced.Windows.{connect-cases}
use koorde_dht.LogicNode.Lookup.Fuel.{find_successor_init-ends}
use koorde_dht.Identifier.Space.{Ident}
use koorde_dht.Identifier.Space.Value.{IsSpace}
use koorde_dht.Identifier.Space.Valid.{IsId}
use koorde_dht.Domain.{Node, Resource}
use koorde_dht.RoutingTable.{RoutingTable}
use koorde_dht.LogicNode.Local.{LocalNode}
use koorde_dht.LogicNode.Answer.{Answer, finished, panicked, stuck, unfinished}
use koorde_dht.Prelude.{
  Bool, Option-cases, arith, false, inl, inr, none, refl, some, true, ℕ, ◌*◌, ◌<◌, ◌^◌, ◌≡◌, ◌≤◌,
  ◌⊎◌,
}
use native.Mathlib.Nat.{pow-le-pow_right}

-- The operation does not run for ever: it has not used up the fuel of a lookup.
abbrev pub halts : {W A : Type 0} → Answer W A → Bool
halts (finished n w a) = true
halts panicked = true
halts stuck = true
halts unfinished = false

-- A node with a valid identifier, a space whose digits have k bits, at most 8 and at most Bits, and
-- 2 * Bits + 1 of fuel.
pub record IsFueled (rt : RoutingTable) (fuel k : ℕ) : Type 0 where
  pub spaced : IsSpace rt.space k
  pub narrow : k ≤ 8
  pub divided : k ≤ rt.space.bits
  pub valid : IsId rt.space rt.self.id
  pub enough : 2 * rt.space.bits < fuel

-- 2^k is at most 2^56, as mul_k_mod needs.
pub grade_le : {rt : RoutingTable} {fuel k : ℕ} → IsFueled rt fuel k → rt.space.graph_grade ≤ 2 ^ 56
grade_le v =
    rw v.spaced.grade_eq
      (pow-le-pow_right (let w : 0 < 2 = omega arith in w) {j = 56} (omega (arith, v.narrow)))

pub Answer-cases :
    {W A : Type 0} (answer : Answer W A)
    → ((n : LocalNode) × (w : W) × (a : A) × (answer ≡ finished n w a))
      ⊎ ((answer ≡ panicked) ⊎ ((answer ≡ stuck) ⊎ (answer ≡ unfinished)))
Answer-cases (finished n w a) = inl (n, w, a, refl)
Answer-cases panicked = inr (inl refl)
Answer-cases stuck = inr (inr (inl refl))
Answer-cases unfinished = inr (inr (inr refl))

-- The operation returns or panics.
abbrev pub settles : {W A : Type 0} → Answer W A → Bool
settles (finished n w a) = true
settles panicked = true
settles stuck = false
settles unfinished = false

pub halts-settles :
    {W A : Type 0} (P : LocalNode → Type 0) (answer : Answer W A)
    → halts answer ≡ true
    → Ends P answer
    → settles answer ≡ true
halts-settles P answer h k = elim (Ends-cases P answer k) [
  | inl (n, w, a, ended, _) ↦ rw ended refl
  | inr (inl crashed) ↦ rw crashed refl
  | inr (inr endless) ↦ cc
]

module _ {W : Type 0} (net : Network W) (fuel : ℕ) where
  put_at-settles :
      (n : LocalNode) (w : W) (res : Resource) (succ : Node)
      → IsOpen n.pool
      → settles (put_at net.streams net.step net.dial net.hang_up fuel n w res succ) ≡ true
  unfolding put_at
  put_at-settles n w res succ h =
      let opened = connect-cases net fuel n.pool succ.addr h in ground arith

  get_at-settles :
      (n : LocalNode) (w : W) (id : Ident) (succ : Node)
      → IsOpen n.pool
      → settles (get_at net.streams net.step net.dial net.hang_up fuel n w id succ) ≡ true
  unfolding get_at
  get_at-settles n w id succ h =
      let opened = connect-cases net fuel n.pool succ.addr h in ground arith

  delete_at-settles :
      (n : LocalNode) (w : W) (id : Ident) (succ : Node)
      → IsOpen n.pool
      → settles (delete_at net.streams net.step net.dial net.hang_up fuel n w id succ) ≡ true
  unfolding delete_at
  delete_at-settles n w id succ h =
      let opened = connect-cases net fuel n.pool succ.addr h in ground arith

  resolve-cases :
      {k : ℕ} (failed missing : String) (n : LocalNode) (w : W) (id : Ident)
      → IsFueled n.rt fuel k
      → IsId n.rt.space id
      → IsOpen n.pool
      → (resolve net.streams net.step net.dial net.hang_up fuel failed missing n w id ≡ panicked)
        ⊎ ((w' : W) × (found : Result Node) × (resolve net.streams net.step net.dial net.hang_up
                fuel failed missing n w id
              ≡ finished n w' found))
  unfolding resolve
  resolve-cases failed missing n w id v valid h =
      let ended =
        find_successor_init-ends net.streams.ctx_err net.step n.rt v.spaced v.narrow v.divided fuel
          id v.enough v.valid valid n.pool w in
      elim (Option-cases (check_context (net.streams.ctx_err w))) [
        | inr (e, over) ↦ inr (w, err e, rw (resolve, over) refl)
        | inl fine ↦
            elim (LeavesPool-cases n.pool _ (
              find_successor_init-LeavesPool net.streams.ctx_err net.step n.rt n.pool h fuel id
                w)) [
                  | inr endless ↦ cc
                  | inl (panic, w', looked) ↦ inl (rw (resolve, fine) (rw looked refl))
                  | inl (err e, w', looked) ↦
                      inr (w', err (wrap failed e), rw (resolve, fine) (rw looked refl))
                  | inl (ok none, w', looked) ↦
                      inr (w', err (errorf missing), rw (resolve, fine) (rw looked refl))
                  | inl (ok (some succ), w', looked) ↦
                      inr (w', ok succ, rw (resolve, fine) (rw looked refl))
                ]
      ]

  put_request-settles :
      {k : ℕ} (n : LocalNode) (w : W) (res : Resource)
      → IsFueled n.rt fuel k
      → IsId n.rt.space res.key
      → IsOpen n.pool
      → settles (put_request net.streams net.step net.dial net.hang_up fuel n w res) ≡ true
  unfolding put_request
  put_request-settles n w res v valid h =
      elim (resolve-cases "put: failed to find successor for key %s: %w"
        "put: no successor found for key %s" n w res.key v valid h) [
          | inl crashed ↦ rw (put_request, crashed) refl
          | inr (w', err e, ended) ↦ rw (put_request, ended) refl
          | inr (w', panic, ended) ↦ rw (put_request, ended) refl
          | inr (w', ok succ, ended) ↦ rw (put_request, ended) (put_at-settles n w' res succ h)
        ]

  get_request-settles :
      {k : ℕ} (n : LocalNode) (w : W) (id : Ident)
      → IsFueled n.rt fuel k
      → IsId n.rt.space id
      → IsOpen n.pool
      → settles (get_request net.streams net.step net.dial net.hang_up fuel n w id) ≡ true
  unfolding get_request
  get_request-settles n w id v valid h =
      elim (resolve-cases "get: failed to find successor for key %s: %w"
        "get: no successor found for key %s" n w id v valid h) [
          | inl crashed ↦ rw (get_request, crashed) refl
          | inr (w', err e, ended) ↦ rw (get_request, ended) refl
          | inr (w', panic, ended) ↦ rw (get_request, ended) refl
          | inr (w', ok succ, ended) ↦ rw (get_request, ended) (get_at-settles n w' id succ h)
        ]

  delete_request-settles :
      {k : ℕ} (n : LocalNode) (w : W) (id : Ident)
      → IsFueled n.rt fuel k
      → IsId n.rt.space id
      → IsOpen n.pool
      → settles (delete_request net.streams net.step net.dial net.hang_up fuel n w id) ≡ true
  unfolding delete_request
  delete_request-settles n w id v valid h =
      elim (resolve-cases "delete: failed to find successor for key %s: %w"
        "delete: no successor found for key %s" n w id v valid h) [
          | inl crashed ↦ rw (delete_request, crashed) refl
          | inr (w', err e, ended) ↦ rw (delete_request, ended) refl
          | inr (w', panic, ended) ↦ rw (delete_request, ended) refl
          | inr (w', ok succ, ended) ↦ rw (delete_request, ended) (delete_at-settles n w' id succ h)
        ]

  -- In a space whose digits have k bits, at most 8 and at most Bits, and with a pool in service, Put,
  -- Get and Delete of a node with a valid identifier return or panic for a valid key, whatever the
  -- other nodes answer: none of them is stuck on the pool or uses up 2 * Bits + 1 steps of lookup at
  -- this node.
  pub requests-settle :
      {k : ℕ} (n : LocalNode) (w : W) (res : Resource)
      → IsFueled n.rt fuel k
      → IsId n.rt.space res.key
      → IsOpen n.pool
      → (settles (put_request net.streams net.step net.dial net.hang_up fuel n w res) ≡ true)
        × (settles (get_request net.streams net.step net.dial net.hang_up fuel n w res.key) ≡ true)
        × (settles (delete_request net.streams net.step net.dial net.hang_up fuel n w res.key)
            ≡ true)
  requests-settle n w res v valid h = (
    put_request-settles n w res v valid h,
    get_request-settles n w res.key v valid h,
    delete_request-settles n w res.key v valid h,
  )
