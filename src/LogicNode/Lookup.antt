-- ===== src/LogicNode/Lookup.antt =====
-- internal/node/logicnode/operation.go, FindSuccessorInit and FindSuccessorStep, with
-- FindSuccessorStep of internal/node/client/handler.go. The routing table is the one that the node
-- has when the lookup comes to it.
pub mod Ends
pub mod Fuel
pub mod Pools
use Prim.Native.String.{String}
use koorde_dht.Prelude.{
  ℕ, zero, suc, Bool, true, false, ◌||◌, List, [], ◌∷◌, Option, none, some, map, if◌then◌else◌,
  get_elem?,
}
use koorde_dht.Prelude.Int.{ℤ, pos, negsuc}
use koorde_dht.Result.{Error, Result, ok, err, panic, status, internal, timeout, wrap}
use koorde_dht.Identifier.Space.{Ident}
use koorde_dht.Identifier.Order.{equal, between}
use koorde_dht.Identifier.Digits.{best_imaginary_simple}
use koorde_dht.Domain.{Node, ProtoNode, node_from_proto}
use koorde_dht.RoutingTable.{RoutingTable, first_successor, de_bruijn_list}
use koorde_dht.Pool.{Pool, Outcome, returns, blocks, get_from_pool}
use koorde_dht.LogicNode.Context.{check_context, is_canceled, is_deadline, has_deadline_code}
use koorde_dht.LogicNode.Imaginary.{next_imaginary}
use koorde_dht.LogicNode.Hops.{find_next_hop}

-- The Step mode of dht.v1.FindSuccessorRequest, which the build generates.
pub record StepRequest : Type 0 where
  pub target_id : Ident
  pub current_i : Ident
  pub k_shift : Ident

-- A lookup returns, leaving the pool and the network; or blocks on the pool; or is still running
-- when the fuel ends.
pub data Lookup (W : Type 0) : Type 0 where
  done : Result (Option Node) → Pool → W → Lookup W
  blocked : Lookup W
  running : Lookup W

-- `W` is the network with the request's context, `ctx_err` its Err(), and `rpc` the FindSuccessor
-- call of the generated client over the connection to an address.
module _ {W : Type 0} (ctx_err : W → Option Error)
    (rpc : W → String → StepRequest → W × Result (Option ProtoNode)) (rt : RoutingTable) where
  -- FindSuccessorStep of the client package.
  unfoldable pub remote_step : W → String → Ident → Ident → Ident → W × Result (Option Node)
  remote_step w addr target current_i kshift = elim (check_context (ctx_err w)) [
    | some e ↦ (w, err e)
    | none ↦
        let (later, reply) =
          rpc w addr (record { target_id = target; current_i = current_i; k_shift = kshift }) in
        (
          later,
          elim reply [
            | ok p ↦ node_from_proto rt.space p
            | err e ↦
                if has_deadline_code e
                then err timeout
                else err (wrap "client: FindSuccessorStep RPC failed: %w" e)
            | panic ↦ panic
          ],
        )
  ]

  -- The step at the successor: the last lines of both ways to it.
  unfoldable pub to_successor : Pool → W → Node → Ident → Ident → Ident → Lookup W
  to_successor p w succ target current_i kshift = elim (get_from_pool p succ.addr) [
    | blocks ↦ blocked
    | returns (some e) p' ↦
        done (err (status internal "failed to get connection to successor")) p' w
    | returns none p' ↦
        let (later, res) = remote_step w succ.addr target current_i kshift in done res p' later
  ]

  -- `res` of the call of another node. Its error is assigned to a variable of the else block, so the
  -- tests after the block see a nil error.
  abbrev pub shadowed : Result (Option Node) → Result (Option Node)
  shadowed (ok res) = ok res
  shadowed (err e) = ok none
  shadowed panic = panic

  -- `return nil, ctx.Err()`
  unfoldable pub interrupted : Pool → W → Lookup W
  interrupted p w = elim (ctx_err w) [ none ↦ done (ok none) p w | some e ↦ done (err e) p w ]

  -- What follows a candidate's answer: it is returned, or the lookup stops with the context, or the
  -- previous candidate is tried.
  unfoldable pub after_answer : (Pool → W → Lookup W) → Result (Option Node) → Pool → W → Lookup W
  after_answer previous (ok (some n)) p w = done (ok (some n)) p w
  after_answer previous (ok none) p w =
      let more = previous p w in elim (ctx_err w) [ none ↦ more | some e ↦ interrupted p w ]
  after_answer previous (err e) p w =
      let more = previous p w in
      if is_deadline e || is_canceled e
      then interrupted p w
      else elim (ctx_err w) [ none ↦ more | some c ↦ interrupted p w ]
  after_answer previous panic p w = done panic p w

  unfoldable pub after_lookup : (Pool → W → Lookup W) → Lookup W → Lookup W
  after_lookup previous (done res p w) = after_answer previous res p w
  after_lookup previous blocked = blocked
  after_lookup previous running = running

  -- The loop over the de Bruijn candidates with an index below n, the last first; `again` is this
  -- node's own step and `fallback` what follows the loop.
  unfoldable pub try_hops :
      (Pool → W → Lookup W)
      → (Pool → W → Lookup W)
      → List Node
      → Ident
      → Ident
      → Ident
      → ℕ
      → Pool
      → W
      → Lookup W
  try_hops again fallback bruijn target next_i next_kshift zero p w = fallback p w
  try_hops again fallback bruijn target next_i next_kshift (suc n) p w =
      let previous = try_hops again fallback bruijn target next_i next_kshift n in
      elim (get_elem? bruijn n) [
        | none ↦ done panic p w
        | some d ↦ elim (equal d.id rt.self.id) [
          | true ↦ after_lookup previous (again p w)
          | false ↦ elim (get_from_pool p d.addr) [
            | blocks ↦ blocked
            | returns (some e) p' ↦ previous p' w
            | returns none p' ↦
                let (later, res) = remote_step w d.addr target next_i next_kshift in
                after_answer previous (shadowed res) p' later
          ]
        ]
      ]

  abbrev pub looping : Error
  looping = status internal "nextI equals currentI, potential infinite loop"

  -- The hop from currentI in (self, successor].
  unfoldable pub de_bruijn_hop :
      (Ident → Ident → Pool → W → Lookup W) → Node → Ident → Ident → Ident → Pool → W → Lookup W
  de_bruijn_hop again succ target current_i kshift p w =
      elim (next_imaginary rt.space current_i kshift) [
        | err e ↦ done (err e) p w
        | panic ↦ done panic p w
        | ok (next_i, next_kshift) ↦
            let fallback = λ (q : Pool) (v : W). to_successor q v succ target next_i next_kshift in
            elim (de_bruijn_list rt) [
              | [] ↦ fallback p w
              | d ∷ ds ↦ elim (equal next_i current_i) [
                | true ↦ done (err looping) p w
                | false ↦ elim (find_next_hop (map some (d ∷ ds)) next_i) [
                  | none ↦ running
                  | some (negsuc m) ↦ fallback p w
                  | some (pos k) ↦
                      try_hops (again next_i next_kshift) fallback (d ∷ ds) target next_i
                        next_kshift (suc k) p w
                ]
              ]
            ]
      ]

  -- FindSuccessorStep of a node whose own further steps are `again`.
  unfoldable pub step :
      (Ident → Ident → Pool → W → Lookup W) → Ident → Ident → Ident → Pool → W → Lookup W
  step again target current_i kshift p w = elim (check_context (ctx_err w)) [
    | some e ↦ done (err e) p w
    | none ↦ elim (first_successor rt) [
      | none ↦ done (err (status internal "routing table not initialized")) p w
      | some succ ↦
          if between target rt.self.id succ.id
          then done (ok (some succ)) p w
          else if between current_i rt.self.id succ.id
          then de_bruijn_hop again succ target current_i kshift p w
          else to_successor p w succ target current_i kshift
    ]
  ]

  -- FindSuccessorStep, with fuel for its calls of itself.
  unfoldable pub find_successor_step : ℕ → Ident → Ident → Ident → Pool → W → Lookup W
  find_successor_step zero target current_i kshift p w = running
  find_successor_step (suc fuel) target current_i kshift p w =
      step (λ i t. find_successor_step fuel target i t) target current_i kshift p w

  unfoldable pub find_successor_init : ℕ → Ident → Pool → W → Lookup W
  find_successor_init fuel target p w = elim (check_context (ctx_err w)) [
    | some e ↦ done (err e) p w
    | none ↦ elim (first_successor rt) [
      | none ↦
          done (err (status internal "node not initialized (routing table not initialized)")) p w
      | some succ ↦
          if between target rt.self.id succ.id
          then done (ok (some succ)) p w
          else elim (best_imaginary_simple rt.space rt.self.id succ.id target) [
            | ok (current_i, kshift) ↦ find_successor_step fuel target current_i kshift p w
            | err e ↦
                done (err (status internal "failed to compute initial currentI and kshift")) p w
            | panic ↦ done panic p w
          ]
    ]
  ]
