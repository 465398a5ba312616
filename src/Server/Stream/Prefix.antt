-- ===== src/Server/Stream/Prefix.antt =====
-- Store keeps what it has received when the stream ends, however it ends.
use koorde_dht.Prelude.{
  ℕ, ◌≡◌, refl, sym, ap, ◌∙◌, true, List, [], ◌∷◌, ◌++◌, Option, none, some, All, inl, inr,
  Option-cases, arith,
}
use koorde_dht.Result.{Error, status, internal, Result-cases}
use koorde_dht.Identifier.Space.Value.{IsSpace}
use koorde_dht.Identifier.Space.Valid.{IsId}
use koorde_dht.Domain.{Resource, resource_to_proto, resource_from_proto}
use koorde_dht.Storage.{Store, put}
use koorde_dht.LogicNode.Context.{check_context}
use koorde_dht.LogicNode.Local.{LocalNode, is_responsible, store_local}
use koorde_dht.Server.Stream.{
  Turn, Received, Progress, goes_on, returned, crashed, message, broken, eof, store_message,
  store_received, store_turn, store_rpc,
}
use koorde_dht.Server.Served.{turn}
use koorde_dht.Server.Remote.{store_turn-owned}

-- The resources are stored one after another.
unfoldable pub put_all : Store → List Resource → Store
put_all s [] = s
put_all s (r ∷ rs) = put_all (put s r) rs

-- A turn for each resource.
unfoldable pub turns : List Resource → List Turn
turns [] = []
turns (r ∷ rs) = turn (message (resource_to_proto (some r))) ∷ turns rs

-- The node that a turn returns with, or n if it does not return.
returned_node : LocalNode → Progress → LocalNode
returned_node n (returned m e) = m
returned_node n (goes_on m) = n
returned_node n crashed = n

store_local-refused :
    (ctx : Option Error) (n : LocalNode) (r : Resource) (e : Error)
    → (store_local ctx n r).1 ≡ some e
    → (store_local ctx n r).0 ≡ n
unfolding store_local
store_local-refused ctx n r e refused = ground arith

returned_node-store_local :
    (n : LocalNode) (ctx : Option Error) (r : Resource) (msg : Error)
    → returned_node n (elim (store_local ctx n r).1 [
      | some e ↦ returned (store_local ctx n r).0 (some msg)
      | none ↦ goes_on (store_local ctx n r).0
    ])
      ≡ n
unfolding returned_node
returned_node-store_local n ctx r msg = elim (Option-cases (store_local ctx n r).1) [
  | inl stored ↦ rw stored refl
  | inr (e, refused) ↦ rw refused (store_local-refused ctx n r e refused)
]

returned_node-store_turn : (n : LocalNode) (t : Turn) → returned_node n (store_turn n t) ≡ n
unfolding returned_node store_turn
returned_node-store_turn n t = elim (Option-cases (check_context t.head_ctx)) [
  | inr (e, over) ↦ rw (store_turn, over) refl
  | inl alive ↦ rw (store_turn, alive) (received t.received)
]
  where
    received : (x : Received) → returned_node n (store_received n t.store_ctx x) ≡ n
    received (eof e) = unfold store_received returned_node in refl
    received (broken e) = unfold store_received returned_node in refl
    received (message none) = unfold store_received store_message returned_node in refl
    received (message (some p)) =
        unfold store_received store_message returned_node in
        elim (Result-cases (resource_from_proto n.rt.space (some p))) [
          | inr (inl (e, invalid)) ↦ rw (store_message, invalid) refl
          | inr (inr crash) ↦ rw (store_message, crash) refl
          | inl (none, nothing) ↦ rw (store_message, nothing) refl
          | inl (some r, converted) ↦
              rw (store_message, converted)
                (returned_node-store_local n t.store_ctx r
                  (status internal "failed to store resource: %v"))
        ]

returned-same :
    (n m : LocalNode) (t : Turn) (e : Option Error) → store_turn n t ≡ returned m e → m ≡ n
returned-same n m t e ended =
    unfold returned_node in sym (ap (returned_node n) ended) ∙ returned_node-store_turn n t

-- When a stream brings resources with valid keys that the node owns, and then a turn in which Store
-- returns, because the stream ends or breaks, the context is over, or a message is missing, invalid or not
-- owned, Store returns what that turn returns; the node has stored the resources in their order, and is unchanged otherwise.
pub store_rpc_lem :
    {k : ℕ} (rs : List Resource) (n m : LocalNode) (last : Turn) (rest : List Turn)
    (e : Option Error)
    → IsSpace n.rt.space k
    → All (λ (r : Resource). IsId n.rt.space r.key × (is_responsible n.rt r.key ≡ true)) rs
    → store_turn (record n { store = put_all n.store rs }) last ≡ returned m e
    → (store_rpc n (turns rs ++ (last ∷ rest)) ≡ returned m e)
      × (m ≡ record n { store = put_all n.store rs })
unfolding store_rpc turns put_all
store_rpc_lem [] n m last rest e v hs ended =
    (rw (store_rpc, ended) refl, returned-same n m last e ended)
store_rpc_lem (r ∷ rs) n m last rest e v hs ended =
    let stored = record n { store = put n.store r } in
    let (ran, same) = store_rpc_lem rs stored m last rest e v hs.1 ended in
    (rw (store_rpc, store_turn-owned n r v hs.0.0 hs.0.1) ran, same)
