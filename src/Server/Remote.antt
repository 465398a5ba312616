-- ===== src/Server/Remote.antt =====
-- The calls of the RPC client reach the operations of the served node.
use Prim.Native.String.{String}
use koorde_dht.Prelude.{
  ℕ, ◌≡◌, refl, ap, ◌∙◌, true, Option, none, some, [], ◌∷◌, arith, inl, inr, Option-cases,
  Bool-cases, if◌then◌else◌,
}
use koorde_dht.Prelude.Assoc.{lookup}
use koorde_dht.Result.{Error, Result, ok, err, errorf, wrap, timeout, invalid_id}
use koorde_dht.Identifier.Space.{Space, Ident, is_valid_id}
use koorde_dht.Identifier.Space.Value.{IsSpace}
use koorde_dht.Identifier.Space.Valid.{IsId, IsId-is_valid_id}
use koorde_dht.Identifier.Order.{equal}
use koorde_dht.Domain.{Resource, resource_to_proto, resource_from_proto}
use koorde_dht.Storage.{Store, store_key, put, get, delete, zero_resource}
use koorde_dht.Storage.Map.{view}
use koorde_dht.LogicNode.Context.{check_context, is_deadline}
use koorde_dht.LogicNode.Local.{
  LocalNode, store_local, is_responsible, retrieve_local, remove_local,
}
use koorde_dht.LogicNode.Remote.{Stubs, send_all, store_remote, retrieve_remote, remove_remote}
use koorde_dht.Server.Dht.{request_key, storage_status, retrieve_rpc, remove_rpc}
use koorde_dht.Server.Stream.{Progress, goes_on, message, store_turn, store_received, store_message}
use koorde_dht.Server.Served.{IsServed, turn}

module _ {sp : Space} {k : ℕ} (v : IsSpace sp k) where
  request_key-IsId : (id : Ident) → IsId sp id → request_key sp (some id) ≡ ok id
  unfolding request_key
  request_key-IsId [] h = absurd (omega (arith, v.byte_len_eq, v.bits_pos, h.length_eq))
  request_key-IsId (b ∷ bs) h = rw (request_key, IsId-is_valid_id v h) refl

  resource-sent :
      (r : Resource)
      → IsId sp r.key
      → resource_from_proto sp (resource_to_proto (some r)) ≡ ok (some r)
  unfolding resource_to_proto resource_from_proto
  resource-sent r h = rw (resource_from_proto, IsId-is_valid_id v h) refl

  -- The zero resource, which stands for a missing one, has no valid key.
  zero-sent :
      resource_from_proto sp (resource_to_proto (some zero_resource))
      ≡ err (errorf "invalid resource key ID")
  unfolding resource_to_proto resource_from_proto
  zero-sent = rw (resource_from_proto, refused) refl
    where
      refused : is_valid_id sp [] ≡ some invalid_id
      refused = unfold is_valid_id in ground (arith, v.byte_len_eq, v.bits_pos)

get-view :
    (s : Store) (id : Ident)
    → get s id ≡ ok (elim (view s id) [ none ↦ zero_resource | some r ↦ r ])
unfolding get view
get-view s id = elim (Option-cases (lookup equal (store_key id) s)) [
  | inl absent ↦ rw (get, absent) refl
  | inr (r, there) ↦ rw (get, there) refl
]

-- The turn of Store for a valid resource that the node owns.
pub store_turn-owned :
    {k : ℕ} (n : LocalNode) (r : Resource)
    → IsSpace n.rt.space k
    → IsId n.rt.space r.key
    → is_responsible n.rt r.key ≡ true
    → store_turn n (turn (message (resource_to_proto (some r))))
      ≡ goes_on (record n { store = put n.store r })
unfolding store_turn store_received store_message check_context resource_to_proto
store_turn-owned n r v h owned =
    rw (store_message, resource-sent v r h)
      (rw (ap (λ (x : LocalNode × Option Error). x.1) stored)
        (ap (λ (x : LocalNode × Option Error). goes_on x.0) stored))
  where
    stored : store_local none n r ≡ (record n { store = put n.store r }, none)
    stored = unfold store_local check_context in rw (store_local, owned) refl

module _ {W : Type 0} (net : Stubs W) (addr : String) (peer : W → LocalNode) (stream : W → Progress)
    (served : IsServed net addr peer stream) (w : W) {k : ℕ} (v : IsSpace (peer w).rt.space k) where
  pub store_remote-owned :
      (r : Resource)
      → IsId (peer w).rt.space r.key
      → is_responsible (peer w).rt r.key ≡ true
      → (later : W) × (store_remote net w addr (r ∷ []) ≡ (later, [], none))
        × (peer later ≡ record (peer w) { store = put (peer w).store r })
  unfolding store_remote send_all check_context
  store_remote-owned r h owned =
      let opened = (net.open_store w addr).0 in
      let (no_error, begun) = served.opened w in
      let (sent_ok, stepped) = served.sent opened (peer w) (resource_to_proto (some r)) begun in
      let sent = (net.send opened (resource_to_proto (some r))).0 in
      let (acked, ended) = served.closed sent _ (stepped ∙ store_turn-owned (peer w) r v h owned) in
      (
        (net.close_store sent).0,
        rw (store_remote, served.alive w) (rw no_error (rw acked (rw sent_ok refl))),
        ended,
      )

  -- A served Retrieve of a valid key returns the stored resource, if its key is valid. If nothing is
  -- stored under the key, it returns an error, which is not the storage's ErrResourceNotFound.
  pub retrieve_remote_lem :
      (id : Ident)
      → IsId (peer w).rt.space id
      → ((r : Resource)
          → view (peer w).store id ≡ some r
          → IsId (peer w).rt.space r.key
          → retrieve_remote net (peer w).rt.space w addr id ≡ (w, ok (some r)))
        × (view (peer w).store id ≡ none
            → retrieve_remote net (peer w).rt.space w addr id ≡ (
              w,
              err (
                  wrap "client: failed to convert resource: %w" (errorf "invalid resource key ID")),
            ))
  unfolding retrieve_remote check_context
  retrieve_remote_lem id h = (
    (λ r there key.
        rw (retrieve_remote, served.alive w)
          (rw (served.retrieved w id)
            (rw (answered r (get-view _ id ∙ rw there refl)) (rw (resource-sent v r key) refl)))),
    (λ absent.
        rw (retrieve_remote, served.alive w)
          (rw (served.retrieved w id) (
            rw (answered zero_resource (get-view _ id ∙ rw absent refl)) (rw (zero-sent v) refl)))),
  )
    where
      answered :
          (r : Resource)
          → get (peer w).store id ≡ ok r
          → retrieve_rpc none (peer w) (some id) ≡ ok (resource_to_proto (some r))
      answered r e =
          unfold retrieve_rpc retrieve_local check_context in
          rw (retrieve_rpc, request_key-IsId v id h) (rw e refl)

  abbrev deleted : Ident → LocalNode
  deleted id = record (peer w) { store = (delete (peer w).store id).0 }

  -- A served Remove of a valid key deletes what is stored under it; if nothing is, it returns an
  -- error.
  pub remove_remote_lem :
      (id : Ident)
      → IsId (peer w).rt.space id
      → (peer (remove_remote net w addr id).0 ≡ deleted id)
        × ((delete (peer w).store id).1 ≡ none → (remove_remote net w addr id).1 ≡ none)
        × ((e : Error)
            → (delete (peer w).store id).1 ≡ some e
            → (x : Error) × ((remove_remote net w addr id).1 ≡ some x))
  unfolding remove_remote check_context
  remove_remote_lem id h =
      let (answered, left) = served.removed w id in
      (
        rw (remove_remote, served.alive w)
            (left ∙ ap (λ (x : LocalNode × Result (Unit {0})). x.0) handled),
        (λ gone.
            rw (remove_remote, served.alive w)
              (rw (answered, ap (λ (x : LocalNode × Result (Unit {0})). x.1) handled, gone) refl)),
        (λ e absent. (
          (client_error (storage_status "remove failed: %v" e)).0,
          rw (remove_remote, served.alive w)
              (rw (answered, ap (λ (x : LocalNode × Result (Unit {0})). x.1) handled, absent)
                (client_error (storage_status "remove failed: %v" e)).1),
        )),
      )
    where
      handled : remove_rpc none (peer w) (some id) ≡ (
        deleted id,
        elim (delete (peer w).store id).1 [
          | none ↦ ok tt
          | some e ↦ err (storage_status "remove failed: %v" e)
        ],
      )
      handled =
          unfold remove_rpc remove_local check_context in
          rw (remove_rpc, request_key-IsId v id h)
            (elim (Option-cases (delete (peer w).store id).1) [
              | inl gone ↦ rw gone refl
              | inr (e, absent) ↦ rw absent refl
            ])

      client_error :
          (e : Error)
          → (x : Error) × ((if is_deadline e
                then some timeout
                else some (wrap "client: Remove RPC failed: %w" e))
              ≡ some x)
      client_error e = elim (Bool-cases (is_deadline e)) [
        | inl late ↦ (timeout, rw late refl)
        | inr other ↦ (wrap "client: Remove RPC failed: %w" e, rw other refl)
      ]
