-- ===== src/LogicNode/Requests/Single.antt =====
-- A new DHT of one node serves its requests.
use Prim.Native.Nat.{Ordering}
use Prim.Native.String.{String}
use koorde_dht.Prelude.{
  ℕ, ◌<◌, ◌≡◌, refl, sym, ap, ◌∙◌, true, [], ◌∷◌, Option, none, some, All, arith,
}
use koorde_dht.Result.{Error, Result, ok}
use koorde_dht.Identifier.Space.{Ident, IsByte}
use koorde_dht.Identifier.Order.{cmp, between}
use koorde_dht.Identifier.Order.Circle.{equal_iff}
use koorde_dht.Domain.{ProtoNode, Resource}
use koorde_dht.RoutingTable.{
  RoutingTable, first_successor, get_predecessor, init_single_node, set_successor, set_predecessor,
  set_de_bruijn,
}
use koorde_dht.RoutingTable.Shape.{IsTable}
use koorde_dht.RoutingTable.Single.{init_single_node_lem}
use koorde_dht.Storage.{Store, put, delete}
use koorde_dht.Storage.Map.{view, put-view, delete-view}
use koorde_dht.LogicNode.Context.{check_context}
use koorde_dht.LogicNode.Lookup.{StepRequest, done, find_successor_init}
use koorde_dht.LogicNode.Local.{
  LocalNode, create_new_dht, store_local, is_responsible, retrieve_local, remove_local,
}
use koorde_dht.LogicNode.Remote.{Stubs}
use koorde_dht.LogicNode.Answer.{finished}
use koorde_dht.LogicNode.Requests.{
  resolve, put_at, put_request, get_at, get_request, delete_at, delete_request,
}

cmp_self : (a : Ident) → cmp a a ≡ Ordering.eq
unfolding cmp
cmp_self [] = refl
cmp_self (b ∷ bs) = ground (arith, cmp_self bs)

pub between-whole : (x a : Ident) → between x a a ≡ true
unfolding between
between-whole x a = rw (between, cmp_self a) refl

self-init : (rt : RoutingTable) → (init_single_node rt).self ≡ rt.self
unfolding init_single_node set_successor set_predecessor set_de_bruijn
self-init rt = ground arith

pub delete-bound :
    (s : Store) (id : Ident) (r : Resource) → view s id ≡ some r → (delete s id).1 ≡ none
unfolding delete view
delete-bound s id r e = ground arith

module _ {W : Type 0} (net : Stubs W)
    (rpc : W → String → StepRequest → W × Result (Option ProtoNode))
    (dial hang_up : String → Option Error) (fuel : ℕ) where
  -- A node that is its own first successor finds itself.
  resolve-self :
      (failed missing : String) (n : LocalNode) (w : W) (id : Ident)
      → net.ctx_err w ≡ none
      → first_successor n.rt ≡ some n.rt.self
      → resolve net rpc dial hang_up fuel failed missing n w id ≡ finished n w (ok n.rt.self)
  unfolding resolve check_context
  resolve-self failed missing n w id alive own = rw (resolve, alive) (rw found refl)
    where
      found :
          find_successor_init net.ctx_err rpc n.rt fuel id n.pool w
          ≡ done (ok (some n.rt.self)) n.pool w
      found =
          unfold find_successor_init in
          rw (find_successor_init, alive) (rw own (rw (between-whole id n.rt.self.id) refl))

  -- A node that is its own first successor and predecessor stores, returns and deletes by itself.
  put-self :
      (n : LocalNode) (w : W) (r : Resource)
      → net.ctx_err w ≡ none
      → first_successor n.rt ≡ some n.rt.self
      → get_predecessor n.rt ≡ some n.rt.self
      → put_request net rpc dial hang_up fuel n w r
        ≡ finished (record n { store = put n.store r }) w none
  unfolding put_request put_at store_local is_responsible check_context
  put-self n w r alive own pred =
      rw (put_request, resolve-self _ _ n w r.key alive own)
        (rw (put_at, (equal_iff n.rt.self.id n.rt.self.id).1 refl) (rw stored refl))
    where
      owned : is_responsible n.rt r.key ≡ true
      owned = rw (is_responsible, pred) (between-whole r.key n.rt.self.id)

      stored : store_local (net.ctx_err w) n r ≡ (record n { store = put n.store r }, none)
      stored = rw (store_local, alive) (rw owned refl)

  get-self :
      (n : LocalNode) (w : W) (id : Ident) (r : Resource)
      → net.ctx_err w ≡ none
      → first_successor n.rt ≡ some n.rt.self
      → retrieve_local n id ≡ ok r
      → get_request net rpc dial hang_up fuel n w id ≡ finished n w (ok (some r))
  unfolding get_request get_at
  get-self n w id r alive own there =
      rw (get_request, resolve-self _ _ n w id alive own)
        (rw (get_at, (equal_iff n.rt.self.id n.rt.self.id).1 refl) (rw there refl))

  delete-self :
      (n : LocalNode) (w : W) (id : Ident)
      → net.ctx_err w ≡ none
      → first_successor n.rt ≡ some n.rt.self
      → (delete n.store id).1 ≡ none
      → delete_request net rpc dial hang_up fuel n w id
        ≡ finished (record n { store = (delete n.store id).0 }) w none
  unfolding delete_request delete_at remove_local
  delete-self n w id alive own gone =
      rw (delete_request, resolve-self _ _ n w id alive own)
        (rw (delete_at, (equal_iff n.rt.self.id n.rt.self.id).1 refl) (rw gone refl))

  -- In a DHT that a node has just created, while the request's context is alive, Put of a resource
  -- succeeds, then Get of its key returns that resource, and then Delete of the key succeeds and
  -- leaves nothing stored under it; the network is not used.
  pub put-get-delete :
      (n : LocalNode) (w : W) (r : Resource)
      → IsTable n.rt
      → 0 < n.rt.space.succ_list_size
      → 0 < n.rt.space.graph_grade
      → net.ctx_err w ≡ none
      → All IsByte r.key
      → (m : LocalNode) × (m' : LocalNode) × (put_request net rpc dial hang_up fuel
            (create_new_dht n)
            w
            r
          ≡ finished m w none)
        × (get_request net rpc dial hang_up fuel m w r.key ≡ finished m w (ok (some r)))
        × (delete_request net rpc dial hang_up fuel m w r.key ≡ finished m' w none)
        × (view m'.store r.key ≡ none)
  unfolding create_new_dht retrieve_local
  put-get-delete n w r shape hs hd alive hr =
      let (own, pred, _, _, _) = init_single_node_lem n.rt 0 shape hs hd in
      let same : (create_new_dht n).rt.self ≡ n.rt.self = self-init n.rt in
      let m = record (create_new_dht n) { store = put n.store r } in
      let bound : view (put n.store r) r.key ≡ some r =
        (put-view n.store r r.key hr hr).0 ∙ rw ((equal_iff r.key r.key).1 refl) refl in
      let there : retrieve_local m r.key ≡ ok r =
        (put-view (put n.store r) r r.key hr hr).1 ∙ rw bound refl in
      let gone : (delete (put n.store r) r.key).1 ≡ none =
        delete-bound (put n.store r) r.key r bound in
      let own' : first_successor m.rt ≡ some m.rt.self = own ∙ ap some (sym same) in
      (
        m,
        record m { store = (delete m.store r.key).0 },
        put-self (create_new_dht n) w r alive own' (pred ∙ ap some (sym same)),
        get-self m w r.key r alive own' there,
        delete-self m w r.key alive own' gone,
        (delete-view (put n.store r) r.key r.key hr hr).0
            ∙ rw ((equal_iff r.key r.key).1 refl) refl,
      )
