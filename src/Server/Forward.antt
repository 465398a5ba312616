-- ===== src/Server/Forward.antt =====
-- Put, Get and Delete at a node whose successor owns the key.
use Prim.Native.String.{String}
use koorde_dht.Prelude.{ℕ, ◌≡◌, refl, sym, ap, subst, ◌∙◌, true, false, Option, none, some}
use koorde_dht.Result.{Error, Result, ok}
use koorde_dht.Identifier.Space.{Space, Ident}
use koorde_dht.Identifier.Space.Value.{IsSpace}
use koorde_dht.Identifier.Space.Valid.{IsId}
use koorde_dht.Identifier.Order.{equal, between}
use koorde_dht.Identifier.Order.Circle.{equal_iff}
use koorde_dht.Domain.{Node, ProtoNode, Resource}
use koorde_dht.RoutingTable.{first_successor}
use koorde_dht.Storage.{Store, put, delete}
use koorde_dht.Storage.Map.{view, put-view, delete-view}
use koorde_dht.Pool.{returns}
use koorde_dht.Pool.Tally.{IsOther}
use koorde_dht.LogicNode.Context.{check_context}
use koorde_dht.LogicNode.Lookup.{StepRequest, done, find_successor_init}
use koorde_dht.LogicNode.Local.{LocalNode, is_responsible}
use koorde_dht.LogicNode.Remote.{Stubs, retrieve_remote, remove_remote}
use koorde_dht.LogicNode.Answer.{finished}
use koorde_dht.LogicNode.Requests.{
  resolve, connect, put_at, put_request, get_at, get_request, delete_at, delete_request,
}
use koorde_dht.LogicNode.Referenced.{IsReferenced}
use koorde_dht.LogicNode.Referenced.Pooled.{IsReferenced-get_from_pool, first_successor-named}
use koorde_dht.LogicNode.Requests.Single.{delete-bound}
use koorde_dht.Server.Stream.{Progress}
use koorde_dht.Server.Served.{IsServed}
use koorde_dht.Server.Remote.{store_remote-owned, retrieve_remote_lem, remove_remote_lem}

-- The first successor of a node is another node, which owns a key that the node finds at once.
pub record IsOwner (n peer : LocalNode) (succ : Node) (key : Ident) : Type 0 where
  pub first : first_successor n.rt ≡ some succ
  pub distinct : equal succ.id n.rt.self.id ≡ false
  pub other : IsOther n.pool succ.addr
  pub found : between key n.rt.self.id succ.id ≡ true
  pub valid : IsId n.rt.space key
  pub same_space : peer.rt.space ≡ n.rt.space
  pub owned : is_responsible peer.rt key ≡ true

module _ {W : Type 0} (net : Stubs W)
    (rpc : W → String → StepRequest → W × Result (Option ProtoNode))
    (dial hang_up : String → Option Error) (fuel : ℕ) (n : LocalNode) (succ : Node)
    (peer : W → LocalNode) (stream : W → Progress)
    (served : IsServed net succ.addr peer stream) where
  resolve-owner :
      (failed missing : String) (w : W) (id : Ident)
      → IsOwner n (peer w) succ id
      → resolve net rpc dial hang_up fuel failed missing n w id ≡ finished n w (ok succ)
  unfolding resolve check_context
  resolve-owner failed missing w id o = rw (resolve, served.alive w) (rw looked refl)
    where
      looked :
          find_successor_init net.ctx_err rpc n.rt fuel id n.pool w ≡ done (ok (some succ)) n.pool w
      looked =
          unfold find_successor_init check_context in
          rw (find_successor_init, served.alive w) (rw o.first (rw o.found refl))

  connect-owner :
      (w : W) (id : Ident)
      → IsReferenced n
      → IsOwner n (peer w) succ id
      → connect net rpc dial hang_up fuel n.pool succ.addr ≡ returns none n.pool
  unfolding connect
  connect-owner w id h o =
      rw
        (
          connect,
          IsReferenced-get_from_pool n succ.addr h o.other
              (rw (first_successor-named n.rt succ o.first) refl),
        )
        refl

  put-owner :
      {k : ℕ} (w : W) (r : Resource)
      → IsSpace n.rt.space k
      → IsReferenced n
      → IsOwner n (peer w) succ r.key
      → (later : W) × (put_request net rpc dial hang_up fuel n w r ≡ finished n later none)
        × (peer later ≡ record (peer w) { store = put (peer w).store r })
  unfolding put_request put_at
  put-owner {k = k} w r v h o =
      let v' = subst (λ (s : Space). IsSpace s k) (sym o.same_space) v in
      let valid = subst (λ (s : Space). IsId s r.key) (sym o.same_space) o.valid in
      let (later, stored, kept) =
        store_remote-owned net succ.addr peer stream served w v' r valid o.owned in
      (
        later,
        rw (put_request, resolve-owner _ _ w r.key o)
            (rw (put_at, o.distinct) (rw (connect-owner w r.key h o) (rw stored refl))),
        kept,
      )

  get-owner :
      {k : ℕ} (w : W) (r : Resource)
      → IsSpace n.rt.space k
      → IsReferenced n
      → IsOwner n (peer w) succ r.key
      → view (peer w).store r.key ≡ some r
      → get_request net rpc dial hang_up fuel n w r.key ≡ finished n w (ok (some r))
  unfolding get_request get_at
  get-owner {k = k} w r v h o there =
      rw (get_request, resolve-owner _ _ w r.key o)
        (rw (get_at, o.distinct)
          (rw (connect-owner w r.key h o) (
            rw (ap (λ (x : W × Result (Option Resource)). x.1) fetched)
              (ap (λ (x : W × Result (Option Resource)). finished n x.0 (ok (some r))) fetched))))
    where
      fetched : retrieve_remote net n.rt.space w succ.addr r.key ≡ (w, ok (some r))
      fetched =
          let v' = subst (λ (s : Space). IsSpace s k) (sym o.same_space) v in
          let valid = subst (λ (s : Space). IsId s r.key) (sym o.same_space) o.valid in
          let (present, _) =
            retrieve_remote_lem net succ.addr peer stream served w v' r.key valid in
          subst (λ (s : Space). retrieve_remote net s w succ.addr r.key ≡ (w, ok (some r)))
            o.same_space (present r there valid)

  delete-owner :
      {k : ℕ} (w : W) (id : Ident)
      → IsSpace n.rt.space k
      → IsReferenced n
      → IsOwner n (peer w) succ id
      → (delete (peer w).store id).1 ≡ none
      → (later : W) × (delete_request net rpc dial hang_up fuel n w id ≡ finished n later none)
        × (peer later ≡ record (peer w) { store = (delete (peer w).store id).0 })
  unfolding delete_request delete_at
  delete-owner {k = k} w id v h o gone =
      let v' = subst (λ (s : Space). IsSpace s k) (sym o.same_space) v in
      let valid = subst (λ (s : Space). IsId s id) (sym o.same_space) o.valid in
      let (left, deleted, _) = remove_remote_lem net succ.addr peer stream served w v' id valid in
      (
        (remove_remote net w succ.addr id).0,
        rw (delete_request, resolve-owner _ _ w id o)
            (rw (delete_at, o.distinct) (rw (connect-owner w id h o) (rw (deleted gone) refl))),
        left,
      )

  -- Putting changes nothing that makes the peer the owner.
  IsOwner-stored :
      (w later : W) (s : Store) (key : Ident)
      → peer later ≡ record (peer w) { store = s }
      → IsOwner n (peer w) succ key
      → IsOwner n (peer later) succ key
  IsOwner-stored w later s key e o = record {
    first = o.first;
    distinct = o.distinct;
    other = o.other;
    found = o.found;
    valid = o.valid;
    same_space = rw e o.same_space;
    owned = rw e o.owned;
  }

  -- Let every role of the node be referenced, and its successor, another node, answer the calls that
  -- are made to its address, with no call's context ending. If the successor is responsible for a
  -- resource's valid key, which lies between the node and it, then Put at the node succeeds and stores
  -- the resource at the successor; then Get of its key returns that resource; and then Delete of the key
  -- succeeds and leaves nothing stored under it at the successor. The node itself stays as it was.
  pub put-get-delete-owner :
      {k : ℕ} (w : W) (r : Resource)
      → IsSpace n.rt.space k
      → IsReferenced n
      → IsOwner n (peer w) succ r.key
      → (w1 w2 : W) × (put_request net rpc dial hang_up fuel n w r ≡ finished n w1 none)
        × (view (peer w1).store r.key ≡ some r)
        × (get_request net rpc dial hang_up fuel n w1 r.key ≡ finished n w1 (ok (some r)))
        × (delete_request net rpc dial hang_up fuel n w1 r.key ≡ finished n w2 none)
        × (view (peer w2).store r.key ≡ none)
  put-get-delete-owner w r v h o =
      let hr = o.valid.bytes in
      let self_equal = (equal_iff r.key r.key).1 refl in
      let (w1, stored, kept) = put-owner w r v h o in
      let o' = IsOwner-stored w w1 _ r.key kept o in
      let there : view (peer w1).store r.key ≡ some r =
        rw kept ((put-view (peer w).store r r.key hr hr).0 ∙ rw self_equal refl) in
      let (w2, deleted, left) =
        delete-owner w1 r.key v h o' (delete-bound (peer w1).store r.key r there) in
      (
        w1,
        w2,
        stored,
        there,
        get-owner w1 r v h o' there,
        deleted,
        rw left ((delete-view (peer w1).store r.key r.key hr hr).0 ∙ rw self_equal refl),
      )
