-- ===== src/Server/Api.antt =====
-- internal/node/server/client_service.go: the service for clients. A request that may be nil is an
-- Option; generated messages have the fields of proto/client/v1/client.proto.
use Prim.Native.String.{String}
use text.Mathlib.Text.{◌==◌ as str_eq}
use koorde_dht.Prelude.{ℕ, true, false, List, [], ◌∷◌, Option, none, some, map, if◌then◌else◌}
use koorde_dht.Result.{Error, Result, ok, err, panic, status, invalid_argument, not_found, internal}
use koorde_dht.Identifier.Space.{Ident, new_id_from_string}
use koorde_dht.Identifier.Hex.{Text, to_hex_string, from_hex_string}
use koorde_dht.Domain.{Node, Resource}
use koorde_dht.Domain.Client.{NodeInfo, ClientResource, node_to_client, resource_from_client}
use koorde_dht.RoutingTable.{get_predecessor, successor_list, de_bruijn_list}
use koorde_dht.LogicNode.Context.{check_context}
use koorde_dht.LogicNode.Local.{LocalNode, all_stored}
use koorde_dht.LogicNode.Answer.{Answer, finished, panicked, stuck, unfinished}
use koorde_dht.LogicNode.Network.{Network}
use koorde_dht.LogicNode.Requests.{is_not_found, put_request, get_request, delete_request, look_up}

pub record GetStoreResponse : Type 0 where
  pub item : ClientResource
  pub id : Text

pub record GetRoutingTableResponse : Type 0 where
  pub self : Option NodeInfo
  pub predecessor : Option NodeInfo
  pub successors : List (Option NodeInfo)
  pub de_bruijn_list : List (Option NodeInfo)

abbrev invalid : String → Error
invalid msg = status invalid_argument msg

-- The error of an operation: NotFound if it is the storage's, or else Internal.
unfoldable pub resource_status : String → Error → Error
resource_status msg e = elim (is_not_found e) [
  | true ↦ status not_found "resource not found"
  | false ↦ status internal msg
]

unfoldable pub get_routing_table : Option Error → LocalNode → Result GetRoutingTableResponse
get_routing_table ctx n = elim (check_context ctx) [
  | some e ↦ err e
  | none ↦ ok (record {
    self = node_to_client (some n.rt.self);
    predecessor = node_to_client (get_predecessor n.rt);
    successors = map (λ (s : Node). node_to_client (some s)) (successor_list n.rt);
    de_bruijn_list = map (λ (s : Node). node_to_client (some s)) (de_bruijn_list n.rt);
  })
]

abbrev store_item : Resource → GetStoreResponse
store_item r = record {
  item = record { key = r.raw_key; value = r.value };
  id = to_hex_string true (some r.key);
}

module _ {W : Type 0} (ctx_err : W → Option Error)
    (send : W → GetStoreResponse → W × Option Error) where
  -- The loop over the resources.
  unfoldable pub send_store : W → List Resource → W × Option Error
  send_store w [] = (w, none)
  send_store w (r ∷ rs) = elim (check_context (ctx_err w)) [
    | some e ↦ (w, some e)
    | none ↦
        let (later, failed) = send w (store_item r) in
        elim failed [
          | some e ↦ (later, some (status internal "failed to send resource: %v"))
          | none ↦ send_store later rs
        ]
  ]

  unfoldable pub get_store : LocalNode → W → W × Option Error
  get_store n w = elim (check_context (ctx_err w)) [
    | some e ↦ (w, some e)
    | none ↦ send_store w (all_stored n)
  ]

module _ {W : Type 0} (net : Network W) (sha1 : String → List ℕ) (fuel : ℕ) where
  -- Put of a request that is complete.
  unfoldable pub put_resource : LocalNode → W → ClientResource → Answer W (Option Error)
  put_resource n w item = elim (resource_from_client sha1 n.rt.space (some item)) [
    | err e ↦ panicked
    | panic ↦ panicked
    | ok none ↦ panicked
    | ok (some res) ↦ elim (put_request net.streams net.step net.dial net.hang_up fuel n w res) [
      | panicked ↦ panicked
      | stuck ↦ stuck
      | unfinished ↦ unfinished
      | finished m v none ↦ finished m v none
      | finished m v (some e) ↦ finished m v (some (status internal "failed to store resource: %v"))
    ]
  ]

  -- The request with its resource; a nil request has none.
  unfoldable pub put_rpc : LocalNode → W → Option ClientResource → Answer W (Option Error)
  put_rpc n w req = elim (check_context (net.streams.ctx_err w)) [
    | some e ↦ finished n w (some e)
    | none ↦ elim req [
      | none ↦ finished n w (some (invalid "missing resource"))
      | some item ↦ elim (str_eq item.key "") [
        | true ↦ finished n w (some (invalid "missing key"))
        | false ↦ elim (str_eq item.value "") [
          | true ↦ finished n w (some (invalid "missing value"))
          | false ↦ put_resource n w item
        ]
      ]
    ]
  ]

  -- The identifier of a request's key. A nil request has the key "".
  unfoldable pub key_id : LocalNode → String → Result Ident
  key_id n key =
      if str_eq key "" then err (invalid "missing key") else new_id_from_string sha1 n.rt.space key

  -- The value of the resource.
  unfoldable pub get_rpc : LocalNode → W → String → Answer W (Result String)
  get_rpc n w key = elim (check_context (net.streams.ctx_err w)) [
    | some e ↦ finished n w (err e)
    | none ↦ elim (key_id n key) [
      | err e ↦ finished n w (err e)
      | panic ↦ panicked
      | ok id ↦ elim (get_request net.streams net.step net.dial net.hang_up fuel n w id) [
        | panicked ↦ panicked
        | stuck ↦ stuck
        | unfinished ↦ unfinished
        | finished m v panic ↦ panicked
        | finished m v (err e) ↦
            finished m v (err (resource_status "failed to retrieve resource: %v" e))
        | finished m v (ok none) ↦ finished m v (err (status not_found "resource not found"))
        | finished m v (ok (some res)) ↦ finished m v (ok res.value)
      ]
    ]
  ]

  unfoldable pub delete_rpc : LocalNode → W → String → Answer W (Option Error)
  delete_rpc n w key = elim (check_context (net.streams.ctx_err w)) [
    | some e ↦ finished n w (some e)
    | none ↦ elim (key_id n key) [
      | err e ↦ finished n w (some e)
      | panic ↦ panicked
      | ok id ↦ elim (delete_request net.streams net.step net.dial net.hang_up fuel n w id) [
        | panicked ↦ panicked
        | stuck ↦ stuck
        | unfinished ↦ unfinished
        | finished m v none ↦ finished m v none
        | finished m v (some e) ↦
            finished m v (some (resource_status "failed to delete resource: %v" e))
      ]
    ]
  ]

  -- The identifier of a request. A nil request has none.
  unfoldable pub lookup_id : LocalNode → Text → Result Ident
  lookup_id n [] = err (invalid "missing ID")
  lookup_id n (c ∷ cs) = elim (from_hex_string n.rt.space (c ∷ cs)) [
    | ok id ↦ ok id
    | err e ↦ err (invalid "invalid ID")
    | panic ↦ panic
  ]

  unfoldable pub lookup_rpc : LocalNode → W → Text → Answer W (Result (Option NodeInfo))
  lookup_rpc n w text = elim (check_context (net.streams.ctx_err w)) [
    | some e ↦ finished n w (err e)
    | none ↦ elim (lookup_id n text) [
      | err e ↦ finished n w (err e)
      | panic ↦ panicked
      | ok id ↦ elim (look_up net.streams net.step net.dial net.hang_up fuel n w id) [
        | panicked ↦ panicked
        | stuck ↦ stuck
        | unfinished ↦ unfinished
        | finished m v panic ↦ panicked
        | finished m v (err e) ↦ finished m v (err (status internal "lookup failed: %v"))
        | finished m v (ok succ) ↦ finished m v (ok (node_to_client (some succ)))
      ]
    ]
  ]
