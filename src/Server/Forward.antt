-- ===== src/Server/Forward.antt =====
-- internal/server/server.go: requests for a key that another node owns, and reads of a replica.
use self_healing_distributed.Prelude.{
  ℕ, String, true, false, Option, none, some, List, [], ◌∷◌, ◌==◌, nat_key, string_key,
  if◌then◌else◌, ◌>>=◌,
}
use Prim.Native.String.{◌++◌ as append}
use self_healing_distributed.Time.{milliseconds}
use self_healing_distributed.Http.{
  Env, Request, Response, Body, text, number, object, decode, text_field, number_field, write_json,
  write_error, read_request_body, ok, bad_request, internal_error, bad_gateway, unavailable,
}
use self_healing_distributed.Ring.{Node}
use self_healing_distributed.Store.{set}
use self_healing_distributed.Store.Access.{get, remove}
use self_healing_distributed.Placement.{Placement}
use self_healing_distributed.Server.{
  Server, is_node_alive, try_order, expiry_of_wire, get_request, replica_get_request, send,
}

-- `setRequest`
pub record SetRequest : Type 0 where
  pub key : String
  pub value : String
  pub ttl_ms : ℕ

unfoldable pub decode_set : Body → Option SetRequest
unfolding decode text_field number_field
decode_set body = do
  m ← decode body
  key ← text_field "key" m
  value ← text_field "value" m
  ttl_ms ← number_field "ttl_ms" m
  some (record { key = key; value = value; ttl_ms = ttl_ms })

unfoldable pub encode_set : SetRequest → Body
encode_set req =
    object (("key", text req.key) ∷ ("value", text req.value) ∷ ("ttl_ms", number req.ttl_ms) ∷ [])

-- The value and the expiry that `/replica/get` answered with; `none` where the node did not answer,
-- answered with another status than 200, or with something else.
unfoldable pub decode_copy : Body → Option (String × ℕ)
unfolding decode text_field number_field expiry_of_wire
decode_copy body = do
  m ← decode body
  value ← text_field "value" m
  ms ← number_field "expires_at_ms" m
  some (value, expiry_of_wire ms)

unfoldable pub copy_of : Option Response → Option (String × ℕ)
unfolding decode_copy
copy_of none = none
copy_of (some resp) = if resp.status == ok then decode_copy resp.body else none

-- The answer of `/get` and of `/rebalance/pull` with a value.
unfoldable pub value_response : String → String → Response
unfolding write_json
value_response key value = write_json ok (("key", text key) ∷ ("value", text value) ∷ [])

module _ {W : Type 0} (env : Env W) where
  -- `s.store.Set` and `s.store.Get`, with the clock that they read
  unfoldable pub store_set : String → String → ℕ → Server → W → Server × W
  store_set key value ttl s w =
      let (now, w') = env.now w in (record s { store = set key value ttl now s.store }, w')

  unfoldable pub store_get : String → Server → W → Option String × Server × W
  store_get key s w =
      let (now, w') = env.now w in
      let (now', w'') = env.now w' in
      let (value, store') = get key now now' s.store in (value, record s { store = store' }, w'')

  -- `http.NewRequest` and `doForward`
  unfoldable pub do_forward : Request → W → Response × W
  unfolding write_error
  do_forward r w =
      if env.well_formed r
      then (let (answer, w') = env.round_trip r w in
          elim answer [
            | none ↦ (write_error bad_gateway (append "node unavailable: " r.host), w')
            | some resp ↦ (resp, w')
          ])
      else (write_error internal_error "forwarding failed", w)

  -- `handleReplicaWriteWithBody`
  unfoldable pub replica_write : Request → String → Body → Server → W → Response × Server × W
  unfolding decode_set store_set write_error write_json
  replica_write r key body s w =
      let answer =
        write_json ok (("status", text "ok") ∷ ("note", text "accepted_by_replica") ∷ []) in
      if r.path == "/set"
      then elim (decode_set body) [
        | none ↦ (write_error bad_request "invalid JSON body", s, w)
        | some req ↦
            let (s', w') = store_set req.key req.value (milliseconds req.ttl_ms) s w in
            (answer, s', w')
      ]
      else if r.path == "/delete"
      then (answer, record s { store = remove key s.store }, w)
      else (write_error bad_request "unsupported operation", s, w)

  -- the loop of `forwardToReplica`
  unfoldable pub forward_each :
      Request → String → Body → List Node → Server → W → Response × Server × W
  unfolding replica_write send write_error
  forward_each r key body [] s w =
      (write_error bad_gateway "primary and all replicas unavailable", s, w)
  forward_each r key body (n ∷ nodes) s w = elim (n.id == s.node_id) [
    | true ↦ replica_write r key body s w
    | false ↦
        let (answer, w') = send env (record r { host = n.addr; key = key; body = body }) w in
        elim answer [ none ↦ forward_each r key body nodes s w' | some resp ↦ (resp, s, w') ]
  ]

  unfoldable pub forward_to_replica :
      Placement → Request → String → Server → W → Response × Server × W
  unfolding forward_each try_order read_request_body write_error
  forward_to_replica place r key s w = elim (read_request_body r) [
    | none ↦ (write_error internal_error "failed to read request body", s, w)
    | some body ↦ forward_each r key body (try_order (place.replicas key) s) s w
  ]

  unfoldable pub forward : Placement → Request → String → Server → W → Response × Server × W
  unfolding forward_to_replica is_node_alive read_request_body do_forward write_error
  forward place r key s w = elim (place.owner key) [
    | none ↦ (write_error unavailable "no nodes available", s, w)
    | some owner ↦ elim (is_node_alive owner.id s) [
      | false ↦ forward_to_replica place r key s w
      | true ↦ elim (read_request_body r) [
        | none ↦ (write_error internal_error "failed to read request body", s, w)
        | some body ↦
            let (resp, w') =
              do_forward (record r { host = owner.addr; key = key; body = body }) w in
            (resp, s, w')
      ]
    ]
  ]

  -- `forwardWithBody`, with the body that the handler has built again
  unfoldable pub forward_with_body :
      Placement → Request → String → Body → Server → W → Response × Server × W
  unfolding forward_to_replica is_node_alive do_forward write_error
  forward_with_body place r key body s w = elim (place.owner key) [
    | none ↦ (write_error unavailable "no nodes available", s, w)
    | some owner ↦ elim (is_node_alive owner.id s) [
      | false ↦ forward_to_replica place (record r { body = body }) key s w
      | true ↦
          let (resp, w') = do_forward (record r { host = owner.addr; key = key; body = body }) w in
          (resp, s, w')
    ]
  ]

  -- the loop of `forwardWithFallback`
  unfoldable pub fallback_each : String → List Node → Server → W → Response × Server × W
  unfolding store_get send get_request write_error value_response
  fallback_each key [] s w = (write_error bad_gateway "primary and all replicas unavailable", s, w)
  fallback_each key (n ∷ nodes) s w = elim (n.id == s.node_id) [
    | true ↦
        let (value, s', w') = store_get key s w in
        elim value [
          | some v ↦ (value_response key v, s', w')
          | none ↦ fallback_each key nodes s' w'
        ]
    | false ↦
        let (answer, w') = send env (get_request n.addr key) w in
        elim answer [ none ↦ fallback_each key nodes s w' | some resp ↦ (resp, s, w') ]
  ]

  unfoldable pub forward_with_fallback : Placement → String → Server → W → Response × Server × W
  unfolding fallback_each try_order is_node_alive get_request write_error
  forward_with_fallback place key s w = elim (place.owner key) [
    | none ↦ (write_error unavailable "no nodes available", s, w)
    | some primary ↦ elim (is_node_alive primary.id s) [
      | false ↦ fallback_each key (try_order (place.replicas key) s) s w
      | true ↦ elim (env.well_formed (get_request primary.addr key)) [
        | false ↦ (write_error internal_error "request failed", s, w)
        | true ↦
            let (answer, w') = env.round_trip (get_request primary.addr key) w in
            elim answer [
              | some resp ↦ (resp, s, w')
              | none ↦ fallback_each key (try_order (place.replicas key) s) s w'
            ]
      ]
    ]
  ]

  -- the loop of `readFromReplica`
  unfoldable pub read_each : String → List Node → String → W → Option (String × ℕ) × W
  unfolding send replica_get_request copy_of
  read_each key [] node_id w = (none, w)
  read_each key (n ∷ nodes) node_id w = elim (n.id == node_id) [
    | true ↦ read_each key nodes node_id w
    | false ↦
        let (answer, w') = send env (replica_get_request n.addr key) w in
        elim (copy_of answer) [
          | none ↦ read_each key nodes node_id w'
          | some copy ↦ (some copy, w')
        ]
  ]

  unfoldable pub read_from_replica : Placement → String → Server → W → Option (String × ℕ) × W
  unfolding read_each try_order
  read_from_replica place key s w = read_each key (try_order (place.replicas key) s) s.node_id w
