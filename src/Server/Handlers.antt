-- ===== src/Server/Handlers.antt =====
-- internal/server/server.go: the handlers of the plain reads and writes, of the replicas' side of
-- them, and of the migration of keys. Each one returns the response, the node and its surroundings.
use self_healing_distributed.Prelude.{
  ℕ, String, true, false, Option, none, some, [], ◌∷◌, ◌==◌, nat_key, string_key, if◌then◌else◌,
  ◌>>=◌,
}
use self_healing_distributed.Prelude.Int64.{slt}
use self_healing_distributed.Time.{milliseconds, unix_milli}
use self_healing_distributed.Http.{
  Env, Request, Response, Body, text, number, decode, text_field, number_field, write_json,
  write_error, ok, accepted, bad_request, not_found, method_not_allowed,
}
use self_healing_distributed.Store.{set_with_expiry, get_expiry, expiry_of_ttl}
use self_healing_distributed.Store.Access.{keys, remove}
use self_healing_distributed.Placement.{Placement}
use self_healing_distributed.Server.{
  Server, replicate, replicate_deletion, heal, rebalance, start, owns_local, expiry_of_wire,
  get_or_create_rebalancer,
}
use self_healing_distributed.Server.Forward.{
  SetRequest, decode_set, encode_set, value_response, store_set, store_get, forward,
  forward_with_body, forward_with_fallback, read_from_replica,
}

-- `replicateRequest`, and the same fields of the body of `/rebalance/accept`
pub record ReplicateRequest : Type 0 where
  pub key : String
  pub value : String
  pub expires_at_ms : ℕ

unfoldable pub decode_replicate : Body → Option ReplicateRequest
unfolding decode text_field number_field
decode_replicate body = do
  m ← decode body
  key ← text_field "key" m
  value ← text_field "value" m
  ms ← number_field "expires_at_ms" m
  some (record { key = key; value = value; expires_at_ms = ms })

abbrev bad_method : String → Response
bad_method method = write_error method_not_allowed method

abbrev pub missing_key : Response
missing_key = write_error bad_request "key query parameter is required"

abbrev invalid_set : Response
invalid_set = write_error bad_request "key and valid JSON body are required"

abbrev status_ok : Response
status_ok = write_json ok (("status", text "ok") ∷ [])

-- `handleReplicaSet`
unfoldable pub store_replica : Option ReplicateRequest → Server → Response × Server
unfolding write_error write_json expiry_of_wire
store_replica none s = (invalid_set, s)
store_replica (some req) s = if req.key == "" then (invalid_set, s) else (
  status_ok,
  record s { store = set_with_expiry req.key req.value (expiry_of_wire req.expires_at_ms) s.store },
)

unfoldable pub handle_replica_set : Request → Server → Response × Server
unfolding decode_replicate store_replica write_error
handle_replica_set r s =
    if r.method == "POST"
    then store_replica (decode_replicate r.body) s
    else (bad_method "method must be POST", s)

-- `handleReplicaDelete`
unfoldable pub handle_replica_delete : Request → Server → Response × Server
unfolding write_error write_json
handle_replica_delete r s =
    if r.method == "DELETE"
    then if r.key == ""
      then (missing_key, s)
      else (status_ok, record s { store = remove r.key s.store })
    else (bad_method "method must be DELETE", s)

-- `handleRebalanceAccept`; the key of the query is required, and that of the body is stored
unfoldable pub accept : Option ReplicateRequest → Server → Response × Server
unfolding write_error write_json expiry_of_wire
accept none s = (write_error bad_request "invalid JSON body", s)
accept (some req) s = (
  write_json ok (("status", text "accepted") ∷ ("key", text req.key) ∷ []),
  record s { store = set_with_expiry req.key req.value (expiry_of_wire req.expires_at_ms) s.store },
)

unfoldable pub handle_rebalance_accept : Request → Server → Response × Server
unfolding decode_replicate accept write_error
handle_rebalance_accept r s =
    if r.method == "POST"
    then if r.key == "" then (missing_key, s) else accept (decode_replicate r.body) s
    else (bad_method "method must be POST", s)

-- `handleRebalanceComplete`
unfoldable pub handle_rebalance_complete : Request → Server → Response × Server
unfolding write_error write_json
handle_rebalance_complete r s =
    if r.method == "POST"
    then if r.key == "" then (missing_key, s) else (
      write_json ok (("status", text "deleted") ∷ ("key", text r.key) ∷ []),
      record s { store = remove r.key s.store },
    )
    else (bad_method "method must be POST", s)

module _ {W : Type 0} (env : Env W) (place : Placement) where
  -- `handleSet`, once the request is decoded
  unfoldable pub write_owned : SetRequest → Server → W → Response × Server × W
  unfolding store_set write_json start
  write_owned req s w =
      let ttl = milliseconds req.ttl_ms in
      let (s', w') = store_set env req.key req.value ttl s w in
      let (now, w'') = env.now w' in
      (status_ok, start (replicate req.key req.value (expiry_of_ttl ttl now)) s', w'')

  unfoldable pub set_decoded : Request → Option SetRequest → Server → W → Response × Server × W
  unfolding write_owned owns_local encode_set forward_with_body write_error
  set_decoded r none s w = (invalid_set, s, w)
  set_decoded r (some req) s w = elim (req.key == "") [
    | true ↦ (invalid_set, s, w)
    | false ↦ elim (slt req.ttl_ms 0) [
      | true ↦ (write_error bad_request "ttl_ms must not be negative", s, w)
      | false ↦ elim (owns_local place req.key s) [
        | false ↦ forward_with_body env place r req.key (encode_set req) s w
        | true ↦ write_owned req s w
      ]
    ]
  ]

  unfoldable pub handle_set : Request → Server → W → Response × Server × W
  unfolding set_decoded decode_set write_error
  handle_set r s w =
      if r.method == "POST"
      then set_decoded r (decode_set r.body) s w
      else (bad_method "method must be POST", s, w)

  -- What `handleGet` and `handleRebalancePull` do on a local miss: ask the replicas, and start to
  -- write locally what one of them has.
  unfoldable pub read_missing : String → Server → W → Response × Server × W
  unfolding read_from_replica value_response start write_error
  read_missing key s w =
      let (copy, w') = read_from_replica env place key s w in
      elim copy [
        | none ↦ (write_error not_found "key not found", s, w')
        | some (value, expires_at) ↦
            (value_response key value, start (heal key value expires_at) s, w')
      ]

  unfoldable pub read_owned : String → Server → W → Response × Server × W
  unfolding store_get read_missing value_response
  read_owned key s w =
      let (value, s', w') = store_get env key s w in
      elim value [ some v ↦ (value_response key v, s', w') | none ↦ read_missing key s' w' ]

  unfoldable pub handle_get : Request → Server → W → Response × Server × W
  unfolding owns_local forward_with_fallback read_owned write_error
  handle_get r s w =
      if r.method == "GET"
      then if r.key == ""
        then (missing_key, s, w)
        else if owns_local place r.key s
        then read_owned r.key s w
        else forward_with_fallback env place r.key s w
      else (bad_method "method must be GET", s, w)

  unfoldable pub handle_delete : Request → Server → W → Response × Server × W
  unfolding owns_local forward start write_error write_json
  handle_delete r s w =
      if r.method == "DELETE"
      then if r.key == ""
        then (missing_key, s, w)
        else if owns_local place r.key s
        then (
          status_ok,
          start (replicate_deletion r.key) (record s { store = remove r.key s.store }),
          w,
        )
        else forward env place r r.key s w
      else (bad_method "method must be DELETE", s, w)

  -- the rest of `handleRebalancePull`, after `Get`
  unfoldable pub pull_read : String → Option String × Server × W → Response × Server × W
  unfolding read_missing write_json
  pull_read key (none, s, w) = read_missing key s w
  pull_read key (some v, s, w) = (
    write_json ok (
        ("key", text key)
        ∷ ("value", text v)
        ∷ ("expires_at_ms", number (unix_milli (get_expiry key s.store)))
        ∷ []),
    s,
    w,
  )

  unfoldable pub pull : String → Server → W → Response × Server × W
  unfolding store_get pull_read
  pull key s w = pull_read key (store_get env key s w)

  unfoldable pub handle_rebalance_pull : Request → Server → W → Response × Server × W
  unfolding pull write_error
  handle_rebalance_pull r s w =
      if r.method == "POST"
      then if r.key == "" then (missing_key, s, w) else pull r.key s w
      else (bad_method "method must be POST", s, w)

  -- `TriggerRebalance`, and `handleRebalance`
  unfoldable pub trigger_rebalance : Server → W → Server × W
  unfolding start get_or_create_rebalancer
  trigger_rebalance s w =
      let (rb, s') = get_or_create_rebalancer s in
      let (now, w') = env.now w in (start (rebalance (keys now s.store)) s', w')

  unfoldable pub handle_rebalance : Request → Server → W → Response × Server × W
  unfolding trigger_rebalance write_error write_json
  handle_rebalance r s w =
      if r.method == "POST"
      then (let (s', w') = trigger_rebalance s w in
          (write_json accepted (("status", text "rebalance started") ∷ []), s', w'))
      else (bad_method "method must be POST", s, w)
