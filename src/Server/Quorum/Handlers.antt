-- ===== src/Server/Quorum/Handlers.antt =====
-- internal/server/server.go: the handlers of the reads and writes that wait for a majority.
use self_healing_distributed.Prelude.{
  ℕ, ◌+◌, String, Bool, true, false, Option, none, some, List, [], ◌∷◌, ◌++◌, length, ◌==◌, nat_key,
  string_key, if◌then◌else◌,
}
use self_healing_distributed.Prelude.Int64.{add64, sle}
use self_healing_distributed.Time.{milliseconds, add_duration}
use self_healing_distributed.Http.{
  Env, Request, Response, Body, blank, write_error, bad_request, method_not_allowed, unavailable,
}
use self_healing_distributed.Ring.{Node}
use self_healing_distributed.Store.{get_with_version, set_version}
use self_healing_distributed.Placement.{Placement}
use self_healing_distributed.Server.{Server, owns_local, replica_get_request, send}
use self_healing_distributed.Server.Forward.{do_forward}
use self_healing_distributed.Server.Quorum.{
  QuorumSetRequest, decode_quorum_set, NodeResponse, quorum_set_request, quorum_needed, is_ok,
  version_of, answer_of, response_of, local_response, members_of, served, acks_response,
}

module _ {W : Type 0} (env : Env W) (place : Placement) where
  -- the loop of `handleQuorumSet`: the replicas that acknowledge, and
  -- whether one did not, so that `lastErr` is set
  unfoldable pub count_acks : String → String → ℕ → ℕ → List Node → String → W → ℕ × Bool × W
  unfolding send quorum_set_request is_ok
  count_acks key value expires_at version [] node_id w = (0, false, w)
  count_acks key value expires_at version (n ∷ nodes) node_id w = elim (n.id == node_id) [
    | true ↦ count_acks key value expires_at version nodes node_id w
    | false ↦
        let (answer, w') = send env (quorum_set_request n.addr key value expires_at version) w in
        let (acks, failing, w'') = count_acks key value expires_at version nodes node_id w' in
        if is_ok answer then (acks + 1, failing, w'') else (acks, true, w'')
  ]

  -- `handleQuorumSet` at the primary
  unfoldable pub quorum_write : QuorumSetRequest → Server → W → Response × Server × W
  unfolding version_of count_acks quorum_needed acks_response
  quorum_write req s w =
      let (now, w') = env.now w in
      let expires_at = if sle req.ttl_ms 0 then 0 else add_duration now (milliseconds req.ttl_ms) in
      let (now', w'') = env.now w' in
      let version = add64 (version_of (get_with_version req.key now' s.store)) 1 in
      let s' = record s { store = (set_version req.key req.value expires_at version s.store).1 } in
      let replicas = place.replicas req.key in
      let (acks, failing, w''') =
        count_acks req.key req.value expires_at version replicas s.node_id w'' in
      (acks_response acks failing (quorum_needed (length replicas)) version, s', w''')

  -- `forwardQuorumSet`
  unfoldable pub forward_quorum_set : String → Body → W → Response × W
  unfolding do_forward write_error
  forward_quorum_set key body w = elim (place.owner key) [
    | none ↦ (write_error unavailable "no nodes available", w)
    | some owner ↦
        do_forward env
          (record {
            method = "POST";
            host = owner.addr;
            path = "/quorum/set";
            key = key;
            body = body;
          })
          w
  ]

  -- The decoding has read the body, so that what is forwarded is empty.
  unfoldable pub quorum_set_decoded : Option QuorumSetRequest → Server → W → Response × Server × W
  unfolding quorum_write owns_local forward_quorum_set write_error
  quorum_set_decoded none s w =
      (write_error bad_request "key and valid JSON body are required", s, w)
  quorum_set_decoded (some req) s w = elim (req.key == "") [
    | true ↦ (write_error bad_request "key and valid JSON body are required", s, w)
    | false ↦ elim (owns_local place req.key s) [
      | true ↦ quorum_write req s w
      | false ↦ let (resp, w') = forward_quorum_set req.key blank w in (resp, s, w')
    ]
  ]

  unfoldable pub handle_quorum_set : Request → Server → W → Response × Server × W
  unfolding quorum_set_decoded decode_quorum_set write_error
  handle_quorum_set r s w =
      if r.method == "POST"
      then quorum_set_decoded (decode_quorum_set r.body) s w
      else (write_error method_not_allowed "method must be POST", s, w)

  -- the loop of `handleQuorumGet`
  unfoldable pub collect_responses : String → List Node → String → W → List NodeResponse × W
  unfolding send replica_get_request response_of
  collect_responses key [] node_id w = ([], w)
  collect_responses key (n ∷ nodes) node_id w = elim (n.id == node_id) [
    | true ↦ collect_responses key nodes node_id w
    | false ↦
        let (answer, w') = send env (replica_get_request n.addr key) w in
        let (responses, w'') = collect_responses key nodes node_id w' in
        elim (response_of answer) [ none ↦ (responses, w'') | some r ↦ (r ∷ responses, w'') ]
  ]

  unfoldable pub quorum_read : String → Server → W → Response × W
  unfolding local_response members_of collect_responses answer_of
  quorum_read key s w =
      let (now, w') = env.now w in
      let mine = local_response (get_with_version key now s.store) s.node_id in
      let replicas = place.replicas key in
      let (others, w'') =
        collect_responses key (members_of (place.owner key) replicas) s.node_id w' in
      (answer_of key (length replicas) (mine ++ others), w'')

  unfoldable pub handle_quorum_get : Request → Server → W → Response × Server × W
  unfolding quorum_read write_error
  handle_quorum_get r s w =
      if r.method == "GET"
      then if r.key == ""
        then (write_error bad_request "key query parameter is required", s, w)
        else (let (resp, w') = quorum_read r.key s w in (resp, s, w'))
      else (write_error method_not_allowed "method must be GET", s, w)

  unfoldable pub handle_replica_get : Request → Server → W → Response × Server × W
  unfolding served write_error
  handle_replica_get r s w =
      if r.key == ""
      then (write_error bad_request "key query parameter is required", s, w)
      else (let (now, w') = env.now w in
          (served (get_with_version r.key now s.store) r.key s.node_id, s, w'))
