-- ===== src/Server/Quorum.antt =====
-- internal/server/server.go: the reads and writes that wait for a majority of the replication group.
pub mod Handlers
use self_healing_distributed.Prelude.{
  ℕ, ◌+◌, ◌/◌, String, Bool, true, false, Option, none, some, List, [], ◌∷◌, ◌++◌, ltb, length,
  ◌==◌, nat_key, string_key, if◌then◌else◌, ◌>>=◌,
}
use self_healing_distributed.Prelude.Int64.{add64, slt, sle}
use self_healing_distributed.Time.{milliseconds, unix_milli, add_duration}
use self_healing_distributed.Http.{
  Env, Request, Response, Body, text, number, object, null, composite, blank, decode, text_field,
  number_field, write_json, write_error, ok, bad_request, not_found, method_not_allowed,
  unavailable,
}
use self_healing_distributed.Ring.{Node}
use self_healing_distributed.Store.{get_with_version, set_version}
use self_healing_distributed.Placement.{Placement}
use self_healing_distributed.Server.{Server, owns_local, expiry_of_wire, replica_get_request, send}
use self_healing_distributed.Server.Forward.{do_forward}

-- `quorumSetRequest`, whose version is not used; and the body of `/replica/quorum/set`
pub record QuorumSetRequest : Type 0 where
  pub key : String
  pub value : String
  pub ttl_ms : ℕ
  pub version : ℕ

unfoldable pub decode_quorum_set : Body → Option QuorumSetRequest
unfolding decode text_field number_field
decode_quorum_set body = do
  m ← decode body
  key ← text_field "key" m
  value ← text_field "value" m
  ttl_ms ← number_field "ttl_ms" m
  version ← number_field "version" m
  some (record { key = key; value = value; ttl_ms = ttl_ms; version = version })

pub record VersionedWrite : Type 0 where
  pub key : String
  pub value : String
  pub expires_at_ms : ℕ
  pub version : ℕ

unfoldable pub decode_versioned : Body → Option VersionedWrite
unfolding decode text_field number_field
decode_versioned body = do
  m ← decode body
  key ← text_field "key" m
  value ← text_field "value" m
  ms ← number_field "expires_at_ms" m
  version ← number_field "version" m
  some (record { key = key; value = value; expires_at_ms = ms; version = version })

-- `nodeResponse`
pub record NodeResponse : Type 0 where
  pub value : String
  pub version : ℕ
  pub expires_at : ℕ
  pub node_id : String

-- the fields of `quorumGetResponse` that a reader uses; the key has to be a string as well
unfoldable pub decode_response : Body → Option NodeResponse
unfolding decode text_field number_field expiry_of_wire
decode_response body = do
  m ← decode body
  key ← text_field "key" m
  value ← text_field "value" m
  version ← number_field "version" m
  ms ← number_field "expires_at_ms" m
  from ← text_field "from_node" m
  some (record { value = value; version = version; expires_at = expiry_of_wire ms; node_id = from })

unfoldable pub quorum_set_request : String → String → String → ℕ → ℕ → Request
quorum_set_request addr key value expires_at version = record {
  method = "POST";
  host = addr;
  path = "/replica/quorum/set";
  key = key;
  body = object (
      ("key", text key)
      ∷ ("value", text value)
      ∷ ("expires_at_ms", number (unix_milli expires_at))
      ∷ ("version", number version)
      ∷ []);
}

-- A majority of the replicas and one more node.
unfoldable pub quorum_needed : ℕ → ℕ
quorum_needed replicas = (replicas + 1) / 2 + 1

unfoldable pub is_ok : Option Response → Bool
is_ok none = false
is_ok (some resp) = resp.status == ok

-- `handleReplicaQuorumSet`
unfoldable pub store_versioned : Option VersionedWrite → Server → Response × Server
unfolding write_error write_json expiry_of_wire
store_versioned none s = (write_error bad_request "invalid JSON body", s)
store_versioned (some req) s = (
  write_json ok (("status", text "ok") ∷ ("node_id", text s.node_id) ∷ []),
  record s {
    store =
        (set_version req.key req.value (expiry_of_wire req.expires_at_ms) req.version s.store).1;
  },
)

unfoldable pub handle_replica_quorum_set : Request → Server → Response × Server
unfolding decode_versioned store_versioned write_error
handle_replica_quorum_set r s =
    if r.method == "POST"
    then if r.key == ""
      then (write_error bad_request "key query parameter is required", s)
      else store_versioned (decode_versioned r.body) s
    else (write_error method_not_allowed "method must be POST", s)

unfoldable pub version_of : Option (String × ℕ × ℕ) → ℕ
version_of none = 0
version_of (some (value, version, expires_at)) = version

-- the response with the greatest version, the first of them
unfoldable pub best_of : NodeResponse → List NodeResponse → NodeResponse
best_of best [] = best
best_of best (r ∷ rs) = if slt best.version r.version then best_of r rs else best_of best rs

-- The last part of `handleQuorumGet`: what it makes of the responses.
unfoldable pub answer_of : String → ℕ → List NodeResponse → Response
unfolding write_error write_json best_of quorum_needed
answer_of key replicas [] = write_error not_found "key not found"
answer_of key replicas (r ∷ rs) =
    if ltb (length (r ∷ rs)) (quorum_needed replicas)
    then write_json unavailable (
        ("status", text "quorum_failed")
        ∷ ("acks", number (length (r ∷ rs)))
        ∷ ("needed", number (quorum_needed replicas))
        ∷ ("error", text "majority of nodes unreachable")
        ∷ [])
    else (let best = best_of r rs in
        write_json ok (
          ("key", text key)
          ∷ ("value", text best.value)
          ∷ ("version", number best.version)
          ∷ ("from", text best.node_id)
          ∷ []))

unfoldable pub response_of : Option Response → Option NodeResponse
unfolding decode_response
response_of none = none
response_of (some resp) = if resp.status == ok then decode_response resp.body else none

unfoldable pub local_response : Option (String × ℕ × ℕ) → String → List NodeResponse
local_response none node_id = []
local_response (some (value, version, expires_at)) node_id =
    (record { value = value; version = version; expires_at = expires_at; node_id = node_id }) ∷ []

-- the replicas, and the primary where it has an identity
unfoldable pub members_of : Option Node → List Node → List Node
members_of none replicas = replicas
members_of (some primary) replicas = if primary.id == "" then replicas else replicas ++ primary ∷ []

-- `handleReplicaGet`
unfoldable pub served : Option (String × ℕ × ℕ) → String → String → Response
unfolding write_error write_json
served none key node_id = write_error not_found "key not found"
served (some (value, version, expires_at)) key node_id = write_json ok (
    ("key", text key)
    ∷ ("value", text value)
    ∷ ("version", number version)
    ∷ ("expires_at_ms", number (unix_milli expires_at))
    ∷ ("from_node", text node_id)
    ∷ [])

-- The last part of `handleQuorumSet`: the answer for so many acknowledging replicas.
unfoldable pub acks_response : ℕ → Bool → ℕ → ℕ → Response
unfolding write_json
acks_response acks failing needed version =
    if ltb (acks + 1) needed
    then write_json unavailable (
        ("status", text "quorum_failed")
        ∷ ("acks", number (acks + 1))
        ∷ ("replica_acks", number acks)
        ∷ ("needed", number needed)
        ∷ ("error", if failing then composite else null)
        ∷ [])
    else write_json ok (
        ("status", text "ok")
        ∷ ("acks", number (acks + 1))
        ∷ ("replica_acks", number acks)
        ∷ ("version", number version)
        ∷ [])
