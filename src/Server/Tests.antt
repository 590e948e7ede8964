-- ===== src/Server/Tests.antt =====
-- Runs of internal/server/server.go at a node of two, and the theorems at these runs. The other node
-- answers nothing in the one network, and acknowledges whatever it gets in the other.
use self_healing_distributed.Prelude.{
  subst, String, Option, ℕ, suc, ◌+◌, ◌<◌, ◌≡◌, refl, inl, true, none, some, List, [], ◌∷◌, arith,
  string_key, nat_key, get_elem?,
}
use self_healing_distributed.Prelude.Map.{lookup, insert}
use self_healing_distributed.Time.{add_duration, is_expired, unix_milli, milliseconds}
use self_healing_distributed.Http.{
  Env, Request, Response, text, number, object, blank, write_json, write_error, ok, decode,
  number_field, number_of, text_field, text_of,
}
use self_healing_distributed.Ring.{Node}
use self_healing_distributed.Ring.{seen_in}
use self_healing_distributed.Ring.Replication.{IsUnique}
use self_healing_distributed.Placement.{Placement, IsLawful}
use self_healing_distributed.Server.Reachable.{AllReachable, quorum_write-succeeds}
use self_healing_distributed.Store.{
  Store, Entry, new as new_store, put_entry, put_detached, detach, push_front, default_interval,
  evict_if_needed, evict_if_listed, remove_element, set_with_expiry, set as store_set_value,
  live_item, set_version, get_with_version, expiry_of_ttl, next_version, has_version,
}
use self_healing_distributed.Store.Invariant.{IsValid, new-IsValid}
use self_healing_distributed.Store.History.{apply, run, write_with_expiry}
use self_healing_distributed.Cluster.{new as new_cluster, is_alive, flag_of}
use self_healing_distributed.Server.{
  with_cluster, try_order, split_by_alive, is_node_alive, alive_in, Server, start, replicate, new,
  owns_local, is_owner, replicate_request, expiry_of_wire, send,
}
use self_healing_distributed.Server.Replication.{
  pending_since, replicas_of, track_failed_replication, track, replicate_each, replicate_set,
  retry_failed_replications,
}
use self_healing_distributed.Server.Pending.{IsTracked}
use self_healing_distributed.Server.Records.{replicate_set-IsReplicated}
use self_healing_distributed.Server.Retried.{IsRetried, retry_failed_replications-IsRetried}
use self_healing_distributed.Server.Forward.{store_set, decode_set, value_response}
use self_healing_distributed.Server.Handlers.{
  set_decoded, write_owned, handle_set, handle_get, handle_replica_set,
}
use self_healing_distributed.Server.Quorum.{
  QuorumSetRequest, NodeResponse, answer_of, best_of, handle_replica_quorum_set, quorum_set_request,
  quorum_needed, acks_response, version_of, is_ok,
}
use self_healing_distributed.Server.Quorum.Handlers.{quorum_write, count_acks}
use self_healing_distributed.Server.Routes.{set}
use self_healing_distributed.Server.Validity.{IsSound}
use self_healing_distributed.Server.Tasks.{Move, request, task, retry, expire, joined, left, moves}
use self_healing_distributed.Server.Life.{moves-IsSound}
use self_healing_distributed.Server.Majority.{
  reported, AllOlder, answer_of-newest, quorum_write-meets, quorum_write-lost,
}
use self_healing_distributed.Server.Reading.{
  handle_replica_set-get, handle_replica_quorum_set-acks, handle_set-handle_get,
}

-- What the runs compute with.
program : Unit {0}
unfolding lookup insert is_expired milliseconds unix_milli decode text_field number_field text_of
    number_of write_json write_error new_store put_entry put_detached detach push_front
    default_interval evict_if_needed evict_if_listed remove_element set_with_expiry store_set_value
    live_item set_version get_with_version next_version has_version expiry_of_ttl new owns_local
    is_owner apply run answer_of best_of quorum_needed quorum_write count_acks acks_response
    version_of is_ok send
program = tt

abbrev silent : Env ℕ
silent = record {
  round_trip = λ r clock. (none, suc clock);
  now = λ clock. (clock, suc clock);
  well_formed = λ r. true;
}

abbrev willing : Env ℕ
willing = record {
  round_trip = λ r clock. (some (record { status = 200; body = blank }), suc clock);
  now = λ clock. (clock, suc clock);
  well_formed = λ r. true;
}

abbrev home : Node
home = record { id = "a"; addr = "10.0.0.1:80" }

abbrev other : Node
other = record { id = "b"; addr = "10.0.0.2:80" }

-- Every key is at home, with its replica at the other node.
abbrev two : Placement
two = record { owner = λ key. some home; replicas = λ key. other ∷ [] }

abbrev no_site : Request → Response
no_site r = record { status = 404; body = blank }

abbrev node : Server
node = new (new_store 0) "a"

node-store : IsValid node.store
unfolding new
node-store = new-IsValid 0

empty-IsTracked : IsTracked []
unfolding lookup
empty-IsTracked = record { distinct = tt; replicas = λ key m p. absurd (ground arith) }

node-IsSound : IsSound node
unfolding new
node-IsSound = record { store = new-IsValid 0; pending = empty-IsTracked }

abbrev setting : Request
setting = record {
  method = "POST";
  host = "";
  path = "/set";
  key = "";
  body = object (("key", text "k") ∷ ("value", text "v") ∷ ("ttl_ms", number 5) ∷ []);
}

abbrev getting : Request
getting = record { method = "GET"; host = ""; path = "/get"; key = "k"; body = blank }

abbrev life : List Move
life = request setting ∷ task 0 ∷ request getting ∷ joined "b" ∷ retry ∷ expire ∷ left "b" ∷ []

moves-IsSound_example : IsSound (moves silent two no_site life node 7).0
moves-IsSound_example = moves-IsSound silent two no_site life node 7 node-IsSound

abbrev quorum_request : QuorumSetRequest
quorum_request = record { key = "k"; value = "v"; ttl_ms = 0; version = 0 }

abbrev response_a : NodeResponse
response_a = record { value = "v"; version = 1; expires_at = 0; node_id = "a" }

abbrev response_b : NodeResponse
response_b = record { value = "w"; version = 2; expires_at = 0; node_id = "b" }

answer_of-newest_example :
    (b : NodeResponse) × (i : ℕ) × (get_elem? (response_a ∷ response_b ∷ []) i ≡ some b)
    × AllOlder b.version (response_a ∷ response_b ∷ [])
    × (2 < 4)
    × (answer_of "k" 1 (response_a ∷ response_b ∷ [])
        ≡ write_json ok (
            ("key", text "k")
            ∷ ("value", text b.value)
            ∷ ("version", number b.version)
            ∷ ("from", text b.node_id)
            ∷ []))
answer_of-newest_example =
    answer_of-newest "k" 1 (response_a ∷ response_b ∷ []) (unfold program in refl)

quorum_write-meets_example :
    (acks : ℕ) × (reported "acks" (quorum_write willing two quorum_request node 7).0 ≡ some acks)
    × (2 < acks + 2)
quorum_write-meets_example =
    quorum_write-meets willing two quorum_request node 7 (response_a ∷ response_b ∷ [])
      (unfold program in refl) (unfold program in refl)

-- A node whose entry has expired and has not been swept.
abbrev stale_store : Store
stale_store = run (write_with_expiry "k" "old" 3 ∷ []) (new_store 0)

abbrev stale : Server
stale = new stale_store "a"

abbrev old_entry : Entry
old_entry = record { value = "old"; expires_at = 3; version = 1; lru_element = none; size = 4 }

stale-entry : lookup "k" stale.store.entries ≡ some old_entry
unfolding program
stale-entry = refl

quorum_write-lost_example : (quorum_write willing two quorum_request stale 7).1.store ≡ stale.store
quorum_write-lost_example =
    quorum_write-lost willing two quorum_request stale 7 old_entry stale-entry
      (unfold program in refl) refl

-- It is answered 200, and a read does not find the value.
lost_run :
    ((quorum_write willing two quorum_request stale 7).0.status ≡ 200)
    × (get_with_version "k" 9 (quorum_write willing two quorum_request stale 7).1.store ≡ none)
unfolding program
lost_run = (refl, refl)

abbrev behind : Server
behind = (replicate_set silent two "k" "v" 0 node 7).1

behind_run : pending_since "k" "b" behind.pending_repls ≡ some 8
unfolding program replicate_set replicate_each track_failed_replication track pending_since
    replicas_of replicate_request
behind_run = refl

retry_failed_replications-IsRetried_example :
    IsRetried behind (retry_failed_replications silent two behind 9).0
retry_failed_replications-IsRetried_example =
    retry_failed_replications-IsRetried silent two behind 9
      (replicate_set-IsReplicated silent two "k" "v" 0 node 7
        (unfold new in empty-IsTracked)).tracked

set_body : decode_set setting.body ≡ some (record { key = "k"; value = "v"; ttl_ms = 5 })
unfolding program decode_set
set_body = refl

handle_set-handle_get_example :
    let (resp, s', w') = handle_set silent two setting node 7 in
    let (resp', s'', w'') = handle_get silent two getting s' w' in
    (resp.status ≡ ok)
    × (s'.tasks ≡ replicate "k" "v" 5_000_008 ∷ [])
    × (resp' ≡ value_response "k" "v")
unfolding program add_duration
handle_set-handle_get_example =
    handle_set-handle_get silent two setting getting (record { key = "k"; value = "v"; ttl_ms = 5 })
      node 7 refl set_body refl refl refl refl refl node-store (inl refl)
      (unfold handle_set set_decoded write_owned store_set decode_set start in refl)

handle_replica_set-get_example :
    let (resp, s') = handle_replica_set (replicate_request "10.0.0.1:80" "k" "v" 0) node in
    (resp.status ≡ ok) × (get_with_version "k" 9 s'.store ≡ some ("v", 1, 0))
unfolding program expiry_of_wire
handle_replica_set-get_example =
    handle_replica_set-get "10.0.0.1:80" "k" "v" 0 9 node refl node-store (inl refl)

handle_replica_quorum_set-acks_example :
    let (resp, s') =
      handle_replica_quorum_set (quorum_set_request "10.0.0.1:80" "k" "v" 0 4) node in
    (resp.status ≡ ok) × (has_version (lookup "k" s'.store.entries) 4 ≡ true)
handle_replica_quorum_set-acks_example =
    handle_replica_quorum_set-acks "10.0.0.1:80" "k" "v" 0 4 node refl node-store
      (inl (unfold new new_store in refl))

willing-AllReachable : AllReachable willing
unfolding is_ok
willing-AllReachable = record { formed = λ r. refl; answers = λ r w. refl }

abbrev id_of : Option Node → String
id_of none = ""
id_of (some n) = n.id

two-IsLawful : IsLawful two
unfolding seen_in
two-IsLawful = record {
  distinct = λ key owner p. subst (λ o. IsUnique (id_of o ∷ "b" ∷ [])) p (refl, (refl, tt));
}

quorum_write-succeeds_example :
    ((quorum_write willing two quorum_request node 7).0.status ≡ ok)
    × (reported "acks" (quorum_write willing two quorum_request node 7).0 ≡ some 2)
unfolding new
quorum_write-succeeds_example =
    quorum_write-succeeds willing two willing-AllReachable quorum_request node 7 home two-IsLawful
      refl refl

abbrev watching : Server
watching = with_cluster (new_cluster "a") node

-- Only the node itself counts as alive in a new table, so it is tried first.
order_run : try_order (other ∷ home ∷ []) watching ≡ home ∷ other ∷ []
unfolding program try_order split_by_alive is_node_alive alive_in with_cluster new_cluster is_alive
    flag_of
order_run = refl
