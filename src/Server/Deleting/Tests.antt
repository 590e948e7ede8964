-- ===== src/Server/Deleting/Tests.antt =====
-- A deletion through internal/server/server.go and a read of the key, at a node whose replica does not
-- answer, and at one whose replica still has the value.
use self_healing_distributed.Prelude.{ℕ, ◌≡◌, refl, true, some, none, [], ◌∷◌, string_key, nat_key}
use self_healing_distributed.Prelude.Map.{lookup, insert, delete}
use self_healing_distributed.Http.{
  Env, Request, text, object, blank, ok, not_found, decode, text_field, number_field, text_of,
  number_of, write_json,
}
use self_healing_distributed.Placement.{Placement}
use self_healing_distributed.Store.{
  new as new_store, set_with_expiry, put_entry, put_detached, detach, push_front, evict_if_needed,
  evict_if_listed, remove_element, next_version, default_interval, delete_locked,
}
use self_healing_distributed.Store.Access.{remove, get, get_read, get_finish}
use self_healing_distributed.Server.{
  Server, replicate_deletion, start, owns_local, is_owner, send, try_order, split_by_alive,
  is_node_alive, alive_in, replica_get_request, new, expiry_of_wire,
}
use self_healing_distributed.Server.Forward.{
  read_from_replica, read_each, copy_of, decode_copy, store_get, value_response,
}
use self_healing_distributed.Server.Handlers.{handle_delete, handle_get, read_owned, read_missing}
use self_healing_distributed.Server.Deleting.{handle_delete-handle_get}

program : Unit {0}
unfolding lookup insert decode text_field number_field text_of number_of write_json new_store
    set_with_expiry put_entry put_detached detach push_front evict_if_needed evict_if_listed
    remove_element next_version default_interval remove get get_read get_finish start owns_local
    is_owner send try_order split_by_alive is_node_alive alive_in replica_get_request new
    expiry_of_wire read_from_replica read_each copy_of decode_copy store_get value_response
    handle_delete handle_get read_owned read_missing delete_locked delete
program = tt

abbrev node : Server
node = new (set_with_expiry "k" "v" 0 (new_store 0)) "a"

-- The key is at the node, with a replica at another one.
abbrev two : Placement
two = record {
  owner = λ key. some (record { id = "a"; addr = "a:80" });
  replicas = λ key. (record { id = "b"; addr = "b:80" }) ∷ [];
}

abbrev silent : Env ℕ
silent = record { round_trip = λ r w. (none, w); now = λ w. (w, w); well_formed = λ r. true }

-- The replica has not got the deletion.
abbrev keeping : Env ℕ
keeping = record {
  round_trip = λ r w. (some (record { status = ok; body = object (("value", text "v") ∷ []) }), w);
  now = λ w. (w, w);
  well_formed = λ r. true;
}

abbrev deleting : Request
deleting = record { method = "DELETE"; host = ""; path = "/delete"; key = "k"; body = blank }

abbrev getting : Request
getting = record { method = "GET"; host = ""; path = "/get"; key = "k"; body = blank }

-- A deleted key that a replica still has is read again.
kept_run :
    (let (resp, s, w) = handle_delete keeping two deleting node 7 in
      (handle_get keeping two getting s w).0)
    ≡ value_response "k" "v"
unfolding program
kept_run = refl

handle_delete-handle_get_example :
    let (resp, s, w) = handle_delete silent two deleting node 7 in
    let (resp', s', w') = handle_get silent two getting s w in
    (resp.status ≡ ok) × (s.tasks ≡ replicate_deletion "k" ∷ []) × (resp'.status ≡ not_found)
unfolding new
handle_delete-handle_get_example =
    handle_delete-handle_get silent two deleting getting node 7 refl refl (unfold program in refl)
      refl refl (unfold program in refl)
