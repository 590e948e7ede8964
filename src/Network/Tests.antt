-- ===== src/Network/Tests.antt =====
-- A write and a read of a key at a node that does not own it, with the owner behind it.
use self_healing_distributed.Prelude.{ℕ, ◌≡◌, refl, inl, some, [], ◌∷◌, string_key, nat_key}
use self_healing_distributed.Prelude.Map.{lookup}
use self_healing_distributed.Time.{is_expired, milliseconds}
use self_healing_distributed.Http.{
  Request, text, number, object, blank, ok, decode, text_field, number_field, text_of, number_of,
}
use self_healing_distributed.Ring.{Node}
use self_healing_distributed.Placement.{Placement}
use self_healing_distributed.Store.{new as new_store, default_interval, expiry_of_ttl}
use self_healing_distributed.Store.Invariant.{IsValid, new-IsValid}
use self_healing_distributed.Server.{Server, new, is_node_alive, alive_in}
use self_healing_distributed.Server.Forward.{decode_set, value_response}
use self_healing_distributed.Server.Handlers.{handle_set, handle_get}
use self_healing_distributed.Migration.{alone, no_files}
use self_healing_distributed.Network.{Host, reaching}
use self_healing_distributed.Network.Proxy.{handle_set-handle_get_proxied}

abbrev owner : Node
owner = record { id = "b"; addr = "b:80" }

abbrev at_b : Placement
at_b = record { owner = λ key. some owner; replicas = λ key. [] }

abbrev node_a : Server
node_a = new (new_store 0) "a"

abbrev host_b : Host ℕ
host_b = record { server = new (new_store 0) "b"; world = 7 }

abbrev setting : Request
setting = record {
  method = "POST";
  host = "a:80";
  path = "/set";
  key = "";
  body = object (("key", text "k") ∷ ("value", text "v") ∷ ("ttl_ms", number 0) ∷ []);
}

abbrev getting : Request
getting = record { method = "GET"; host = "a:80"; path = "/get"; key = "k"; body = blank }

host_b-store : IsValid host_b.server.store
unfolding new
host_b-store = new-IsValid 0

program : Unit {0}
unfolding lookup decode text_field number_field text_of number_of decode_set new is_node_alive
    alive_in new_store default_interval is_expired expiry_of_ttl milliseconds
program = tt

handle_set-handle_get_proxied_example :
    let (resp, s, h) = handle_set (reaching alone at_b no_files) at_b setting node_a host_b in
    let (resp', s', h') = handle_get (reaching alone at_b no_files) at_b getting s h in
    (resp.status ≡ ok) × (s ≡ node_a) × (resp' ≡ value_response "k" "v")
unfolding program
handle_set-handle_get_proxied_example =
    handle_set-handle_get_proxied alone at_b no_files setting getting
      (record { key = "k"; value = "v"; ttl_ms = 0 }) owner node_a host_b refl refl refl refl refl
      refl refl refl refl refl refl host_b-store (inl refl) refl
