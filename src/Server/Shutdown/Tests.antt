-- ===== src/Server/Shutdown/Tests.antt =====
-- A shutdown of internal/server/server.go with one replication under way, to a replica that does not
-- answer.
use self_healing_distributed.Prelude.{some, [], ◌∷◌, string_key}
use self_healing_distributed.Placement.{Placement}
use self_healing_distributed.Store.{new as new_store}
use self_healing_distributed.Server.{Server, replicate, heal, start, new}

abbrev two : Placement
two = record {
  owner = λ key. some (record { id = "a"; addr = "a:80" });
  replicas = λ key. (record { id = "b"; addr = "b:80" }) ∷ [];
}

abbrev busy : Server
busy = start (heal "k" "w" 0) (start (replicate "k" "v" 0) (new (new_store 0) "a"))
