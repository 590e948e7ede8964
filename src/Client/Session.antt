-- ===== src/Client/Session.antt =====
-- The client of cmd/cache-client/main.go at a node of internal/server/server.go.
use self_healing_distributed.Prelude.{some, string_key, nat_key}
use self_healing_distributed.Http.{Env, Request, Response}
use self_healing_distributed.Placement.{Placement}
use self_healing_distributed.Server.{Server}
use self_healing_distributed.Server.Forward.{SetRequest}
use self_healing_distributed.Network.{Host, reaching}
use self_healing_distributed.Client.{Flags, Outcome, outcome}

module _ {W : Type 0} (env : Env W) (place : Placement) (website : Request → Response) where
  -- The client reaches the node, which answers each of its requests.
  abbrev pub node : Env (Host W)
  node = reaching env place website

  abbrev replied : Response × Server × W → Outcome × Host W
  replied (resp, s, w) = (outcome (some resp), record { server = s; world = w })

  abbrev set_request_of : Flags → SetRequest
  set_request_of f = record { key = f.key; value = f.value; ttl_ms = f.ttl_ms }
