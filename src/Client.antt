-- ===== src/Client.antt =====
-- cmd/cache-client/main.go: the command that sends one request to a node. The flags are those of the
-- command line, parsed; the timeout is part of the transport.
pub mod Session
mod Tests
use self_healing_distributed.Prelude.{
  ℕ, String, true, false, Option, none, some, [], ◌∷◌, leb, ◌==◌, string_key, if◌then◌else◌,
}
use self_healing_distributed.Http.{
  Env, Request, Response, Body, text, number, object, blank, broken,
}
use self_healing_distributed.Server.{send}

pub record Flags : Type 0 where
  pub url : String
  pub command : String
  pub key : String
  pub value : String
  pub ttl_ms : ℕ

-- The exit code, and the status and the body that are printed. Without them an error is.
pub record Outcome : Type 0 where
  pub code : ℕ
  pub printed : Option (ℕ × Body)

-- `fail`
abbrev pub failed : Outcome
failed = record { code = 2; printed = none }

unfoldable pub set_request : Flags → Request
set_request f = record {
  method = "POST";
  host = f.url;
  path = "/set";
  key = "";
  body = object (("key", text f.key) ∷ ("value", text f.value) ∷ ("ttl_ms", number f.ttl_ms) ∷ []);
}

unfoldable pub key_request : String → String → Flags → Request
key_request method path f = record {
  method = method;
  host = f.url;
  path = path;
  key = f.key;
  body = blank;
}

-- the request of the command, if there is such a command
unfoldable pub request_of : Flags → Option Request
unfolding set_request key_request
request_of f =
    if f.command == "set"
    then some (set_request f)
    else if f.command == "get"
    then some (key_request "GET" "/get" f)
    else if f.command == "delete"
    then some (key_request "DELETE" "/delete" f)
    else none

unfoldable pub shown : ℕ → Body → Outcome
shown status broken = failed
shown status body = record { code = if leb 400 status then 1 else 0; printed = some (status, body) }

unfoldable pub outcome : Option Response → Outcome
unfolding shown
outcome none = failed
outcome (some resp) = shown resp.status resp.body

module _ {W : Type 0} (env : Env W) where
  unfoldable pub exchange : Option Request → W → Outcome × W
  unfolding send outcome
  exchange none w = (failed, w)
  exchange (some r) w = let (answer, w') = send env r w in (outcome answer, w')

  -- `main`
  unfoldable pub main : Flags → W → Outcome × W
  unfolding request_of exchange
  main f w = if f.key == "" then (failed, w) else exchange (request_of f) w
