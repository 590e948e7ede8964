-- ===== src/Client/Tests.antt =====
-- Runs of cmd/cache-client/main.go against a node that owns every key, and against none.
use self_healing_distributed.Prelude.{ℕ, ◌≡◌, refl, true, String, some, [], string_key, nat_key}
use self_healing_distributed.Prelude.Map.{lookup, insert}
use self_healing_distributed.Time.{is_expired, milliseconds, add_duration}
use self_healing_distributed.Http.{blank, not_found}
use self_healing_distributed.Placement.{Placement}
use self_healing_distributed.Store.{new as new_store, default_interval, expiry_of_ttl}
use self_healing_distributed.Server.{new, owns_local, is_owner, send}
use self_healing_distributed.Migration.{alone}
use self_healing_distributed.Client.{
  Flags, failed, set_request, key_request, request_of, shown, outcome, exchange, main,
}
use self_healing_distributed.Network.{Host}

program : Unit {0}
unfolding lookup insert is_expired milliseconds add_duration new_store default_interval
    expiry_of_ttl new owns_local is_owner send set_request key_request request_of shown outcome
    exchange main
program = tt

abbrev flags : String → Flags
flags command = record { url = "a:80"; command = command; key = "k"; value = "v"; ttl_ms = 0 }

-- A node that answers 404, an unknown command, and a node that does not answer.
exit_run :
    ((main
        (record {
          round_trip = λ r w. (some (record { status = not_found; body = blank }), w);
          now = λ w. (w, w);
          well_formed = λ r. true;
        })
        (flags "get")
        7).0
      ≡ record { code = 1; printed = some (404, blank) })
    × ((main alone (flags "touch") 7).0 ≡ failed)
    × ((main alone (flags "get") 7).0 ≡ failed)
unfolding program alone
exit_run = (refl, refl, refl)

abbrev owning : Placement
owning = record { owner = λ key. some (record { id = "a"; addr = "a:80" }); replicas = λ key. [] }

abbrev host : Host ℕ
host = record { server = new (new_store 0) "a"; world = 7 }
