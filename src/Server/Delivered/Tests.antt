-- ===== src/Server/Delivered/Tests.antt =====
-- A tick of the retry loop ten seconds after a replication failed, at a node that keeps the key.
use self_healing_distributed.Prelude.{
  ℕ, suc, true, ◌≡◌, refl, none, some, [], ◌∷◌, arith, string_key, nat_key,
}
use self_healing_distributed.Prelude.Map.{lookup, insert}
use self_healing_distributed.Http.{Env, blank}
use self_healing_distributed.Ring.{seen_in, is_some}
use self_healing_distributed.Placement.{Placement}
use self_healing_distributed.Store.{new as new_store, set}
use self_healing_distributed.Server.{Server, new, send}
use self_healing_distributed.Server.Pending.{IsTracked, track-IsTracked}
use self_healing_distributed.Server.Replication.{
  replicas_of, pending_since, track, since, retry_failed_replications,
}
use self_healing_distributed.Server.Due.{IsDue}
use self_healing_distributed.Server.Delivered.{Answers, retry_failed_replications-delivers}

-- The network answers, and the clock stands at ten seconds; a state of the network counts its
-- requests.
abbrev steady : Env ℕ
steady = record {
  round_trip = λ r count. (some (record { status = 200; body = blank }), suc count);
  now = λ count. (10_000_000_000, count);
  well_formed = λ r. true;
}

abbrev two : Placement
two = record {
  owner = λ key. some (record { id = "a"; addr = "a:80" });
  replicas = λ key. (record { id = "b"; addr = "b:80" }) ∷ [];
}

abbrev failed : Server
failed = record (new (set "k" "v" 0 0 (new_store 0)) "a") { pending_repls = track "k" "b" 0 [] }

failed-IsTracked : IsTracked failed.pending_repls
unfolding new lookup
failed-IsTracked =
    track-IsTracked "k" "b" 0 []
      (record { distinct = tt; replicas = λ key m h. absurd (ground arith) })

steady-IsDue : IsDue steady 0 failed (λ count. Unit)
unfolding new since
steady-IsDue = record { stays = λ w q. tt; due = λ w q. refl; young = λ w q. refl }

steady-Answers : Answers steady "k" "b"
unfolding send is_some
steady-Answers = record { answers = λ n value expires_at w named. refl }

pending_once : pending_since "k" "b" failed.pending_repls ≡ some 0
unfolding new track pending_since replicas_of lookup insert
pending_once = refl

retry_failed_replications-delivers_example :
    pending_since "k" "b" (retry_failed_replications steady two failed 7).0.pending_repls ≡ none
unfolding seen_in
retry_failed_replications-delivers_example =
    retry_failed_replications-delivers steady "k" "b" two 0 failed 7 (λ count. Unit)
      failed-IsTracked pending_once refl steady-IsDue tt steady-Answers
