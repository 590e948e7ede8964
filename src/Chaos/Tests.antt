-- ===== src/Chaos/Tests.antt =====
-- Runs of the traffic of internal/chaos/chaos.go against nodes that answer all requests alike.
use self_healing_distributed.Prelude.{
  ℕ, suc, ◌%◌, ◌≡◌, refl, true, some, [], ◌∷◌, arith, ◌==◌, nat_key,
}
use self_healing_distributed.Text.{decimal, itoa}
use self_healing_distributed.Http.{Env, blank, not_found, unavailable}
use self_healing_distributed.Server.{send}
use self_healing_distributed.Chaos.{
  TrafficConfig, TrafficGenerator, Random, generator_of, new_traffic_generator, key_pool,
  get_metrics, judge, set_verdict, get_verdict, no_metrics, count_retry, refused, data_loss,
  count_loss,
}
use self_healing_distributed.Chaos.Generator.{tick, stopped, start, stop, attempts}
use self_healing_distributed.Chaos.Accounts.{IsAccounted}
use self_healing_distributed.Chaos.Traffic.{IsFair, ticks, stop-IsAccounted}

-- Nodes that answer with this status; each reading moves the clock on.
abbrev answering : ℕ → Env ℕ
answering status = record {
  round_trip = λ r w. (some (record { status = status; body = blank }), w);
  now = λ w. (w, suc w);
  well_formed = λ r. true;
}

abbrev first : Random ℕ
first = record { intn = λ n w. (0, w); is_set = λ w. (w % 2 == 0, suc w) }

first-IsFair : IsFair first
first-IsFair n w h = h

abbrev config : TrafficConfig
config = record {
  node_addrs = "10.0.0.1:8080" ∷ [];
  num_keys = 2;
  interval = 0;
  timeout = 0;
  max_retries = 1;
}

-- The defaults and the keys.
generator_run :
    ((generator_of config).keys ≡ "chaos-key-0" ∷ "chaos-key-1" ∷ [])
    × ((generator_of config).interval ≡ 10_000_000)
    × ((generator_of config).timeout ≡ 500_000_000)
unfolding generator_of key_pool decimal itoa
generator_run = (refl, refl, refl)

-- A server error is retried once, and a read that is answered 404 is not: it counts as a data loss,
-- though nothing was written.
attempts_run :
    (attempts
        (answering unavailable)
        first
        set_verdict
        1
        (record { method = "POST"; host = ""; path = "/set"; key = ""; body = blank })
        no_metrics
        0
      ≡ (some (refused unavailable blank), count_retry no_metrics, 0))
    × (attempts
          (answering not_found)
          first
          get_verdict
          1
          (record { method = "GET"; host = ""; path = "/get"; key = ""; body = blank })
          no_metrics
          0
        ≡ (some data_loss, count_loss no_metrics, 0))
unfolding attempts judge send set_verdict get_verdict
attempts_run = (refl, refl)

stop-IsAccounted_example :
    let (tg, w) = start (answering not_found) first (generator_of config) 7 in
    (last : TrafficGenerator) × (w' : ℕ) × (stop
        (answering not_found)
        first
        (tick ∷ tick ∷ stopped ∷ [])
        tg
        w
      ≡ some (last, w'))
    × IsAccounted 1 2 (get_metrics last)
unfolding generator_of key_pool new_traffic_generator ticks
stop-IsAccounted_example =
    stop-IsAccounted (answering not_found) first first-IsFair config (generator_of config)
      (tick ∷ tick ∷ stopped ∷ []) 7 refl (omega arith) (omega arith)
