-- ===== src/Chaos/Generator.antt =====
-- internal/chaos/chaos.go: the loop that sends the traffic, over a source of random numbers.
use Prim.Native.String.{◌++◌ as append}
use self_healing_distributed.Prelude.{
  ℕ, zero, suc, String, true, Option, none, some, List, [], ◌∷◌, length, get_elem?, ◌==◌, nat_key,
  string_key, if◌then◌else◌, ◌>>=◌,
}
use self_healing_distributed.Prelude.Int64.{sub64}
use self_healing_distributed.Text.{decimal}
use self_healing_distributed.Http.{Env, Request, Response}
use self_healing_distributed.Server.{send}
use self_healing_distributed.Chaos.{
  Failure, Metrics, TrafficGenerator, Random, Verdict, set_verdict, get_verdict, count_retry,
  count_request, count_success, record_failed_request, judge, set_request, get_request, unix_nano,
}

-- What wakes the generator: a tick, or the closing of `stop`.
pub data Wake : Type 0 where
  tick stopped : Wake

module _ {W : Type 0} (env : Env W) (random : Random W) where
  unfoldable pub pick : List String → W → Option (String × W)
  pick l w =
      if length l == 0
      then none
      else (let (i, w') = random.intn (length l) w in
          elim (get_elem? l i) [ none ↦ none | some x ↦ some (x, w') ])

  -- the loop over the attempts of `doSet` and of `doGet`, on the retries that are left: the error of
  -- the last one, `none` if it was a success
  unfoldable pub attempts :
      (Option Response → Verdict) → ℕ → Request → Metrics → W → Option Failure × Metrics × W
  unfolding send count_retry judge
  attempts verdict zero r m w =
      let (answer, w') = send env r w in judge (verdict answer) m w' (λ e. (some e, m, w'))
  attempts verdict (suc left) r m w =
      let (answer, w') = send env r w in
      judge (verdict answer) m w' (λ e. attempts verdict left r (count_retry m) w')

  -- the end of `doSet` and of `doGet`
  unfoldable pub conclude : String → String → ℕ → Option Failure × Metrics × W → Metrics × W
  unfolding count_success record_failed_request
  conclude op key start (none, m, w) = let (now, w') = env.now w in (count_success m, w')
  conclude op key start (some error, m, w) =
      let (now, w') = env.now w in
      let (now', w'') = env.now w' in
      (record_failed_request now' op key error (sub64 now start) m, w'')

  unfoldable pub run_set : TrafficGenerator → String → String → String → W → TrafficGenerator × W
  unfolding conclude attempts set_request count_request
  run_set tg key value addr w =
      let (start, w') = env.now w in
      let (m, w'') = conclude "set" key start (
        attempts set_verdict tg.max_retries (set_request addr key value) (count_request tg.metrics)
          w') in
      (record tg { metrics = m }, w'')

  unfoldable pub run_get : TrafficGenerator → String → String → W → TrafficGenerator × W
  unfolding conclude attempts get_request count_request
  run_get tg key addr w =
      let (start, w') = env.now w in
      let (m, w'') = conclude "get" key start (
        attempts get_verdict tg.max_retries (get_request addr key) (count_request tg.metrics) w') in
      (record tg { metrics = m }, w'')

  unfoldable pub do_set : TrafficGenerator → W → Option (TrafficGenerator × W)
  unfolding pick run_set unix_nano
  do_set tg w = do
    (key, w1) ← pick tg.keys w
    (addr, w2) ← pick tg.node_addrs (env.now w1).1
    some (run_set tg key (append "value-" (decimal (unix_nano (env.now w1).0))) addr w2)

  unfoldable pub do_get : TrafficGenerator → W → Option (TrafficGenerator × W)
  unfolding pick run_get
  do_get tg w = do
    (key, w1) ← pick tg.keys w
    (addr, w2) ← pick tg.node_addrs w1
    some (run_get tg key addr w2)

  unfoldable pub request : TrafficGenerator → W → Option (TrafficGenerator × W)
  unfolding do_set do_get
  request tg w = let (writes, w') = random.is_set w in if writes then do_set tg w' else do_get tg w'

  -- `generate`, for what wakes it
  unfoldable pub generate : List Wake → TrafficGenerator → W → Option (TrafficGenerator × W)
  unfolding request
  generate [] tg w = some (tg, w)
  generate (stopped ∷ wakes) tg w = some (tg, w)
  generate (tick ∷ wakes) tg w = do (tg', w') ← request tg w; generate wakes tg' w'

  -- `Start`, before the goroutine runs, and `Stop`, which closes the channel, waits for the
  -- goroutine, and panics if the channel is closed already
  unfoldable pub start : TrafficGenerator → W → TrafficGenerator × W
  start tg w =
      let (now, w') = env.now w in
      (record tg { metrics = record tg.metrics { start_time = now } }, w')

  unfoldable pub ended : TrafficGenerator → W → TrafficGenerator × W
  ended tg w =
      let (now, w') = env.now w in
      (record tg { metrics = record tg.metrics { end_time = now } }, w')

  unfoldable pub stop : List Wake → TrafficGenerator → W → Option (TrafficGenerator × W)
  unfolding generate ended
  stop wakes tg w =
      if tg.closed
      then none
      else do (tg', w') ← generate wakes (record tg { closed = true }) w; some (ended tg' w')
