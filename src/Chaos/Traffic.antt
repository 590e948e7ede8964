-- ===== src/Chaos/Traffic.antt =====
-- A whole run of the traffic of internal/chaos/chaos.go.
use self_healing_distributed.Prelude.{
  ℕ, zero, suc, ◌+◌, ◌<◌, ◌≡◌, refl, sym, ap, subst, String, true, false, Option, none, some, List,
  [], ◌∷◌, arith, length, get_elem?, ◌==◌, nat_key, Bool-cases, inl, inr, if◌then◌else◌,
}
use mathlib.Core.Option.{some-injective}
use self_healing_distributed.Prelude.Int64.{slt}
use Prim.Native.String.{◌++◌ as append}
use self_healing_distributed.Text.{decimal}
use self_healing_distributed.Http.{Env}
use self_healing_distributed.Chaos.{
  TrafficConfig, TrafficGenerator, Metrics, Random, generator_of, new_traffic_generator,
  get_metrics, no_metrics, unix_nano,
}
use self_healing_distributed.Chaos.Generator.{
  Wake, tick, stopped, pick, do_set, do_get, request, generate, start, stop, ended,
}
use self_healing_distributed.Chaos.Accounts.{
  IsAccounted, run_set-IsAccounted, run_get-IsAccounted, losses,
}

-- What the generator relies on: a random number is below its bound.
abbrev pub IsFair : {W : Type 0} → Random W → Type 0
IsFair {W} random = (n : ℕ) (w : W) → 0 < n → (random.intn n w).0 < n

-- How many ticks come before the stop.
unfoldable pub ticks : List Wake → ℕ
ticks [] = 0
ticks (stopped ∷ wakes) = 0
ticks (tick ∷ wakes) = suc (ticks wakes)

get_elem?-lt : (l : List String) (i : ℕ) → i < length l → (x : String) × (get_elem? l i ≡ some x)
get_elem?-lt [] i h = absurd (omega arith)
get_elem?-lt (x ∷ l) zero h = (x, refl)
get_elem?-lt (x ∷ l) (suc i) h = get_elem?-lt l i (omega arith)

module _ {W : Type 0} (env : Env W) (random : Random W) (fair : IsFair random) where
  pick-some :
      (l : List String) (w : W)
      → 0 < length l
      → (x : String) × (w' : W) × (pick env random l w ≡ some (x, w'))
  unfolding pick
  pick-some l w h =
      let some_length : (length l == 0) ≡ false = ground arith in
      let (x, e) = get_elem?-lt l (random.intn (length l) w).0 (fair (length l) w h) in
      (x, (random.intn (length l) w).1, rw some_length (rw e refl))

  module _ (tg : TrafficGenerator) (sent : ℕ) (h : IsAccounted tg.max_retries sent tg.metrics)
      (keyed : 0 < length tg.keys) (addressed : 0 < length tg.node_addrs) where
    do_set-IsAccounted :
        (w : W)
        → (m : Metrics) × (w' : W) × (do_set env random tg w ≡ some (record tg { metrics = m }, w'))
          × IsAccounted tg.max_retries (suc sent) m
    unfolding do_set
    do_set-IsAccounted w =
        let (key, w1, e) = pick-some tg.keys w keyed in
        let (addr, w2, e') = pick-some tg.node_addrs (env.now w1).1 addressed in
        let (m, w', e'', a) =
          run_set-IsAccounted env random tg sent h key
            (append "value-" (decimal (unix_nano (env.now w1).0))) addr w2 in
        (m, w', rw e (rw e' (ap some e'')), a)

    do_get-IsAccounted :
        (w : W)
        → (m : Metrics) × (w' : W) × (do_get env random tg w ≡ some (record tg { metrics = m }, w'))
          × IsAccounted tg.max_retries (suc sent) m
    unfolding do_get
    do_get-IsAccounted w =
        let (key, w1, e) = pick-some tg.keys w keyed in
        let (addr, w2, e') = pick-some tg.node_addrs w1 addressed in
        let (m, w', e'', a) = run_get-IsAccounted env random tg sent h key addr w2 in
        (m, w', rw e (rw e' (ap some e'')), a)

    request-IsAccounted :
        (w : W)
        → (m : Metrics) × (w' : W) × (request env random tg w
            ≡ some (record tg { metrics = m }, w'))
          × IsAccounted tg.max_retries (suc sent) m
    unfolding request
    request-IsAccounted w = elim (Bool-cases (random.is_set w).0) [
      | inl writes ↦ rw writes (do_set-IsAccounted (random.is_set w).1)
      | inr reads ↦ rw reads (do_get-IsAccounted (random.is_set w).1)
    ]

  generate-IsAccounted :
      (wakes : List Wake) (tg : TrafficGenerator) (sent : ℕ) (w : W)
      → IsAccounted tg.max_retries sent tg.metrics
      → 0 < length tg.keys
      → 0 < length tg.node_addrs
      → (m : Metrics) × (w' : W) × (generate env random wakes tg w
          ≡ some (record tg { metrics = m }, w'))
        × IsAccounted tg.max_retries (sent + ticks wakes) m
  unfolding generate ticks
  generate-IsAccounted [] tg sent w h keyed addressed =
      (tg.metrics, w, refl, subst (λ n. IsAccounted tg.max_retries n tg.metrics) (omega arith) h)
  generate-IsAccounted (stopped ∷ wakes) tg sent w h keyed addressed =
      (tg.metrics, w, refl, subst (λ n. IsAccounted tg.max_retries n tg.metrics) (omega arith) h)
  generate-IsAccounted (tick ∷ wakes) tg sent w h keyed addressed =
      let (m, w', e, a) = request-IsAccounted tg sent h keyed addressed w in
      let (m', w'', e', a') =
        generate-IsAccounted wakes (record tg { metrics = m }) (suc sent) w' a keyed addressed in
      (m', w'', rw e e', subst (λ n. IsAccounted tg.max_retries n m') (omega arith) a')

  new_fields :
      (cfg : TrafficConfig) (tg : TrafficGenerator)
      → new_traffic_generator cfg ≡ some tg
      → (tg.metrics ≡ no_metrics) × (tg.closed ≡ false)
  unfolding new_traffic_generator generator_of
  new_fields cfg tg made = elim (Bool-cases (slt cfg.num_keys 0)) [
    | inl negative ↦ absurd (ground arith)
    | inr counted ↦
        let e = some-injective (generator_of cfg) tg (
          subst
            (λ b.
              Path (Option TrafficGenerator) (if b then none else some (generator_of cfg))
                (some tg))
            counted made) in
        (sym (ap (λ g. g.metrics) e), sym (ap (λ g. g.closed) e))
  ]

  start-IsAccounted :
      (tg : TrafficGenerator) (now : ℕ)
      → tg.metrics ≡ no_metrics
      → IsAccounted tg.max_retries 0 (record tg.metrics { start_time = now })
  unfolding losses
  start-IsAccounted tg now e =
      subst (λ m. IsAccounted tg.max_retries 0 (record m { start_time = now })) (sym e)
        (record {
          won = 0;
          retries = 0;
          all = refl;
          few = omega arith;
          total = refl;
          succeeded = refl;
          failed = refl;
          retried = refl;
          lost_keys = refl;
        })

  ended-IsAccounted :
      (max_retries sent now : ℕ) (m : Metrics)
      → IsAccounted max_retries sent m
      → IsAccounted max_retries sent (record m { end_time = now })
  ended-IsAccounted max_retries sent now m h = record {
    won = h.won;
    retries = h.retries;
    all = h.all;
    few = h.few;
    total = h.total;
    succeeded = h.succeeded;
    failed = h.failed;
    retried = h.retried;
    lost_keys = h.lost_keys;
  }

  stop-generated :
      (wakes : List Wake) (tg last : TrafficGenerator) (w w' : W)
      → tg.closed ≡ false
      → generate env random wakes (record tg { closed = true }) w ≡ some (last, w')
      → stop env random wakes tg w ≡ some (ended env random last w')
  unfolding stop
  stop-generated wakes tg last w w' open_yet e = rw open_yet (rw e refl)

  -- A new generator with one key and one node at least, and random numbers below their bounds, runs
  -- without a panic from its start to its stop, whatever the nodes answer. It sends one request for
  -- each tick before the stop. After the run each counter is what it counts, as an `int64`: the
  -- requests are the successes and the recorded failures, the data losses are the failures of that
  -- kind, and there are at most `max_retries` retries for each request.
  pub stop-IsAccounted :
      (cfg : TrafficConfig) (tg : TrafficGenerator) (wakes : List Wake) (w : W)
      → new_traffic_generator cfg ≡ some tg
      → 0 < length tg.keys
      → 0 < length tg.node_addrs
      → let (tg', w') = start env random tg w in
        (last : TrafficGenerator) × (w'' : W) × (stop env random wakes tg' w' ≡ some (last, w''))
        × IsAccounted tg.max_retries (ticks wakes) (get_metrics last)
  unfolding start stop ended get_metrics
  stop-IsAccounted cfg tg wakes w made keyed addressed =
      let (fresh, open_yet) = new_fields cfg tg made in
      let (now, w') = env.now w in
      let tg' : TrafficGenerator = record tg {
        metrics = record tg.metrics { start_time = now };
        closed = true;
      } in
      let (m, w'', e, a) =
        generate-IsAccounted wakes tg' 0 w' (start-IsAccounted tg now fresh) keyed addressed in
      (
        (ended env random (record tg' { metrics = m }) w'').0,
        (ended env random (record tg' { metrics = m }) w'').1,
        stop-generated wakes (start env random tg w).0 (record tg' { metrics = m }) w' w'' open_yet
            e,
        ended-IsAccounted tg.max_retries (ticks wakes) (env.now w'').0 m
            (subst (λ n. IsAccounted tg.max_retries n m) (omega arith) a),
      )
