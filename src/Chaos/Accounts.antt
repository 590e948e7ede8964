-- ===== src/Chaos/Accounts.antt =====
-- The counters of internal/chaos/chaos.go add up, whatever the cluster answers.
use self_healing_distributed.Prelude.{
  ℕ, zero, suc, ◌+◌, ◌*◌, ◌%◌, ◌≤◌, ◌<◌, ◌≡◌, refl, sym, ap, ◌∙◌, String, Option, none, some, List,
  [], ◌∷◌, ◌++◌, arith, length, length-append, nat_key,
}
use self_healing_distributed.Prelude.Int64.{two64, sub64}
use self_healing_distributed.Http.{Env, Request, Response}
use self_healing_distributed.Server.{send}
use self_healing_distributed.Chaos.{
  Failure, transport, data_loss, refused, FailedRequest, Metrics, TrafficGenerator, Random, Verdict,
  judge, success, lost, unreachable, rejected, set_verdict, get_verdict, count_retry, count_loss,
  count_request, count_success, record_failed_request,
}
use self_healing_distributed.Chaos.Generator.{attempts, conclude, run_set, run_get}

unfoldable pub loss_of : Failure → ℕ
loss_of data_loss = 1
loss_of transport = 0
loss_of (refused status body) = 0

-- How many of the failed requests are data losses.
unfoldable pub losses : List FailedRequest → ℕ
unfolding loss_of
losses [] = 0
losses (f ∷ fs) = loss_of f.error + losses fs

suc_mul : (n k : ℕ) → suc n * k ≡ n * k + k
suc_mul n k = omega arith

losses-append :
    (fs : List FailedRequest) (f : FailedRequest)
    → losses (fs ++ f ∷ []) ≡ losses fs + loss_of f.error
unfolding losses
losses-append [] f = omega arith
losses-append (g ∷ fs) f = omega (arith, losses-append fs f)

-- After so many requests, each with its retries: the requests are those that succeeded and the
-- recorded failures, and each counter is its number, as an `int64`.
pub record IsAccounted (max_retries sent : ℕ) (m : Metrics) : Type 0 where
  pub won : ℕ
  pub retries : ℕ
  pub all : won + length m.failed_requests ≡ sent
  pub few : retries ≤ sent * max_retries
  pub total : m.total_requests ≡ sent % two64
  pub succeeded : m.succeeded ≡ won % two64
  pub failed : m.failed ≡ length m.failed_requests % two64
  pub retried : m.retried ≡ retries % two64
  pub lost_keys : m.data_loss ≡ losses m.failed_requests % two64

outcome_loss : Option Failure → ℕ
outcome_loss none = 0
outcome_loss (some e) = loss_of e

-- What the attempts of one request change.
record IsAttempted (left : ℕ) (m : Metrics) (o : Option Failure) (m' : Metrics) : Type 0 where
  count : ℕ
  few : count ≤ left
  retried : m'.retried ≡ (m.retried + count) % two64
  lost_keys : m'.data_loss ≡ (m.data_loss + outcome_loss o) % two64
  total : m'.total_requests ≡ m.total_requests
  succeeded : m'.succeeded ≡ m.succeeded
  failed : m'.failed ≡ m.failed
  recorded : m'.failed_requests ≡ m.failed_requests

-- The counters fit an `int64`.
record IsWord (m : Metrics) : Type 0 where
  retried : m.retried < two64
  lost_keys : m.data_loss < two64

judge-IsAttempted :
    {W : Type 0} (left : ℕ) (v : Verdict) (m : Metrics) (w : W)
    (again : Failure → Option Failure × Metrics × W)
    → IsWord m
    → ((e : Failure) → loss_of e ≡ 0 → IsAttempted left m (again e).0 (again e).1)
    → IsAttempted left m (judge v m w again).0 (judge v m w again).1
unfolding judge outcome_loss loss_of count_loss
judge-IsAttempted left success m w again h k = record {
  count = 0;
  few = omega arith;
  retried = omega (arith, h.retried);
  lost_keys = omega (arith, h.lost_keys);
  total = refl;
  succeeded = refl;
  failed = refl;
  recorded = refl;
}
judge-IsAttempted left lost m w again h k = record {
  count = 0;
  few = omega arith;
  retried = omega (arith, h.retried);
  lost_keys = refl;
  total = refl;
  succeeded = refl;
  failed = refl;
  recorded = refl;
}
judge-IsAttempted left unreachable m w again h k = k transport refl
judge-IsAttempted left (rejected status body) m w again h k = k (refused status body) refl

-- The error of the last attempt, and one more retry in front.
gave_up : (m : Metrics) (e : Failure) → IsWord m → loss_of e ≡ 0 → IsAttempted 0 m (some e) m
unfolding outcome_loss
gave_up m e h z = record {
  count = 0;
  few = omega arith;
  retried = omega (arith, h.retried);
  lost_keys = omega (arith, h.lost_keys, z);
  total = refl;
  succeeded = refl;
  failed = refl;
  recorded = refl;
}

one_more :
    (left : ℕ) (m m' : Metrics) (o : Option Failure)
    → IsAttempted left (count_retry m) o m'
    → IsAttempted (suc left) m o m'
unfolding count_retry
one_more left m m' o a = record {
  count = suc a.count;
  few = omega (arith, a.few);
  retried = omega (arith, a.retried);
  lost_keys = a.lost_keys;
  total = a.total;
  succeeded = a.succeeded;
  failed = a.failed;
  recorded = a.recorded;
}

count_retry-IsWord : (m : Metrics) → IsWord m → IsWord (count_retry m)
unfolding count_retry
count_retry-IsWord m h = record { retried = omega arith; lost_keys = h.lost_keys }

module _ {W : Type 0} (env : Env W) (random : Random W) where
  attempts-IsAttempted :
      (verdict : Option Response → Verdict) (left : ℕ) (r : Request) (m : Metrics) (w : W)
      → IsWord m
      → let (o, m', w') = attempts env random verdict left r m w in IsAttempted left m o m'
  unfolding attempts
  attempts-IsAttempted verdict zero r m w h =
      let (answer, w') = send env r w in
      judge-IsAttempted 0 (verdict answer) m w' (λ e. (some e, m, w')) h (λ e z. gave_up m e h z)
  attempts-IsAttempted verdict (suc left) r m w h =
      let (answer, w') = send env r w in
      judge-IsAttempted (suc left) (verdict answer) m w' _ h (λ e z.
        one_more left m _ _
          (attempts-IsAttempted verdict left r (count_retry m) w' (count_retry-IsWord m h)))

  conclude-IsAccounted :
      (op key : String) (start : ℕ) (max_retries sent : ℕ) (m : Metrics) (o : Option Failure)
      (m' : Metrics) (w : W)
      → IsAccounted max_retries sent m
      → IsAttempted max_retries (count_request m) o m'
      → IsAccounted max_retries (suc sent) (conclude env random op key start (o, m', w)).0
  unfolding conclude count_request count_success record_failed_request outcome_loss
  conclude-IsAccounted op key start max_retries sent m none m' w h a = record {
    won = suc h.won;
    retries = h.retries + a.count;
    all = omega (arith, h.all, ap length a.recorded);
    few = omega (arith, h.few, a.few, suc_mul sent max_retries);
    total = omega (arith, h.total, a.total);
    succeeded = omega (arith, h.succeeded, a.succeeded);
    failed = a.failed ∙ h.failed ∙ ap (λ l. length l % two64) (sym a.recorded);
    retried = omega (arith, h.retried, a.retried);
    lost_keys = omega (arith, a.lost_keys, h.lost_keys, ap losses a.recorded);
  }
  conclude-IsAccounted op key start max_retries sent m (some e) m' w h a =
      let (now, w1) = env.now w in
      let f : FailedRequest = record {
        timestamp = (env.now w1).0;
        operation = op;
        key = key;
        error = e;
        duration = sub64 now start;
      } in
      let more = length-append m'.failed_requests (f ∷ []) in
      record {
        won = h.won;
        retries = h.retries + a.count;
        all = omega (arith, h.all, ap length a.recorded, more);
        few = omega (arith, h.few, a.few, suc_mul sent max_retries);
        total = omega (arith, h.total, a.total);
        succeeded = a.succeeded ∙ h.succeeded;
        failed = omega (arith, h.failed, a.failed, ap length a.recorded, more);
        retried = omega (arith, h.retried, a.retried);
        lost_keys = omega (
          arith,
          a.lost_keys,
          h.lost_keys,
          ap losses a.recorded,
          losses-append m'.failed_requests f,
        );
      }

  counted-IsWord :
      (max_retries sent : ℕ) (m : Metrics)
      → IsAccounted max_retries sent m
      → IsWord (count_request m)
  unfolding count_request
  counted-IsWord max_retries sent m h = record {
    retried = omega (arith, h.retried);
    lost_keys = omega (arith, h.lost_keys);
  }

  -- One write and one read, with all their attempts.
  module _ (tg : TrafficGenerator) (sent : ℕ) (h : IsAccounted tg.max_retries sent tg.metrics) where
    pub run_set-IsAccounted :
        (key value addr : String) (w : W)
        → (m : Metrics) × (w' : W) × (run_set env random tg key value addr w
            ≡ (record tg { metrics = m }, w'))
          × IsAccounted tg.max_retries (suc sent) m
    unfolding run_set
    run_set-IsAccounted key value addr w = (
      _,
      _,
      refl,
      conclude-IsAccounted "set" key _ tg.max_retries sent tg.metrics _ _ _ h (
          attempts-IsAttempted set_verdict tg.max_retries _ (count_request tg.metrics) _
            (counted-IsWord tg.max_retries sent tg.metrics h)),
    )

    pub run_get-IsAccounted :
        (key addr : String) (w : W)
        → (m : Metrics) × (w' : W) × (run_get env random tg key addr w
            ≡ (record tg { metrics = m }, w'))
          × IsAccounted tg.max_retries (suc sent) m
    unfolding run_get
    run_get-IsAccounted key addr w = (
      _,
      _,
      refl,
      conclude-IsAccounted "get" key _ tg.max_retries sent tg.metrics _ _ _ h (
          attempts-IsAttempted get_verdict tg.max_retries _ (count_request tg.metrics) _
            (counted-IsWord tg.max_retries sent tg.metrics h)),
    )
