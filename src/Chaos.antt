-- ===== src/Chaos.antt =====
-- internal/chaos/chaos.go: the traffic that tests a cluster, and the counts that it keeps. The
-- generator runs one request after the other, and each counter changes as a whole. The counters are
-- `int64` patterns. `none` stands for a panic.
pub mod Generator
pub mod Accounts
pub mod Traffic
mod Tests
use Prim.Native.String.{◌++◌ as append}
use self_healing_distributed.Prelude.{
  ℕ, zero, suc, ◌+◌, ◌-◌, ◌*◌, ◌%◌, String, Bool, true, false, Option, none, some, List, [], ◌∷◌,
  ◌++◌, length, get_elem?, ◌==◌, nat_key, string_key, if◌then◌else◌, ◌>>=◌,
}
use self_healing_distributed.Prelude.Int64.{two64, add64, sub64, slt, sle}
use self_healing_distributed.Time.{millisecond, epoch_ms}
use self_healing_distributed.Text.{decimal}
use self_healing_distributed.Http.{
  Env, Request, Response, Body, text, number, object, blank, ok, not_found,
}
use self_healing_distributed.Server.{send}

-- The error of a request that failed: the one of the transport, the status and the body of an answer,
-- or "data loss: key not found".
pub data Failure : Type 0 where
  transport data_loss : Failure
  refused : ℕ → Body → Failure

pub record FailedRequest : Type 0 where
  pub timestamp : ℕ
  pub operation : String
  pub key : String
  pub error : Failure
  pub duration : ℕ

pub record Metrics : Type 0 where
  pub total_requests : ℕ
  pub succeeded : ℕ
  pub failed : ℕ
  pub retried : ℕ
  pub data_loss : ℕ
  pub failed_requests : List FailedRequest
  pub start_time : ℕ
  pub end_time : ℕ

pub record TrafficConfig : Type 0 where
  pub node_addrs : List String
  pub num_keys : ℕ
  pub interval : ℕ
  pub timeout : ℕ
  pub max_retries : ℕ

-- `closed` is whether the channel `stop` is closed.
pub record TrafficGenerator : Type 0 where
  pub node_addrs : List String
  pub keys : List String
  pub interval : ℕ
  pub timeout : ℕ
  pub max_retries : ℕ
  pub metrics : Metrics
  pub closed : Bool

-- `math/rand`: `rand.Intn`, and whether `rand.Float64() < 0.3`.
pub record Random (W : Type 0) : Type 0 where
  pub intn : ℕ → W → ℕ × W
  pub is_set : W → Bool × W

abbrev pub no_metrics : Metrics
no_metrics = record {
  total_requests = 0;
  succeeded = 0;
  failed = 0;
  retried = 0;
  data_loss = 0;
  failed_requests = [];
  start_time = 0;
  end_time = 0;
}

-- the keys from the `i`-th on
unfoldable pub key_pool : ℕ → ℕ → List String
key_pool zero i = []
key_pool (suc rounds) i = append "chaos-key-" (decimal i) ∷ key_pool rounds (suc i)

-- the generator that `NewTrafficGenerator` builds
unfoldable pub generator_of : TrafficConfig → TrafficGenerator
unfolding key_pool
generator_of cfg = record {
  node_addrs = cfg.node_addrs;
  keys = key_pool cfg.num_keys 0;
  interval = if sle cfg.interval 0 then 10 * millisecond else cfg.interval;
  timeout = if sle cfg.timeout 0 then 500 * millisecond else cfg.timeout;
  max_retries = if slt cfg.max_retries 0 then 1 else cfg.max_retries;
  metrics = no_metrics;
  closed = false;
}

-- `NewTrafficGenerator`, which panics on a negative number of keys
unfoldable pub new_traffic_generator : TrafficConfig → Option TrafficGenerator
unfolding generator_of
new_traffic_generator cfg = if slt cfg.num_keys 0 then none else some (generator_of cfg)

-- What an attempt makes of the answer.
pub data Verdict : Type 0 where
  success lost unreachable : Verdict
  rejected : ℕ → Body → Verdict

unfoldable pub set_verdict : Option Response → Verdict
set_verdict none = unreachable
set_verdict (some resp) = if resp.status == ok then success else rejected resp.status resp.body

unfoldable pub get_verdict : Option Response → Verdict
get_verdict none = unreachable
get_verdict (some resp) =
    if resp.status == ok
    then success
    else if resp.status == not_found
    then lost
    else rejected resp.status resp.body

-- `atomic.AddInt64(&counter, 1)`
unfoldable pub count_retry : Metrics → Metrics
count_retry m = record m { retried = add64 m.retried 1 }

unfoldable pub count_loss : Metrics → Metrics
count_loss m = record m { data_loss = add64 m.data_loss 1 }

unfoldable pub count_request : Metrics → Metrics
count_request m = record m { total_requests = add64 m.total_requests 1 }

unfoldable pub count_success : Metrics → Metrics
count_success m = record m { succeeded = add64 m.succeeded 1 }

-- `recordFailedRequest`, with the counter that is raised before
unfoldable pub record_failed_request : ℕ → String → String → Failure → ℕ → Metrics → Metrics
record_failed_request now op key error duration m = record m {
  failed = add64 m.failed 1;
  failed_requests =
      m.failed_requests
      ++ (record { timestamp = now; operation = op; key = key; error = error; duration = duration })
        ∷ [];
}

-- An attempt ends the loop, or the loop goes on with its error.
unfoldable pub judge :
    {W : Type 0}
    → Verdict
    → Metrics
    → W
    → (Failure → Option Failure × Metrics × W)
    → Option Failure × Metrics × W
unfolding count_loss
judge success m w again = (none, m, w)
judge lost m w again = (some data_loss, count_loss m, w)
judge unreachable m w again = again transport
judge (rejected status body) m w again = again (refused status body)

unfoldable pub set_request : String → String → String → Request
set_request addr key value = record {
  method = "POST";
  host = addr;
  path = "/set";
  key = "";
  body = object (("key", text key) ∷ ("value", text value) ∷ ("ttl_ms", number 0) ∷ []);
}

unfoldable pub get_request : String → String → Request
get_request addr key = record {
  method = "GET";
  host = addr;
  path = "/get";
  key = key;
  body = blank;
}

-- `time.Now().UnixNano()`, after 1970
unfoldable pub unix_nano : ℕ → ℕ
unix_nano now = (now - epoch_ms * millisecond) % two64

-- `GetMetrics`: a copy, taken under the lock.
unfoldable pub get_metrics : TrafficGenerator → Metrics
get_metrics tg = record {
  total_requests = tg.metrics.total_requests;
  succeeded = tg.metrics.succeeded;
  failed = tg.metrics.failed;
  retried = tg.metrics.retried;
  data_loss = tg.metrics.data_loss;
  failed_requests = tg.metrics.failed_requests;
  start_time = tg.metrics.start_time;
  end_time = tg.metrics.end_time;
}
