-- ===== src/NatsClient/Examples.antt =====
-- Publishing in concrete surroundings.
use agamemnon.Base.{ℕ, zero, suc, ◌≡◌, refl, true, false, [], none, some, arith}
use agamemnon.Base.Int.{pos}
use agamemnon.Json.Sample.{sample, null}
use agamemnon.CircuitBreaker.{CircuitBreaker, closed, allow_attempt}
use agamemnon.NatsClient.{
  NatsClient, NatsStatus, Surroundings, Outcome, nats_ok, nats_timeout, publish, publish_log,
  effective_retry_base_ms,
}
use agamemnon.NatsClient.Retries.{Settled, plain}
use agamemnon.NatsClient.Delivery.{publish-Settled, publish_log-Settled, log_message}

-- The server answers at the third attempt.
abbrev third_time : ℕ → NatsStatus
third_time zero = nats_timeout
third_time (suc zero) = nats_timeout
third_time (suc (suc zero)) = nats_timeout
third_time _ = nats_ok

abbrev env : Surroundings
env = record {
  reply = third_time;
  asked_at = pos 100;
  failed_at = pos 101;
  pushed_at = pos 102;
  retry_base = none;
}

abbrev breaker : CircuitBreaker
breaker = record {
  cfg = record { failure_threshold = pos 5; probe_interval = pos 1000 };
  state = closed;
  failure_count = pos 0;
  open_since_ms = pos 0;
}

abbrev client : NatsClient
client = record {
  connected = true;
  has_conn = true;
  breaker = breaker;
  dlq = record { capacity = 10; queue = [] };
}

publish-Settled_example :
    (o : Outcome) × (publish env "s" "p" client ≡ some o)
    × Settled env (plain "s" "p") client 150 o
    × (true ≡ false → (o.attempts ≡ 0) × (o.sent ≡ false))
unfolding allow_attempt effective_retry_base_ms
publish-Settled_example = publish-Settled env "s" "p" client refl (omega arith) (omega arith)

publish_log-Settled_example :
    (o : Outcome) × (publish_log sample env null "s" "info" "hello" null client ≡ some o)
    × Settled env (log_message sample null "s" "info" "hello" null) client 150 o
    × (true ≡ false → (o.attempts ≡ 0) × (o.sent ≡ false))
unfolding allow_attempt effective_retry_base_ms
publish_log-Settled_example =
    publish_log-Settled sample env null null "s" "info" "hello" client refl (omega arith)
      (omega arith)
