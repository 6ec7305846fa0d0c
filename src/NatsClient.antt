-- ===== src/NatsClient.antt =====
-- include/agamemnon/nats_client.hpp and src/nats_client.cpp: publishing with retries, the circuit
-- breaker and the dead-letter queue. What nats.c answers to each attempt, the clock and the retry
-- base from the environment are arguments; connecting and subscribing are calls of nats.c only. A delay
-- is an int of 32 bits that is never negative; a call has no result (`none`) where the source's
-- behaviour is undefined, which is where doubling the delay overflows and where an empty queue is popped.
pub mod Retries
pub mod Delivery
pub mod Examples
use agamemnon.Base.{
  ℕ, zero, suc, ◌+◌, ◌*◌, ◌^◌, String, Bool, true, false, not, ◌||◌, ◌&&◌, List, [], ◌∷◌, Option,
  none, some, ltb, ◌==◌, if◌then◌else◌,
}
use agamemnon.Base.Int.{ℤ, pos}
use agamemnon.Json.{JsonLibrary}
use agamemnon.CircuitBreaker.{CircuitBreaker, allow_attempt, record_failure, record_success}
use agamemnon.DeadLetterQueue.{DeadLetterQueue, Entry, push}

-- natsStatus: the values that the code names, and the others.
pub data NatsStatus : Type 0 where
  nats_ok : NatsStatus
  nats_connection_closed nats_connection_disconnected nats_io_error : NatsStatus
  nats_no_server nats_timeout : NatsStatus
  other_status : ℕ → NatsStatus

unfoldable pub is_infra_error : NatsStatus → Bool
is_infra_error nats_connection_closed = true
is_infra_error nats_connection_disconnected = true
is_infra_error nats_io_error = true
is_infra_error nats_no_server = true
is_infra_error nats_timeout = true
is_infra_error _ = false

abbrev pub is_ok : NatsStatus → Bool
is_ok nats_ok = true
is_ok _ = false

abbrev pub max_retries : ℕ
max_retries = 3

abbrev pub base_retry_ms : ℕ
base_retry_ms = 50

-- The numbers that are an int.
abbrev pub int_end : ℕ
int_end = 2 ^ 31

-- The argument is the number that AGAMEMNON_NATS_RETRY_BASE_MS begins with: `none` if it is unset or
-- begins with none. std::stoi throws for a number that is no int.
unfoldable pub effective_retry_base_ms : Option ℤ → ℕ
effective_retry_base_ms none = base_retry_ms
effective_retry_base_ms (some (ℤ.pos n)) = if ltb n int_end then n else base_retry_ms
effective_retry_base_ms (some (ℤ.negsuc n)) = base_retry_ms

-- `has_conn` is `conn_ != nullptr`.
pub record NatsClient : Type 0 where
  pub connected : Bool
  pub has_conn : Bool
  pub breaker : CircuitBreaker
  pub dlq : DeadLetterQueue

-- What one call meets outside the client: the status of each attempt, and the clock when the
-- breaker is asked, when it records a failure, and when a message is dead-lettered.
pub record Surroundings : Type 0 where
  pub reply : ℕ → NatsStatus
  pub asked_at : ℤ
  pub failed_at : ℤ
  pub pushed_at : ℤ
  pub retry_base : Option ℤ

pub record Message : Type 0 where
  pub subject : String
  pub payload : String
  pub level : String
  pub service : String

pub record Outcome : Type 0 where
  pub client : NatsClient
  pub sent : Bool
  -- How often nats.c was called, and the sleeps between the calls, in milliseconds.
  pub attempts : ℕ
  pub sleeps : List ℕ

-- The entry that the client dead-letters, with its number of attempts.
abbrev pub entry : Message → ℕ → ℤ → Entry
entry m attempts at = record {
  subject = m.subject;
  payload = m.payload;
  attempts = pos attempts;
  timestamp_ms = at;
  level = m.level;
  service = m.service;
}

-- The end of a call that failed: the message goes to the queue.
abbrev dead_letter : Message → ℤ → ℕ → NatsClient → Option Outcome
dead_letter m at attempts c = elim (push (entry m attempts at) c.dlq) [
  | none ↦ none
  | some q ↦
      some
        (record { client = record c { dlq = q }; sent = false; attempts = attempts; sleeps = [] })
]

abbrev after_sleep : ℕ → Option Outcome → Option Outcome
after_sleep delay none = none
after_sleep delay (some o) =
    some (record o { sleeps = if ltb 0 delay then delay ∷ o.sleeps else o.sleeps })

-- One round of the loop, where `rest` is what the later rounds give.
attempt_round : ℕ → ℕ → Surroundings → Message → NatsClient → Option Outcome → Option Outcome
attempt_round attempt delay env m c rest =
    if is_ok (env.reply attempt)
    then some (record {
      client = record c { breaker = record_success c.breaker };
      sent = true;
      attempts = attempt;
      sleeps = [];
    })
    else if not (is_infra_error (env.reply attempt)) || attempt == max_retries
    then dead_letter m env.pushed_at attempt
        (record c { breaker = record_failure env.failed_at c.breaker })
    else after_sleep delay rest

-- delay_ms *= 2
abbrev pub doubled : ℕ → Option ℕ
doubled delay = if ltb (delay * 2) int_end then some (delay * 2) else none

-- The loop over the attempts, with the number of rounds left.
attempt_loop : ℕ → ℕ → ℕ → Surroundings → Message → NatsClient → Option Outcome
attempt_loop zero attempt delay env m c =
    some (record { client = c; sent = false; attempts = attempt; sleeps = [] })
attempt_loop (suc left) attempt delay env m c =
    let rest : Option Outcome = elim (doubled delay) [
      | none ↦ none
      | some delay' ↦ attempt_loop left (attempt + 1) delay' env m c
    ] in
    attempt_round attempt delay env m c rest

abbrev with_retries : Surroundings → Message → NatsClient × Bool → Option Outcome
with_retries env m (c, false) = dead_letter m env.pushed_at 0 c
with_retries env m (c, true) =
    attempt_loop max_retries 1 (effective_retry_base_ms env.retry_base) env m c

abbrev ask_breaker : ℤ → NatsClient → NatsClient × Bool
ask_breaker now c =
    let (b, allowed) = allow_attempt now c.breaker in (record c { breaker = b }, allowed)

abbrev pub is_connected : NatsClient → Bool
is_connected c = c.connected && c.has_conn

unfoldable pub publish : Surroundings → String → String → NatsClient → Option Outcome
unfolding attempt_loop attempt_round is_infra_error effective_retry_base_ms
publish env subject payload c =
    if is_connected c
    then with_retries env
        (record { subject = subject; payload = payload; level = ""; service = "" })
        (ask_breaker env.asked_at c)
    else some (record { client = c; sent = false; attempts = 0; sleeps = [] })

module _ (J : JsonLibrary) where
  open J use {Json, string, object, dump}

  -- The ADR-005 payload; `timestamp` is the number of seconds since the epoch.
  unfoldable pub log_payload : Json → String → String → Json → String
  log_payload timestamp level message metadata = dump (
      object (
        ("timestamp", timestamp)
        ∷ ("service", string "agamemnon")
        ∷ ("level", string level)
        ∷ ("message", string message)
        ∷ ("metadata", metadata)
        ∷ []))

  unfoldable pub publish_log :
      Surroundings → Json → String → String → String → Json → NatsClient → Option Outcome
  unfolding log_payload attempt_loop attempt_round is_infra_error effective_retry_base_ms
  publish_log env timestamp subject level message metadata c =
      let m : Message = record {
        subject = subject;
        payload = log_payload timestamp level message metadata;
        level = level;
        service = "agamemnon";
      } in
      if is_connected c
      then with_retries env m (ask_breaker env.asked_at c)
      else dead_letter m env.pushed_at 0 c
