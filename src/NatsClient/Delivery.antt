-- ===== src/NatsClient/Delivery.antt =====
-- No message of a connected client is lost in silence, and the retries are bounded
-- (src/nats_client.cpp).
use agamemnon.Base.{◌*◌, ◌<◌, String, ◌≡◌, true, false, some}
use agamemnon.Json.{JsonLibrary}
use agamemnon.NatsClient.{
  effective_retry_base_ms, NatsClient, Surroundings, Message, Outcome, ask_breaker, is_connected,
  int_end, publish, publish_log, log_payload,
}
use agamemnon.NatsClient.Retries.{plain, Settled, with_retries-Settles}

-- Publishing on a connected client whose dead-letter queue can hold an entry, with a retry base whose
-- fourfold is an int (below 2 ^ 29 ms, so that no delay overflows), always ends, after at
-- most three attempts and at most three times the retry base asleep; and either nats.c accepted the
-- last attempt, with the queue untouched and the breaker closed with no failure counted, or the
-- message is the newest entry of the queue with its number of attempts, which is 0 if the breaker
-- refused it.
pub publish-Settled :
    (env : Surroundings) (subject payload : String) (c : NatsClient)
    → is_connected c ≡ true
    → 4 * effective_retry_base_ms env.retry_base < int_end
    → 0 < c.dlq.capacity
    → let (asked, allowed) = ask_breaker env.asked_at c in
      (o : Outcome) × (publish env subject payload c ≡ some o)
      × Settled env (plain subject payload) asked (3 * effective_retry_base_ms env.retry_base) o
      × (allowed ≡ false → (o.attempts ≡ 0) × (o.sent ≡ false))
unfolding publish
publish-Settled env subject payload c on small room =
    let (asked, allowed) = ask_breaker env.asked_at c in
    rw on (with_retries-Settles env (plain subject payload) asked allowed small room)

-- The message that publish_log sends.
abbrev pub log_message : (J : JsonLibrary) → J.Json → String → String → String → J.Json → Message
log_message J timestamp subject level message metadata = record {
  subject = subject;
  payload = log_payload J timestamp level message metadata;
  level = level;
  service = "agamemnon";
}

-- The same for a log message: publish_log on a connected client whose dead-letter queue can hold an
-- entry, with such a retry base, ends within the same bounds, and the message is accepted or the newest dead letter, with its
-- level and the service.
pub publish_log-Settled :
    (J : JsonLibrary) (env : Surroundings) (timestamp metadata : J.Json)
    (subject level message : String) (c : NatsClient)
    → is_connected c ≡ true
    → 4 * effective_retry_base_ms env.retry_base < int_end
    → 0 < c.dlq.capacity
    → let (asked, allowed) = ask_breaker env.asked_at c in
      (o : Outcome) × (publish_log J env timestamp subject level message metadata c ≡ some o)
      × Settled env
          (log_message J timestamp subject level message metadata)
          asked
          (3 * effective_retry_base_ms env.retry_base)
          o
      × (allowed ≡ false → (o.attempts ≡ 0) × (o.sent ≡ false))
unfolding publish_log
publish_log-Settled J env timestamp metadata subject level message c on small room =
    let (asked, allowed) = ask_breaker env.asked_at c in
    let m = log_message J timestamp subject level message metadata in
    rw on (with_retries-Settles env m asked allowed small room)
