-- ===== src/NatsClient/Retries.antt =====
-- The loop over the attempts of src/nats_client.cpp settles each call.
use agamemnon.Base.{
  ℕ, zero, suc, ◌+◌, ◌*◌, ◌≤◌, ◌<◌, String, ◌≡◌, refl, ◌≢◌, inl, inr, Bool, true, false, List, [],
  ◌∷◌, ◌++◌, Option, none, some, arith, Bool-cases, length, ltb, leb, ◌==◌, ◌||◌, not,
  if◌then◌else◌,
}
use agamemnon.CircuitBreaker.{record_success, record_failure}
use agamemnon.DeadLetterQueue.{DeadLetterQueue, Entry, push}
use agamemnon.NatsClient.{
  NatsStatus, nats_ok, is_ok, is_infra_error, effective_retry_base_ms, NatsClient, Surroundings,
  Message, Outcome, entry, dead_letter, after_sleep, attempt_round, attempt_loop, with_retries,
  int_end, doubled,
}

-- A message with no level and service, as `publish` sends it.
abbrev pub plain : String → String → Message
plain subject payload = record { subject = subject; payload = payload; level = ""; service = "" }

-- The newest entry of a queue.
abbrev pub newest : List Entry → Option Entry
newest [] = none
newest (e ∷ []) = some e
newest (e ∷ (f ∷ es)) = newest (f ∷ es)

newest-append : (es : List Entry) (e : Entry) → newest (es ++ (e ∷ [])) ≡ some e
newest-append [] e = refl
newest-append (x ∷ []) e = refl
newest-append (x ∷ (y ∷ es)) e = newest-append (y ∷ es) e

abbrev pub total : List ℕ → ℕ
total [] = 0
total (d ∷ ds) = d + total ds

-- A push onto a queue of positive capacity succeeds, and the entry is the newest.
pub push-newest :
    (e : Entry) (q : DeadLetterQueue)
    → 0 < q.capacity
    → (q' : DeadLetterQueue) × (push e q ≡ some q') × (newest q'.queue ≡ some e)
unfolding push
push-newest e q h = from q.queue refl
  where
    from :
        (es : List Entry)
        → q.queue ≡ es
        → (q' : DeadLetterQueue) × (push e q ≡ some q') × (newest q'.queue ≡ some e)
    from [] s = (record q { queue = e ∷ [] }, ground arith, refl)
    from (x ∷ es) s = elim (Bool-cases (leb q.capacity (length q.queue))) [
      | inl full ↦ (record q { queue = es ++ (e ∷ []) }, ground arith, newest-append es e)
      | inr room ↦
          (record q { queue = (x ∷ es) ++ (e ∷ []) }, ground arith, newest-append (x ∷ es) e)
    ]

-- How a call ended: after at most three attempts, either nats.c accepted the last of them, and the
-- queue is untouched and the breaker closed; or the message is the newest dead letter.
pub record Settled (env : Surroundings) (m : Message) (c : NatsClient) (bound : ℕ) (o : Outcome)
    : Type 0 where
  pub tried : o.attempts ≤ 3
  pub slept : total o.sleeps ≤ bound
  pub accepted :
      o.sent ≡ true
      → (env.reply o.attempts ≡ nats_ok)
        × (o.client.dlq ≡ c.dlq)
        × (o.client.breaker ≡ record_success c.breaker)
  pub kept : o.sent ≡ false → newest o.client.dlq.queue ≡ some (entry m o.attempts env.pushed_at)

abbrev pub Settles : Surroundings → Message → NatsClient → ℕ → Option Outcome → Type 0
Settles env m c bound r = (o : Outcome) × (r ≡ some o) × Settled env m c bound o

dead_letter-Settles :
    (env : Surroundings) (m : Message) (n bound : ℕ) (c c' : NatsClient)
    → n ≤ 3
    → 0 < c.dlq.capacity
    → c'.dlq ≡ c.dlq
    → Settles env m c bound (dead_letter m env.pushed_at n c')
dead_letter-Settles env m n bound c c' h room same =
    let (q, e, new) = push-newest (entry m n env.pushed_at) c'.dlq (rw same room) in
    (
      record { client = record c' { dlq = q }; sent = false; attempts = n; sleeps = [] },
      rw (e, dead_letter),
      record { tried = h; slept = omega arith; accepted = λ f. cc; kept = λ _. new },
    )

-- The sleeps of a loop with `l` retries left that starts from the delay `d`.
abbrev backoff : ℕ → ℕ → ℕ
backoff zero d = 0
backoff (suc l) d = d + backoff l (d * 2)

-- The delay after `l` doublings.
abbrev pub peak : ℕ → ℕ → ℕ
peak zero d = d
peak (suc l) d = peak l (d * 2)

le-peak : (l d : ℕ) → d ≤ peak l d
le-peak zero d = omega arith
le-peak (suc l) d = omega (arith, le-peak l (d * 2))

ok_status : (s : NatsStatus) → is_ok s ≡ true → s ≡ nats_ok
ok_status s h = ground arith

after_sleep-Settles :
    (env : Surroundings) (m : Message) (d bound : ℕ) (c : NatsClient) (r : Option Outcome)
    → Settles env m c bound r
    → Settles env m c (d + bound) (after_sleep d r)
after_sleep-Settles env m d bound c r (o, e, s) = (
  record o { sleeps = if ltb 0 d then d ∷ o.sleeps else o.sleeps },
  rw (e, after_sleep),
  record { tried = s.tried; slept = ground (arith, s.slept); accepted = s.accepted; kept = s.kept },
)

-- One round, where the later rounds settle the call if it comes to them.
attempt_round-Settles :
    (n d bound : ℕ) (env : Surroundings) (m : Message) (c : NatsClient) (rest : Option Outcome)
    → n ≤ 3
    → 0 < c.dlq.capacity
    → (n ≢ 3 → Settles env m c bound (after_sleep d rest))
    → Settles env m c bound (attempt_round n d env m c rest)
unfolding attempt_round
attempt_round-Settles n d bound env m c rest last room again =
    elim (Bool-cases (is_ok (env.reply n))) [
      | inl ok ↦ (
        record {
          client = record c { breaker = record_success c.breaker };
          sent = true;
          attempts = n;
          sleeps = [];
        },
        rw ok,
        record {
          tried = last;
          slept = omega arith;
          accepted = λ _. (ok_status (env.reply n) ok, refl, refl);
          kept = λ f. cc;
        },
      )
      | inr refused ↦ rw refused (elim (Bool-cases (not (is_infra_error (env.reply n)) || n == 3)) [
        | inl ends ↦ rw ends (
            dead_letter-Settles env m n bound c
              (record c { breaker = record_failure env.failed_at c.breaker }) last room refl)
        | inr goes_on ↦ let retried : n ≢ 3 = ground arith in rw goes_on (again retried)
      ])
    ]

-- The loop from attempt `n` with `l` retries left after it.
attempt_loop-Settles :
    (l n d : ℕ) (env : Surroundings) (m : Message) (c : NatsClient)
    → n + l ≡ 3
    → peak l d < int_end
    → 0 < c.dlq.capacity
    → Settles env m c (backoff l d) (attempt_loop (suc l) n d env m c)
unfolding attempt_loop
attempt_loop-Settles zero n d env m c last small room =
    attempt_round-Settles n d 0 env m c _ (omega arith) room
      (λ before. absurd (before (omega arith)))
attempt_loop-Settles (suc l) n d env m c last small room =
    let next : doubled d ≡ some (d * 2) = ground (arith, small, le-peak l (d * 2)) in
    attempt_round-Settles n d (backoff (suc l) d) env m c _ (omega arith) room (λ _.
      after_sleep-Settles env m d (backoff l (d * 2)) c _
        (rw next (attempt_loop-Settles l (n + 1) (d * 2) env m c (omega arith) small room)))

pub with_retries-Settles :
    (env : Surroundings) (m : Message) (c : NatsClient) (allowed : Bool)
    → 4 * effective_retry_base_ms env.retry_base < int_end
    → 0 < c.dlq.capacity
    → (o : Outcome) × (with_retries env m (c, allowed) ≡ some o)
      × Settled env m c (3 * effective_retry_base_ms env.retry_base) o
      × (allowed ≡ false → (o.attempts ≡ 0) × (o.sent ≡ false))
with_retries-Settles env m c false small room =
    let (q, e, new) = push-newest (entry m 0 env.pushed_at) c.dlq room in
    (
      record { client = record c { dlq = q }; sent = false; attempts = 0; sleeps = [] },
      rw (e, dead_letter),
      record { tried = omega arith; slept = omega arith; accepted = λ f. cc; kept = λ _. new },
      λ _. (refl, refl),
    )
with_retries-Settles env m c true small room =
    let base : ℕ = effective_retry_base_ms env.retry_base in
    let (o, e, s) =
      attempt_loop-Settles 2 1 base env m c (omega arith) (omega (arith, small)) room in
    (
      o,
      e,
      record {
        tried = s.tried;
        slept = omega (arith, s.slept);
        accepted = s.accepted;
        kept = s.kept;
      },
      λ f. cc,
    )
