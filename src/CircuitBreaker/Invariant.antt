-- ===== src/CircuitBreaker/Invariant.antt =====
-- When the breaker trips.
use agamemnon.Base.{
  ℕ, suc, ◌+◌, ◌^◌, ◌≤◌, ◌<◌, ◌≡◌, ◌⊎◌, List, [], ◌∷◌, arith, length, inl, inr, map, leb,
  if◌then◌else◌,
}
use agamemnon.Base.Int.{ℤ, pos, ◌≤ℤ◌, ◌<ℤ◌}
use agamemnon.CircuitBreaker.{
  closed, open_circuit, CircuitBreaker, Call, allow, failure, success, record_success, call, run,
}

-- A closed breaker has counted fewer failures than would have tripped it.
abbrev pub IsArmed : CircuitBreaker → Type 0
IsArmed b =
    b.state ≡ closed
    → (pos 0 ≤ℤ b.failure_count)
      × ((b.failure_count ≡ pos 0) ⊎ (b.failure_count <ℤ b.failure_threshold))

-- An int: the configured threshold is one.
abbrev pub FitsInt : ℤ → Type 0
FitsInt n = n <ℤ pos (2 ^ 31)

threshold-call :
    (c : Call) (b : CircuitBreaker) → (call c b).failure_threshold ≡ b.failure_threshold
unfolding call
threshold-call (allow now) b = ground arith
threshold-call (failure now) b = ground arith
threshold-call success b = ground arith

call-IsArmed :
    (b : CircuitBreaker) (c : Call) → FitsInt b.failure_threshold → IsArmed b → IsArmed (call c b)
unfolding call
call-IsArmed b (allow now) f h = ground arith
call-IsArmed b (failure now) f h = ground arith
call-IsArmed b success f h = ground arith

-- Whatever calls are made, from a new breaker on.
run-IsArmed :
    (cs : List Call) (b : CircuitBreaker)
    → FitsInt b.failure_threshold
    → IsArmed b
    → IsArmed (run cs b)
unfolding run
run-IsArmed [] b f h = h
run-IsArmed (c ∷ cs) b f h =
    run-IsArmed cs (call c b) (rw (threshold-call c b) f) (call-IsArmed b c f h)

abbrev pub failures : List ℤ → List Call
failures = map failure

failures_open :
    (ts : List ℤ) (b : CircuitBreaker)
    → b.state ≡ open_circuit
    → (run (failures ts) b).state ≡ open_circuit
unfolding run call
failures_open [] b h = h
failures_open (t ∷ ts) b h = failures_open ts (call (failure t) b) (ground arith)

-- One failure of a closed breaker that has counted `n`.
fail_closed :
    (n m : ℕ) (now : ℤ) (b : CircuitBreaker)
    → b.state ≡ closed
    → b.failure_count ≡ pos n
    → b.failure_threshold ≡ pos (suc m)
    → suc m < 2 ^ 31
    → n ≤ m
    → ((n ≡ m) × ((call (failure now) b).state ≡ open_circuit))
      ⊎ ((n < m)
          × ((call (failure now) b).state ≡ closed)
          × ((call (failure now) b).failure_count ≡ pos (suc n)))
unfolding call
fail_closed n m now b s c t f h = ground arith

counted_failures :
    (ts : List ℤ) (n m : ℕ) (b : CircuitBreaker)
    → b.state ≡ closed
    → b.failure_count ≡ pos n
    → b.failure_threshold ≡ pos (suc m)
    → suc m < 2 ^ 31
    → n ≤ m
    → (n + length ts ≤ m → (run (failures ts) b).state ≡ closed)
      × (m < n + length ts → (run (failures ts) b).state ≡ open_circuit)
unfolding run
counted_failures [] n m b s c t f h = (λ _. s, λ g. absurd (omega arith))
counted_failures (now ∷ ts) n m b s c t f h = elim (fail_closed n m now b s c t f h) [
  | inl (e, o) ↦ (λ g. absurd (omega arith), λ _. failures_open ts _ o)
  | inr (g, s', c') ↦
      let (stays, trips) =
        counted_failures ts (suc n) m (call (failure now) b) s' c'
          (rw (threshold-call (failure now) b) t) f (omega arith) in
      (λ le. stays (omega arith), λ lt. trips (omega arith))
]

-- The breaker trips at its threshold and not before. After a success, whatever the state before it,
-- consecutive failures leave the breaker closed as long as they are fewer than the threshold, and
-- open from the threshold on. The threshold is a positive int.
pub trips_at_threshold :
    (b : CircuitBreaker) (m : ℕ) (ts : List ℤ)
    → b.failure_threshold ≡ pos (suc m)
    → suc m < 2 ^ 31
    → (run (success ∷ failures ts) b).state
      ≡ (if leb (suc m) (length ts) then open_circuit else closed)
unfolding run call
trips_at_threshold b m ts t f =
    let (stays, trips) =
      counted_failures ts 0 m (record_success b) (ground arith) (ground arith) (ground arith) f
        (omega arith) in
    ground (arith, stays, trips)
