-- ===== src/CircuitBreaker/Window.antt =====
-- What the breaker lets through while it is not closed.
use agamemnon.Base.{◌≡◌, refl, Bool, true, false, List, [], ◌∷◌, arith, All}
use agamemnon.Base.Int.{ℤ, pos, ◌≤ℤ◌, ◌<ℤ◌, ◌-ℤ◌}
use agamemnon.CircuitBreaker.{
  closed, open_circuit, half_open, CircuitBreaker, Call, allow, failure, success, allow_attempt,
  record_failure, record_success, call, run,
}

-- Calls other than a success, with every attempt made before the probe interval has passed since
-- the breaker opened.
abbrev pub InWindow : ℤ → ℤ → List Call → Type 0
InWindow since interval [] = Unit
InWindow since interval (allow now ∷ cs) = (now -ℤ since <ℤ interval) × InWindow since interval cs
InWindow since interval (failure now ∷ cs) = InWindow since interval cs
InWindow since interval (success ∷ cs) = ⊥

-- The answers that the attempts of a run of calls get.
unfoldable pub answers : List Call → CircuitBreaker → List Bool
answers [] b = []
answers (allow now ∷ cs) b = (allow_attempt now b).1 ∷ answers cs (call (allow now) b)
answers (failure now ∷ cs) b = answers cs (call (failure now) b)
answers (success ∷ cs) b = answers cs (call success b)

-- An open breaker lets nothing through before its probe interval has passed: while no success is
-- recorded and every attempt comes earlier than that, all attempts are refused and the breaker stays
-- open, with the time at which it opened; late failures of other publishers change neither.
pub open_refuses :
    (cs : List Call) (b : CircuitBreaker)
    → b.state ≡ open_circuit
    → InWindow b.open_since_ms b.probe_interval cs
    → All (λ a. a ≡ false) (answers cs b)
      × ((run cs b).state ≡ open_circuit)
      × ((run cs b).open_since_ms ≡ b.open_since_ms)
unfolding run call answers
open_refuses [] b h w = (tt, h, refl)
open_refuses (allow now ∷ cs) b h w = ground (arith, open_refuses cs (call (allow now) b))
open_refuses (failure now ∷ cs) b h w = ground (arith, open_refuses cs (call (failure now) b))
open_refuses (success ∷ cs) b h w = absurd w

-- The probe. Once the interval has passed, an attempt on an open breaker is let through and leaves
-- it half open; a success then closes it with no failure counted, and a failure opens it again, with
-- the interval counted from that failure.
pub probe_decides :
    (b : CircuitBreaker) (now later : ℤ)
    → b.state ≡ open_circuit
    → b.probe_interval ≤ℤ now -ℤ b.open_since_ms
    → let p = (allow_attempt now b).0 in
      ((allow_attempt now b).1 ≡ true)
      × (p.state ≡ half_open)
      × ((record_success p).state ≡ closed)
      × ((record_success p).failure_count ≡ pos 0)
      × ((record_failure later p).state ≡ open_circuit)
      × ((record_failure later p).open_since_ms ≡ later)
unfolding allow_attempt record_success record_failure
probe_decides b now later h e = ground arith
