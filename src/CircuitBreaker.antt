-- ===== src/CircuitBreaker.antt =====
-- include/agamemnon/circuit_breaker.hpp and src/circuit_breaker.cpp. The value of the steady clock
-- that a call reads is its argument `now`, in milliseconds. Each call is one step: the races between
-- the atomics inside a call are not modelled.
pub mod Invariant
pub mod Window
pub mod Examples
use agamemnon.Base.{
  ℕ, zero, suc, ◌+◌, ◌-◌, ◌^◌, String, Bool, true, false, List, [], ◌∷◌, ◌==◌, if◌then◌else◌,
}
use agamemnon.Base.Int.{ℤ, pos, negsuc, leb_ℤ, ◌-ℤ◌}

pub data State : Type 0 where
  closed open_circuit half_open : State

pub record Config : Type 0 where
  pub failure_threshold : ℤ
  pub probe_interval : ℤ

pub record CircuitBreaker : Type 0 where
  pub cfg : Config
  pub open cfg use *
  pub state : State
  pub failure_count : ℤ  -- int
  pub open_since_ms : ℤ  -- int64_t

unfoldable pub init : Config → CircuitBreaker
init cfg = record { cfg = cfg; state = closed; failure_count = pos 0; open_since_ms = pos 0 }

-- fetch_add(1) on a std::atomic<int>, which wraps around.
abbrev pub increment : ℤ → ℤ
increment (pos n) = if n + 1 == 2 ^ 31 then negsuc (2 ^ 31 - 1) else pos (n + 1)
increment (negsuc zero) = pos 0
increment (negsuc (suc n)) = negsuc n

abbrev transition_to_open : ℤ → CircuitBreaker → CircuitBreaker
transition_to_open now b = record b { open_since_ms = now; state = open_circuit }

abbrev allow_in : State → ℤ → CircuitBreaker → CircuitBreaker × Bool
allow_in closed now b = (b, true)
allow_in open_circuit now b =
    if leb_ℤ b.probe_interval (now -ℤ b.open_since_ms)
    then (record b { state = half_open }, true)
    else (b, false)
allow_in half_open now b = (b, true)

unfoldable pub allow_attempt : ℤ → CircuitBreaker → CircuitBreaker × Bool
allow_attempt now b = allow_in b.state now b

unfoldable pub record_success : CircuitBreaker → CircuitBreaker
record_success b = record b { failure_count = pos 0; state = closed }

abbrev fail_in : State → ℤ → CircuitBreaker → CircuitBreaker
fail_in half_open now b = transition_to_open now b
fail_in closed now b =
    if leb_ℤ b.failure_threshold b.failure_count then transition_to_open now b else b
fail_in open_circuit now b = b

unfoldable pub record_failure : ℤ → CircuitBreaker → CircuitBreaker
record_failure now b = fail_in b.state now (record b { failure_count = increment b.failure_count })

unfoldable pub state_label : CircuitBreaker → String
state_label b = elim b.state [ closed ↦ "closed" | open_circuit ↦ "open" | half_open ↦ "half_open" ]

-- The calls that the breaker's clients make, with the time of each.
pub data Call : Type 0 where
  allow failure : ℤ → Call
  success : Call

unfoldable pub call : Call → CircuitBreaker → CircuitBreaker
unfolding allow_attempt record_failure record_success
call (allow now) b = (allow_attempt now b).0
call (failure now) b = record_failure now b
call success b = record_success b

unfoldable pub run : List Call → CircuitBreaker → CircuitBreaker
run [] b = b
run (c ∷ cs) b = run cs (call c b)
