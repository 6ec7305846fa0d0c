-- ===== src/CircuitBreaker/Examples.antt =====
-- The breaker at concrete configurations.
use agamemnon.Base.{◌≡◌, refl, Bool, true, false, [], ◌∷◌, arith, All}
use agamemnon.Base.Int.{pos}
use agamemnon.CircuitBreaker.{
  Config, CircuitBreaker, init, closed, open_circuit, half_open, allow, failure, success,
  allow_attempt, record_success, record_failure, run, call,
}
use agamemnon.CircuitBreaker.Invariant.{failures, trips_at_threshold}
use agamemnon.CircuitBreaker.Window.{answers, open_refuses, probe_decides}

abbrev cfg : Config
cfg = record { failure_threshold = pos 2; probe_interval = pos 1000 }

abbrev opened : CircuitBreaker
opened = record { cfg = cfg; state = open_circuit; failure_count = pos 2; open_since_ms = pos 50 }

abbrev probing : CircuitBreaker
probing = record opened { state = half_open }

-- Two failures trip a breaker with threshold 2.
two_failures_trip : run (failures (pos 40 ∷ pos 50 ∷ [])) (init cfg) ≡ opened
unfolding run call record_failure init
two_failures_trip = refl

trips_at_threshold_example :
    (run (success ∷ failures (pos 40 ∷ pos 50 ∷ [])) probing).state ≡ open_circuit
trips_at_threshold_example = trips_at_threshold probing 1 (pos 40 ∷ pos 50 ∷ []) refl (omega arith)

open_refuses_example :
    All
      (λ (a : Bool). a ≡ false)
      (answers (allow (pos 60) ∷ failure (pos 70) ∷ allow (pos 80) ∷ []) opened)
    × ((run (allow (pos 60) ∷ failure (pos 70) ∷ allow (pos 80) ∷ []) opened).state ≡ open_circuit)
    × ((run (allow (pos 60) ∷ failure (pos 70) ∷ allow (pos 80) ∷ []) opened).open_since_ms
        ≡ pos 50)
open_refuses_example =
    open_refuses (allow (pos 60) ∷ failure (pos 70) ∷ allow (pos 80) ∷ []) opened refl
      (ground arith, (ground arith, tt))

probe_decides_example :
    let p = (allow_attempt (pos 1050) opened).0 in
    ((allow_attempt (pos 1050) opened).1 ≡ true)
    × (p.state ≡ half_open)
    × ((record_success p).state ≡ closed)
    × ((record_success p).failure_count ≡ pos 0)
    × ((record_failure (pos 1060) p).state ≡ open_circuit)
    × ((record_failure (pos 1060) p).open_since_ms ≡ pos 1060)
probe_decides_example = probe_decides opened (pos 1050) (pos 1060) refl (ground arith)
