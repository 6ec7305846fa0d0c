-- ===== src/StateMachine/Traces.antt =====
-- What holds of a task after any sequence of try_transition calls.
use agamemnon.Base.{String, ◌≡◌, refl, ◌≢◌, List, [], ◌∷◌, arith, map}
use agamemnon.HmasTypes.{HmasTask, completed, failed}
use agamemnon.StateMachine.{TaskEvent, try_transition}
use agamemnon.StateMachine.Edges.{IsTerminal}

-- The events in turn, each with the time at which it is tried; rejected ones are passed over.
unfoldable pub run : HmasTask → List (String × TaskEvent) → HmasTask
run t [] = t
run t ((now, e) ∷ es) = run (try_transition now t e).0 es

abbrev pub events : List (String × TaskEvent) → List TaskEvent
events = map (λ (p : String × TaskEvent). p.1)

terminal_step :
    (now : String) (t : HmasTask) (e : TaskEvent)
    → IsTerminal t.state
    → (try_transition now t e).0 ≡ t
unfolding try_transition
terminal_step now t e h = ground arith

-- A Completed or Failed task rejects every further event: no sequence of events changes it.
terminal_absorbs :
    (t : HmasTask) (es : List (String × TaskEvent)) → IsTerminal t.state → run t es ≡ t
unfolding run
terminal_absorbs t [] h = refl
terminal_absorbs t ((now, e) ∷ es) h = rw (terminal_step now t e h) (terminal_absorbs t es h)

-- `completed_at` is set in the terminal states and empty in the others.
abbrev pub IsStamped : HmasTask → Type 0
IsStamped t =
    (IsTerminal t.state → t.completed_at ≢ "")
    × ((t.state ≡ completed → ⊥) → (t.state ≡ failed → ⊥) → t.completed_at ≡ "")

-- The clock gives a time, never the empty text.
abbrev pub IsTimed : List (String × TaskEvent) → Type 0
IsTimed [] = Unit
IsTimed ((now, e) ∷ es) = (now ≢ "") × IsTimed es

step-IsStamped :
    (now : String) (t : HmasTask) (e : TaskEvent)
    → now ≢ ""
    → IsStamped t
    → IsStamped (try_transition now t e).0
unfolding try_transition
step-IsStamped now t e h s = ground arith

-- Events tried at non-empty times keep `completed_at` set exactly in the terminal states. It holds
-- of the task at the start.
pub run-IsStamped :
    (t : HmasTask) (es : List (String × TaskEvent))
    → IsTimed es
    → IsStamped t
    → IsStamped (run t es)
unfolding run
run-IsStamped t [] h s = s
run-IsStamped t ((now, e) ∷ es) h s =
    run-IsStamped (try_transition now t e).0 es h.1 (step-IsStamped now t e h.0 s)
