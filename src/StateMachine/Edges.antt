-- ===== src/StateMachine/Edges.antt =====
-- The state machine against the diagram that the comments of state_machine.hpp and of the
-- constructor draw.
use agamemnon.Base.{String, ◌≡◌, refl, ◌↔◌, ◌⊎◌, Bool, true, false, ap, arith}
use agamemnon.HmasTypes.{
  HmasLayer, TaskState, HmasTask, l3_task_agent, pending, decomposing, delegated, in_progress,
  escalated, completed, failed,
}
use agamemnon.StateMachine.{
  TaskEvent, submit, delegate, start, escalate, retry, complete, fail, try_transition,
}

-- `Edge l s e s'`: in state `s` a task of layer `l` accepts event `e` and goes to `s'`.
pub data Edge : HmasLayer → TaskState → TaskEvent → TaskState → Type 0 where
  submitted : {l : HmasLayer} → Edge l pending submit decomposing
  broken_down : {l : HmasLayer} → Edge l decomposing delegate delegated
  leaf_delegated : {l : HmasLayer} → l ≡ l3_task_agent → Edge l pending delegate delegated
  started : {l : HmasLayer} → Edge l delegated start in_progress
  escalates : {l : HmasLayer} → Edge l in_progress escalate escalated
  retried : {l : HmasLayer} → Edge l escalated retry delegated
  completes : {l : HmasLayer} → Edge l in_progress complete completed
  fails : {l : HmasLayer} → Edge l in_progress fail failed
  gives_up : {l : HmasLayer} → Edge l escalated fail failed

pub ruleset edges = (
  submitted, broken_down, leaf_delegated, started, escalates, retried, completes, fails, gives_up,
)

abbrev pub IsTerminal : TaskState → Type 0
IsTerminal s = (s ≡ completed) ⊎ (s ≡ failed)

-- `completed_at` after an accepted event that leads to `s`.
abbrev pub stamp : TaskState → String → String → String
stamp completed now old = now
stamp failed now old = now
stamp _ now old = old

-- An accepted event follows an edge of the diagram.
pub try_transition-Edge :
    (now : String) (t : HmasTask) (e : TaskEvent)
    → (try_transition now t e).1 ≡ true
    → Edge t.layer t.state e (try_transition now t e).0.state
unfolding try_transition
try_transition-Edge now t e h = grind (arith, edges)

pub rejected_unchanged :
    (now : String) (t : HmasTask) (e : TaskEvent)
    → (try_transition now t e).1 ≡ false
    → (try_transition now t e).0 ≡ t
unfolding try_transition
rejected_unchanged now t e h = ground arith

-- The step along an edge, with the task's layer and state as equations.
along_edge :
    (now : String) (t : HmasTask) {l : HmasLayer} {s0 : TaskState} {e : TaskEvent} {s : TaskState}
    → t.layer ≡ l
    → t.state ≡ s0
    → Edge l s0 e s
    → try_transition now t e
      ≡ (record t { state = s; completed_at = stamp s now t.completed_at }, true)
unfolding try_transition
along_edge now t hl hs submitted = ground arith
along_edge now t hl hs broken_down = ground arith
along_edge now t hl hs (leaf_delegated leaf) = ground arith
along_edge now t hl hs started = ground arith
along_edge now t hl hs escalates = ground arith
along_edge now t hl hs retried = ground arith
along_edge now t hl hs completes = ground arith
along_edge now t hl hs fails = ground arith
along_edge now t hl hs gives_up = ground arith

-- The machine is the diagram. An event is accepted exactly when an edge for it leaves the task's
-- state at the task's layer; then the state becomes the edge's target, `completed_at` becomes `now`
-- if the target is Completed or Failed, and every other field is kept; a rejected event changes
-- nothing.
pub try_transition_diagram :
    (now : String) (t : HmasTask) (e : TaskEvent)
    → (((try_transition now t e).1 ≡ true) ↔ ((s : TaskState) × Edge t.layer t.state e s))
      × ((s : TaskState)
          → Edge t.layer t.state e s
          → (try_transition now t e).0
            ≡ record t { state = s; completed_at = stamp s now t.completed_at })
      × ((try_transition now t e).1 ≡ false → (try_transition now t e).0 ≡ t)
try_transition_diagram now t e = (
  (
    λ h. ((try_transition now t e).0.state, try_transition-Edge now t e h),
    λ (s, h). ap (λ (r : HmasTask × Bool). r.1) (along_edge now t refl refl h),
  ),
  λ s h. ap (λ (r : HmasTask × Bool). r.0) (along_edge now t refl refl h),
  rejected_unchanged now t e,
)
