-- ===== src/StateMachine.antt =====
-- include/agamemnon/state_machine.hpp and src/state_machine.cpp: the transition table of a task.
-- The time that an action reads from now_iso8601() is an argument, `now`.
pub mod Edges
pub mod Traces
pub mod Examples
use mathlib.Core.List.{reverse}
use agamemnon.Base.{
  ℕ, String, Bool, true, false, ◌&&◌, List, [], ◌∷◌, ◌++◌, map, Option, none, some, ◌==◌,
  if◌then◌else◌,
}
use agamemnon.HmasTypes.{
  HmasLayer, TaskState, HmasTask, l3_task_agent, pending, decomposing, delegated, in_progress,
  escalated, completed, failed, state_eq, layer_eq,
}

pub data TaskEvent : Type 0 where
  submit delegate start escalate retry complete fail : TaskEvent

unfoldable pub task_event_to_string : TaskEvent → String
task_event_to_string submit = "Submit"
task_event_to_string delegate = "Delegate"
task_event_to_string start = "Start"
task_event_to_string escalate = "Escalate"
task_event_to_string retry = "Retry"
task_event_to_string complete = "Complete"
task_event_to_string fail = "Fail"

abbrev pub event_code : TaskEvent → ℕ
event_code submit = 0
event_code delegate = 1
event_code start = 2
event_code escalate = 3
event_code retry = 4
event_code complete = 5
event_code fail = 6

abbrev pub event_eq : TaskEvent → TaskEvent → Bool
event_eq a b = event_code a == event_code b

-- `none` is the nullptr of a std::function.
pub record Transition : Type 0 where
  pub target : TaskState
  pub guard : Option (HmasTask → Bool)
  pub action : Option (String → HmasTask → HmasTask)

-- One call of `add` in the constructor: the key and the transition that goes to its bucket.
pub record Row : Type 0 where
  pub from : TaskState
  pub event : TaskEvent
  pub transition : Transition

abbrev add :
    TaskState
    → TaskEvent
    → TaskState
    → Option (HmasTask → Bool)
    → Option (String → HmasTask → HmasTask)
    → Row
add from event target guard action = record {
  from = from;
  event = event;
  transition = record { target = target; guard = guard; action = action };
}

abbrev is_leaf : HmasTask → Bool
is_leaf t = layer_eq t.layer l3_task_agent

abbrev set_completed_at : String → HmasTask → HmasTask
set_completed_at now t = record t { completed_at = now }

table : List Row
table =
    add pending submit decomposing none none
    ∷ add decomposing delegate delegated none none
    ∷ add pending delegate delegated (some is_leaf) none
    ∷ add delegated start in_progress none none
    ∷ add in_progress escalate escalated none none
    ∷ add escalated retry delegated none none
    ∷ add in_progress complete completed none (some set_completed_at)
    ∷ add in_progress fail failed none (some set_completed_at)
    ∷ add escalated fail failed none (some set_completed_at)
    ∷ []

-- The bucket of a key, oldest first: the rows of the table with that key.
bucket : TaskState → TaskEvent → List Row → List Transition
bucket s e [] = []
bucket s e (r ∷ rs) =
    let rest = bucket s e rs in
    if state_eq r.from s && event_eq r.event e then r.transition ∷ rest else rest

abbrev passes : Option (HmasTask → Bool) → HmasTask → Bool
passes none t = true
passes (some g) t = g t

abbrev perform : Option (String → HmasTask → HmasTask) → String → HmasTask → HmasTask
perform none now t = t
perform (some a) now t = a now t

-- The loop over the candidates: the first whose guard passes is applied.
first_match : String → HmasTask → List Transition → HmasTask × Bool
first_match now t [] = (t, false)
first_match now t (tr ∷ trs) =
    let rest = first_match now t trs in
    if passes tr.guard t
    then (perform tr.action now (record t { state = tr.target }), true)
    else rest

unfoldable pub try_transition : String → HmasTask → TaskEvent → HmasTask × Bool
unfolding table bucket first_match
try_transition now t e = first_match now t (bucket t.state e table)

unfoldable pub valid_targets : TaskState → TaskEvent → List TaskState
unfolding table bucket
valid_targets from e = map (λ (tr : Transition). tr.target) (bucket from e table)
