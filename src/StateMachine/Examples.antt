-- ===== src/StateMachine/Examples.antt =====
-- The machine at concrete tasks.
use agamemnon.Base.{String, ◌≡◌, ◌↔◌, refl, true, false, List, [], ◌∷◌, arith, str_eq_iff}
use agamemnon.Base.Int.{pos}
use agamemnon.HmasTypes.{
  HmasTask, HmasLayer, TaskState, l2_module_lead, l3_task_agent, pending, completed,
}
use agamemnon.StateMachine.{TaskEvent, submit, delegate, start, complete, try_transition}
use agamemnon.StateMachine.Edges.{Edge, stamp, try_transition_diagram}
use agamemnon.StateMachine.Traces.{run, IsStamped, run-IsStamped}

abbrev task : HmasLayer → TaskState → String → HmasTask
task layer state completed_at = record {
  id = "c";
  brief_id = "b";
  parent_task_id = "p";
  layer = layer;
  state = state;
  subject = "s";
  description = "d";
  repo = "r";
  module_name = "m";
  issue = pos 0;
  assigned_lead_id = "";
  blocked_by = [];
  child_task_ids = [];
  escalations = [];
  created_at = "t0";
  completed_at = completed_at;
}

abbrev leaf : HmasTask
leaf = task l3_task_agent pending ""

try_transition_diagram_example :
    (((try_transition "t1" leaf delegate).1 ≡ true)
      ↔ ((s : TaskState) × Edge l3_task_agent pending delegate s))
    × ((s : TaskState)
        → Edge l3_task_agent pending delegate s
        → (try_transition "t1" leaf delegate).0
          ≡ record leaf { state = s; completed_at = stamp s "t1" "" })
    × ((try_transition "t1" leaf delegate).1 ≡ false → (try_transition "t1" leaf delegate).0 ≡ leaf)
try_transition_diagram_example = try_transition_diagram "t1" leaf delegate

abbrev day : List (String × TaskEvent)
day = ("t1", submit) ∷ ("t2", delegate) ∷ ("t3", start) ∷ ("t4", complete) ∷ []

abbrev finished : HmasTask
finished = task l2_module_lead completed "t4"

day_ends : run (task l2_module_lead pending "") day ≡ finished
unfolding run try_transition
day_ends = refl

run-IsStamped_example : IsStamped (run (task l2_module_lead pending "") day)
run-IsStamped_example =
    run-IsStamped (task l2_module_lead pending "") day
      (
        λ e. ground (arith, str_eq_iff "t1" ""),
        (
          λ e. ground (arith, str_eq_iff "t2" ""),
          (λ e. ground (arith, str_eq_iff "t3" ""), (λ e. ground (arith, str_eq_iff "t4" ""), tt)),
        ),
      )
      (λ h. ground arith, λ c f. refl)
