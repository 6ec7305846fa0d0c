-- ===== src/LeadAgents/ModuleLead.antt =====
-- The module leads (src/agents/module_lead_agent.cpp and
-- include/agamemnon_agents/agents/module_lead_agent.hpp), without what is compiled in only with
-- ENABLE_GRPC and without synthesizeResults.
use Prim.Native.Char.{Char, code}
use Prim.Native.String.{◌++◌ as append_text}
use agamemnon.Base.{
  ℕ, ◌+◌, ◌%◌, String, Bool, true, false, ◌&&◌, List, [], ◌∷◌, none, some, leb, length, get_elem?,
  str_eq, if◌then◌else◌, not,
}
use agamemnon.Base.Exec.{Exec, throw}
use agamemnon.LeadAgents.Agent.{
  LeadAgent, Environment, Hooks, send_message, track_and_send, receive,
}
use agamemnon.LeadAgents.Message.{KeystoneMessage, ActionType, task_failed}
use agamemnon.LeadAgents.Coordination.{has_failures}
use agamemnon.Store.ByBrief.{is_empty}

pub data ModuleLeadState : Type 0 where
  idle : ModuleLeadState
  planning : ModuleLeadState
  waiting_for_tasks : ModuleLeadState
  synthesizing : ModuleLeadState
  error : ModuleLeadState

abbrev pub state_to_string : ModuleLeadState → String
state_to_string idle = "IDLE"
state_to_string planning = "PLANNING"
state_to_string waiting_for_tasks = "WAITING_FOR_TASKS"
state_to_string synthesizing = "SYNTHESIZING"
state_to_string error = "ERROR"

abbrev pub is_failure : ActionType → Bool
is_failure task_failed = true
is_failure _ = false

unfoldable pub is_subordinate_result : KeystoneMessage → Bool
is_subordinate_result msg = str_eq msg.command "response" && not (is_failure msg.action_type)

-- The pattern \d
abbrev pub is_digit : Char → Bool
is_digit c = leb b'0' (code c) && leb (code c) b'9'

abbrev task_for : String → List String → List String
task_for run tasks = if is_empty run then tasks else append_text "echo " run ∷ tasks

-- A task for each run of digits; `run` is the digits that stand directly before the text.
unfoldable pub tasks_in : String → String → List String
tasks_in run String.[] = task_for run []
tasks_in run (String.◌∷◌ c text) = elim (is_digit c) [
  | true ↦ tasks_in (append_text run (String.◌∷◌ c String.[])) text
  | false ↦ task_for run (tasks_in "" text)
]

unfoldable pub decompose_goal : String → List String
unfolding tasks_in
decompose_goal goal = tasks_in "" goal

-- An empty list of agents is tested before the remainder is taken.
abbrev pub assign :
    Environment → ℕ → String → List String → Exec (LeadAgent ModuleLeadState) (Unit {0})
assign env i subtask [] = throw
assign env i subtask (a ∷ available) =
    elim (get_elem? (a ∷ available) (i % length (a ∷ available))) [
      | none ↦ throw
      | some agent ↦ track_and_send env agent subtask
    ]

-- The rest of the loop, from the index `i` on.
unfoldable pub delegate_from :
    Environment → ℕ → List String → Exec (LeadAgent ModuleLeadState) (Unit {0})
unfolding send_message
delegate_from env i [] s = (some tt, s)
delegate_from env i (subtask ∷ subtasks) s = elim (assign env i subtask s.available s).0 [
  | none ↦ (none, (assign env i subtask s.available s).1)
  | some _ ↦ delegate_from env (i + 1) subtasks (assign env i subtask s.available s).1
]

unfoldable pub process_subordinate_result :
    KeystoneMessage → LeadAgent ModuleLeadState → LeadAgent ModuleLeadState
process_subordinate_result =
    receive state_to_string (λ c. if has_failures c then error else synthesizing)

abbrev pub hooks : Hooks ModuleLeadState
hooks = record {
  idle_state = idle;
  planning_state = planning;
  waiting_state = waiting_for_tasks;
  aggregating_state = synthesizing;
  error_state = error;
  state_to_string = state_to_string;
  decompose_goal = decompose_goal;
  delegate_subtasks = λ env subtasks. delegate_from env 0 subtasks;
  is_subordinate_result = is_subordinate_result;
  process_subordinate_result = process_subordinate_result;
}
