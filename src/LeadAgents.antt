-- ===== src/LeadAgents.antt =====
-- The lead agents of the hierarchy (include/agamemnon_agents/agents/lead_agent_base.hpp and
-- lead_agent_base_impl.hpp): what the component and the module leads share. The subclass is a record
-- of hooks; the message bus keeps what is sent, in order.
pub mod Message
pub mod Agent
pub mod Coordination
pub mod ModuleLead
pub mod ComponentLead
pub mod FanIn
pub mod Delegation
pub mod Verdicts
pub mod Escalation
pub mod Examples
use Prim.Native.String.{◌++◌ as append_text}
use agamemnon.Base.{
  ℕ, ◌+◌, String, Bool, true, false, List, [], ◌∷◌, ◌++◌, Option, none, some, if◌then◌else◌, ltb,
  length,
}
use agamemnon.Base.Decimal.{to_string}
use agamemnon.Base.Exec.{Exec, pure, throw, gets, modify, ◌>>=◌, ◌>>◌}
use agamemnon.Base.Int.{ℤ, pos}
use agamemnon.LeadAgents.Message.{
  KeystoneMessage, Response, ActionType, cancel_task, task_failed, create, create_action,
  create_success, create_error,
}
use agamemnon.LeadAgents.Coordination.{
  CoordinationState, init, transition_to, initialize_coordination, record_failure, record_result,
  track_pending_subordinate,
}
use agamemnon.Store.ByBrief.{is_empty}
use agamemnon.LeadAgents.Agent.{
  send_message, draw, coordinate, track_and_send, receive_text, receive, failure_text, int_max,
  LeadAgent, Environment, Hooks,
}

module _ {State : Type 0} (hooks : Hooks State) (env : Environment) where
  open hooks use {
    idle_state, planning_state, waiting_state, error_state, state_to_string, decompose_goal,
    delegate_subtasks, is_subordinate_result, process_subordinate_result,
  }

  -- A new agent.
  abbrev pub new_agent : String → Bool → List String → LeadAgent State
  new_agent agent_id has_bus available = record {
    agent_id = agent_id;
    coordination = transition_to idle_state "IDLE" (init idle_state);
    available = available;
    cancelled_tasks = [];
    has_bus = has_bus;
    sent = [];
    drawn = 0;
  }

  abbrev pub enter : State → LeadAgent State → LeadAgent State
  enter state = coordinate (transition_to state (state_to_string state))

  -- The failure goes on to the requester, if there is one.
  abbrev pub propagate : KeystoneMessage → String → String → Exec (LeadAgent State) (Unit {0})
  propagate failure parent error = if is_empty parent then pure tt else (do
    id ← draw env
    agent ← gets (λ s. s.agent_id)
    send_message
        (create_action env.now id agent parent task_failed failure.session_id (some error)))

  -- What follows the recording, whose answer is whether all have reported.
  abbrev pub after_failure : KeystoneMessage → String → Bool → Exec (LeadAgent State) (Unit {0})
  after_failure msg error false = pure tt
  after_failure msg error true = do
    modify (enter error_state)
    (λ s. propagate msg s.coordination.requester_id error s)

  abbrev pub failed_with : KeystoneMessage → String → Exec (LeadAgent State) (Unit {0})
  failed_with msg error s =
      let (c, all_done) = record_failure error s.coordination in
      after_failure msg error all_done (record s { coordination = c })

  unfoldable pub process_subordinate_failure : KeystoneMessage → Exec (LeadAgent State) (Unit {0})
  unfolding send_message
  process_subordinate_failure msg = failed_with msg (failure_text msg)

  abbrev cancellation : KeystoneMessage → Option String → Exec (LeadAgent State) Response
  cancellation msg none =
      gets (λ s. create_error env.now msg s.agent_id "CANCEL_TASK message missing task_id")
  cancellation msg (some task_id) = do
    modify (λ s. record s { cancelled_tasks = task_id ∷ s.cancelled_tasks })
    gets (λ s.
        create_success env.now msg s.agent_id
          (append_text "Task " (append_text task_id " marked for cancellation")))

  unfoldable pub handle_cancellation : KeystoneMessage → Exec (LeadAgent State) Response
  handle_cancellation msg = cancellation msg msg.task_id

  abbrev answer : KeystoneMessage → String → Exec (LeadAgent State) Response
  answer msg text = gets (λ s. create_success env.now msg s.agent_id text)

  -- The acknowledgement goes back over the bus, under the id of the message.
  abbrev cancel : KeystoneMessage → Exec (LeadAgent State) Response
  cancel msg = do
    response ← handle_cancellation msg
    id ← draw env
    agent ← gets (λ s. s.agent_id)
    send_message (record (create env.now id agent msg.sender_id "response" (some response.result)) {
      msg_id = msg.msg_id;
    })
    pure response

  abbrev fail_with : KeystoneMessage → String → Exec (LeadAgent State) Response
  fail_with msg text = do
    modify (enter error_state)
    gets (λ s. create_error env.now msg s.agent_id text)

  abbrev pub delegate : KeystoneMessage → List String → Exec (LeadAgent State) Response
  delegate msg subtasks = do
    modify (coordinate (initialize_coordination (length subtasks)))
    modify (enter waiting_state)
    delegate_subtasks env subtasks
    answer msg (
        append_text "Goal decomposed into "
          (append_text (to_string (pos (length subtasks))) " subtasks"))

  abbrev pub delegate_if : KeystoneMessage → List String → Exec (LeadAgent State) Response
  delegate_if msg [] = fail_with msg "Failed to decompose goal"
  delegate_if msg (subtask ∷ subtasks) =
      if ltb int_max (length (subtask ∷ subtasks))
      then fail_with msg (
          append_text "Subtask count exceeds maximum: " (
            append_text (to_string (pos (length (subtask ∷ subtasks))))
              (append_text " > " (to_string (pos int_max)))))
      else delegate msg (subtask ∷ subtasks)

  -- A new goal.
  abbrev pub accept_goal : KeystoneMessage → Exec (LeadAgent State) Response
  accept_goal msg = do
    modify (enter planning_state)
    modify (coordinate (λ c. record c { current_goal = msg.command; requester_id = msg.sender_id }))
    delegate_if msg (decompose_goal msg.command)

  abbrev dispatch : KeystoneMessage → ActionType → Exec (LeadAgent State) Response
  dispatch msg ActionType.cancel_task = cancel msg
  dispatch msg ActionType.task_failed = do
    process_subordinate_failure msg
    answer msg "Subordinate failure recorded"
  dispatch msg _ =
      if is_subordinate_result msg
      then (do modify (process_subordinate_result msg); answer msg "Subordinate result processed")
      else accept_goal msg

  unfoldable pub process_message : KeystoneMessage → Exec (LeadAgent State) Response
  unfolding send_message process_subordinate_failure handle_cancellation
  process_message msg = dispatch msg msg.action_type
