-- ===== src/TaskAgent/Answers.antt =====
-- What a task agent sends for a message that it is given, and how its module lead reads it.
use agamemnon.Base.{
  ◌≡◌, ◌≢◌, refl, String, Bool, true, false, [], ◌∷◌, ◌++◌, Option, none, some, ◌⊎◌, inl, inr,
  if◌then◌else◌, arith,
}
use Prim.Native.String.{◌++◌ as append_text}
use agamemnon.Base.Exec.{Exec}
use agamemnon.LeadAgents.Message.{
  execute, decompose, return_result, shutdown, KeystoneMessage, Response, ActionType, cancel_task,
  task_failed, create, create_error,
}
use agamemnon.LeadAgents.FanIn.{IsReport, failed, succeeded, is_failed}
use agamemnon.LeadAgents.ModuleLead
use agamemnon.TaskAgent.{
  TaskAgent, Surroundings, process_message, execute_bash, sanitize, unless_failed, ran, dispatch,
  send_message, send_response_message,
}

-- Whether the run of a command ends in an exception.
abbrev pub throws : String ⊎ String → Bool
throws (inl what) = true
throws (inr result) = false

-- What the module lead gets to know of a message: a failure where a healthy agent ran the command of
-- the message and it threw.
abbrev pub is_reported_failed : Surroundings → KeystoneMessage → Option String → Bool
is_reported_failed env msg none = throws (execute_bash env msg.command)
is_reported_failed env msg (some reason) = false

pub record IsAnswerTo (env : Surroundings) (msg : KeystoneMessage) (s : TaskAgent)
    (answer : KeystoneMessage) : Type 0 where
  pub sent : (process_message env msg s).1.sent ≡ s.sent ++ (answer ∷ [])
  pub returned : (process_message env msg s).0 ≢ none
  pub addressed : answer.receiver_id ≡ msg.sender_id
  pub numbered : answer.msg_id ≡ msg.msg_id
  pub report : IsReport ModuleLead.hooks answer
  pub verdict : is_failed answer ≡ is_reported_failed env msg s.failure_reason

abbrev result_text : Surroundings → String ⊎ String → String
result_text env (inl what) = append_text "ERROR: " (sanitize env what)
result_text env (inr result) = result

abbrev answer_text : Surroundings → KeystoneMessage → Option String → String
answer_text env msg none = result_text env (execute_bash env msg.command)
answer_text env msg (some reason) = append_text "Agent is in failed state: " reason

abbrev answer_action : Bool → ActionType
answer_action b = if b then task_failed else execute

-- A response, as an answer to `msg`, that is a failure where `b` says so.
abbrev reply : Surroundings → KeystoneMessage → TaskAgent → Bool → String → KeystoneMessage
reply env msg s b text =
    record (create env.now (env.message_id s.drawn) s.agent_id msg.sender_id "response"
      (some text)) { msg_id = msg.msg_id; action_type = answer_action b }

abbrev answer : Surroundings → KeystoneMessage → TaskAgent → KeystoneMessage
answer env msg s =
    reply env msg s (is_reported_failed env msg s.failure_reason)
      (answer_text env msg s.failure_reason)

reply-IsReport :
    (env : Surroundings) (msg : KeystoneMessage) (s : TaskAgent) (b : Bool) (text : String)
    → IsReport ModuleLead.hooks (reply env msg s b text)
unfolding create ModuleLead.is_subordinate_result
reply-IsReport env msg s true text = failed refl
reply-IsReport env msg s false text = succeeded text refl refl refl

reply-is_failed :
    (env : Surroundings) (msg : KeystoneMessage) (s : TaskAgent) (b : Bool) (text : String)
    → is_failed (reply env msg s b text) ≡ b
reply-is_failed env msg s true text = refl
reply-is_failed env msg s false text = refl

-- The message is sent behind all others, and the run returns.
abbrev Sends : Exec TaskAgent Response → TaskAgent → KeystoneMessage → Type 0
Sends run s m = ((run s).1.sent ≡ s.sent ++ (m ∷ [])) × ((run s).0 ≢ none)

module _ (env : Surroundings) (msg : KeystoneMessage) (s : TaskAgent) (bus : s.has_bus ≡ true) where
  ran-Sends :
      (r : String ⊎ String)
      → Sends (ran env msg r) s (reply env msg s (throws r) (result_text env r))
  unfolding send_response_message send_message create
  ran-Sends (inl what) = (ground (arith, bus), ground (arith, bus))
  ran-Sends (inr result) = (ground (arith, bus), ground (arith, bus))

  dispatch-Sends :
      (a : ActionType)
      → a ≢ cancel_task
      → Sends (dispatch env msg a) s (
          reply env msg s
            (throws (execute_bash env msg.command))
            (result_text env (execute_bash env msg.command)))
  dispatch-Sends decompose h = ran-Sends (execute_bash env msg.command)
  dispatch-Sends execute h = ran-Sends (execute_bash env msg.command)
  dispatch-Sends return_result h = ran-Sends (execute_bash env msg.command)
  dispatch-Sends shutdown h = ran-Sends (execute_bash env msg.command)
  dispatch-Sends cancel_task h = absurd (h refl)
  dispatch-Sends task_failed h = ran-Sends (execute_bash env msg.command)

  unless_failed-Sends :
      (o : Option String)
      → msg.action_type ≢ cancel_task
      → Sends
          (unless_failed env msg o)
          s
          (reply env msg s (is_reported_failed env msg o) (answer_text env msg o))
  unfolding send_response_message send_message create create_error
  unless_failed-Sends none h = dispatch-Sends msg.action_type h
  unless_failed-Sends (some reason) h = (ground (arith, bus), ground (arith, bus))

abbrev pub IsAnswered : Surroundings → KeystoneMessage → TaskAgent → Type 0
IsAnswered env msg s = (m : KeystoneMessage) × IsAnswerTo env msg s m

-- A task agent with a bus that is given a message other than a cancellation returns, and sends one
-- message: to the sender, under the id of the message, and one that a module lead counts as a report.
-- It is a failure exactly where the agent was not in the failed state and running the command threw.
pub process_message_answers :
    (env : Surroundings) (msg : KeystoneMessage) (s : TaskAgent)
    → msg.action_type ≢ cancel_task
    → s.has_bus ≡ true
    → IsAnswered env msg s
unfolding process_message create
process_message_answers env msg s h bus =
    let (sent, returned) = unless_failed-Sends env msg s bus s.failure_reason h in
    (
      answer env msg s,
      record {
        sent = sent;
        returned = returned;
        addressed = refl;
        numbered = refl;
        report =
            reply-IsReport env msg s (is_reported_failed env msg s.failure_reason)
              (answer_text env msg s.failure_reason);
        verdict =
            reply-is_failed env msg s (is_reported_failed env msg s.failure_reason)
              (answer_text env msg s.failure_reason);
      },
    )
