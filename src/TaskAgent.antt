-- ===== src/TaskAgent.antt =====
-- The task agents (src/agents/task_agent.cpp), with the failed state and the bus of agent_core.hpp and
-- agent_core.cpp and sanitizeErrorMessage of include/agamemnon_agents/core/error_sanitizer.hpp. The
-- shell and the regular expressions are arguments; metrics are left out.
pub mod Command
pub mod Answers
pub mod Characters
pub mod Safety
pub mod Examples
use Prim.Native.String.{◌++◌ as append_text}
use agamemnon.Base.{
  ℕ, ◌+◌, String, Bool, true, false, List, [], ◌∷◌, ◌++◌, Option, none, some, ◌⊎◌, inl, inr, ◌==◌,
  if◌then◌else◌,
}
use agamemnon.Base.Decimal.{to_string}
use agamemnon.Base.Exec.{Exec, pure, gets, modify, attempt, ◌>>=◌, ◌>>◌}
use agamemnon.Base.Int.{ℤ, pos, negsuc}
use agamemnon.LeadAgents.Message.{
  KeystoneMessage, Response, ActionType, cancel_task, task_failed, create, create_success,
  create_error,
}
use agamemnon.TaskAgent.Command.{validate_command, bash_command, trim}

-- `has_bus` is whether a message bus is set; `sent` is what went over it, oldest first; `drawn` is the
-- number of message ids that were drawn; a failed agent has a reason.
pub record TaskAgent : Type 0 where
  pub agent_id : String
  pub has_bus : Bool
  pub sent : List KeystoneMessage
  pub drawn : ℕ
  pub cancelled_tasks : List String
  pub failure_reason : Option String
  pub command_log : List (String × String)

-- What a run reads from outside: the ids that the generator draws, the clock, the names of the allowed
-- commands as the iteration over the hash set joins them by ", ", what a shell prints for a command
-- line and its status (`none` if popen fails), and std::regex_replace for a pattern, a replacement and
-- a text.
pub record Surroundings : Type 0 where
  pub message_id : ℕ → String
  pub now : ℤ
  pub allowed_names : String
  pub shell : String → Option (String × ℤ)
  pub regex_replace : String → String → String → String

-- sanitizeErrorMessage, outside production mode
unfoldable pub sanitize : Surroundings → String → String
sanitize env text = env.regex_replace "what\\(\\):\\s*" "" (
    env.regex_replace "0x[0-9a-fA-F]+" "[address]"
      (env.regex_replace "\\/[^\\s:]+\\.(cpp|hpp|h|cc):?\\d*" "[internal]" text))

-- What popen, the reading of the output and pclose come to.
abbrev finished : Option (String × ℤ) → String ⊎ String
finished none = inl "popen() failed"
finished (some (output, status)) =
    if elim status [ pos n ↦ n == 0 | negsuc _ ↦ false ]
    then inr (trim output)
    else inl (append_text "Command exited with status " (to_string status))

-- The text of the exception, or the result.
unfoldable pub execute_bash : Surroundings → String → String ⊎ String
unfolding bash_command validate_command trim
execute_bash env command = elim (validate_command env.allowed_names command) [
  | some text ↦ inl text
  | none ↦ finished (env.shell (bash_command command))
]

unfoldable pub send_message : KeystoneMessage → Exec TaskAgent (Unit {0})
send_message msg s =
    if s.has_bus then (some tt, record s { sent = s.sent ++ (msg ∷ []) }) else (none, s)

abbrev draw : Surroundings → Exec TaskAgent String
draw env s = (some (env.message_id s.drawn), record s { drawn = s.drawn + 1 })

-- The answer to a message: a "response" to its sender, under its id.
abbrev response_to : Surroundings → KeystoneMessage → String → Exec TaskAgent KeystoneMessage
response_to env msg payload = do
  id ← draw env
  agent ← gets (λ s. s.agent_id)
  pure (record (create env.now id agent msg.sender_id "response" (some payload)) {
    msg_id = msg.msg_id;
  })

unfoldable pub send_response_message :
    Surroundings → KeystoneMessage → String → Exec TaskAgent (Unit {0})
unfolding send_message
send_response_message env msg payload = do
  response ← response_to env msg payload
  send_message response

abbrev respond : Surroundings → KeystoneMessage → Response → Exec TaskAgent Response
respond env msg response = do send_response_message env msg response.result; pure response

abbrev cancellation : Surroundings → KeystoneMessage → Option String → Exec TaskAgent Response
cancellation env msg none =
    gets (λ s. create_error env.now msg s.agent_id "CANCEL_TASK message missing task_id")
cancellation env msg (some task_id) = do
  modify (λ s. record s { cancelled_tasks = task_id ∷ s.cancelled_tasks })
  gets (λ s.
      create_success env.now msg s.agent_id
        (append_text "Task " (append_text task_id " marked for cancellation")))

unfoldable pub handle_cancellation : Surroundings → KeystoneMessage → Exec TaskAgent Response
handle_cancellation env msg = cancellation env msg msg.task_id

-- The handler of the exceptions: the sender is told with TASK_FAILED.
abbrev caught : Surroundings → KeystoneMessage → String → Exec TaskAgent Response
caught env msg what = do
  failure ← response_to env msg (append_text "ERROR: " (sanitize env what))
  send_message (record failure { action_type = task_failed })
  gets (λ s. create_error env.now msg s.agent_id (sanitize env what))

-- Behind the command: a response that cannot be sent is an exception too.
abbrev answered :
    Surroundings → KeystoneMessage → String → Option (Unit {0}) → Exec TaskAgent Response
answered env msg result (some _) = gets (λ s. create_success env.now msg s.agent_id result)
answered env msg result none = do
  agent ← gets (λ s. s.agent_id)
  caught env msg (append_text "Message bus not set for agent: " agent)

abbrev pub ran : Surroundings → KeystoneMessage → String ⊎ String → Exec TaskAgent Response
ran env msg (inl what) = caught env msg what
ran env msg (inr result) = do
  modify (λ s. record s { command_log = s.command_log ++ ((msg.command, result) ∷ []) })
  sent ← attempt (send_response_message env msg result)
  answered env msg result sent

abbrev pub dispatch : Surroundings → KeystoneMessage → ActionType → Exec TaskAgent Response
dispatch env msg cancel_task = do response ← handle_cancellation env msg; respond env msg response
dispatch env msg _ = ran env msg (execute_bash env msg.command)

-- An agent in the failed state refuses every message.
abbrev pub unless_failed : Surroundings → KeystoneMessage → Option String → Exec TaskAgent Response
unless_failed env msg none = dispatch env msg msg.action_type
unless_failed env msg (some reason) = do
  response ←
      gets
        (λ s. create_error env.now msg s.agent_id (append_text "Agent is in failed state: " reason))
  respond env msg response

unfoldable pub process_message : Surroundings → KeystoneMessage → Exec TaskAgent Response
process_message env msg s = unless_failed env msg s.failure_reason s
