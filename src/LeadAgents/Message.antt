-- ===== src/LeadAgents/Message.antt =====
-- include/agamemnon_agents/core/message.hpp and src/core/message.cpp: the messages between agents
-- and the responses to them. The id that a constructor draws and the clock are arguments.
use agamemnon.Base.{String, [], Option, none}
use agamemnon.Base.Dict.{Dict}
use agamemnon.Base.Int.{ℤ}

pub data Priority : Type 0 where
  high : Priority
  normal : Priority
  low : Priority

pub data ActionType : Type 0 where
  decompose : ActionType
  execute : ActionType
  return_result : ActionType
  shutdown : ActionType
  cancel_task : ActionType
  task_failed : ActionType

pub data ContentType : Type 0 where
  text_plain : ContentType
  binary_cista : ContentType

unfoldable pub action_type_to_string : ActionType → String
action_type_to_string decompose = "DECOMPOSE"
action_type_to_string execute = "EXECUTE"
action_type_to_string return_result = "RETURN_RESULT"
action_type_to_string shutdown = "SHUTDOWN"
action_type_to_string cancel_task = "CANCEL_TASK"
action_type_to_string task_failed = "TASK_FAILED"

pub record KeystoneMessage : Type 0 where
  pub msg_id : String
  pub sender_id : String
  pub receiver_id : String
  pub action_type : ActionType
  pub content_type : ContentType
  pub session_id : String
  pub metadata : Dict String
  pub priority : Priority
  pub deadline : Option ℤ
  pub task_id : Option String
  pub correlation_id : Option String
  pub command : String
  pub payload : Option String
  pub timestamp : ℤ

pub data Status : Type 0 where
  success : Status
  error : Status

pub record Response : Type 0 where
  pub msg_id : String
  pub sender_id : String
  pub receiver_id : String
  pub status : Status
  pub result : String
  pub timestamp : ℤ

-- create(sender, receiver, cmd, data)
unfoldable pub create : ℤ → String → String → String → String → Option String → KeystoneMessage
create now id sender receiver cmd data' = record {
  msg_id = id;
  sender_id = sender;
  receiver_id = receiver;
  action_type = execute;
  content_type = text_plain;
  session_id = "default";
  metadata = [];
  priority = normal;
  deadline = none;
  task_id = none;
  correlation_id = none;
  command = cmd;
  payload = data';
  timestamp = now;
}

-- create(sender, receiver, action, session, data), with the default content type
unfoldable pub create_action :
    ℤ → String → String → String → ActionType → String → Option String → KeystoneMessage
unfolding action_type_to_string
create_action now id sender receiver action session data' = record {
  msg_id = id;
  sender_id = sender;
  receiver_id = receiver;
  action_type = action;
  content_type = text_plain;
  session_id = session;
  metadata = [];
  priority = normal;
  deadline = none;
  task_id = none;
  correlation_id = none;
  command = action_type_to_string action;
  payload = data';
  timestamp = now;
}

abbrev respond : ℤ → Status → KeystoneMessage → String → String → Response
respond now status original sender result = record {
  msg_id = original.msg_id;
  sender_id = sender;
  receiver_id = original.sender_id;
  status = status;
  result = result;
  timestamp = now;
}

unfoldable pub create_success : ℤ → KeystoneMessage → String → String → Response
create_success now original sender result = respond now success original sender result

unfoldable pub create_error : ℤ → KeystoneMessage → String → String → Response
create_error now original sender text = respond now error original sender text
