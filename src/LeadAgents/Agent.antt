-- ===== src/LeadAgents/Agent.antt =====
-- The state of a lead agent, what its methods do with the bus, the generator of ids and the
-- coordination, and the virtual methods of include/agamemnon_agents/agents/lead_agent_base.hpp.
use agamemnon.Base.{ℕ, ◌+◌, String, Bool, List, [], ◌∷◌, ◌++◌, Option, none, some, if◌then◌else◌}
use agamemnon.Base.Exec.{Exec, gets, modify, ◌>>=◌, ◌>>◌}
use agamemnon.Base.Int.{ℤ}
use agamemnon.LeadAgents.Message.{KeystoneMessage, create}
use agamemnon.LeadAgents.Coordination.{
  CoordinationState, transition_to, record_result, track_pending_subordinate,
}

-- `has_bus` is whether a message bus is set; `sent` is what went over it, oldest first; `drawn` is the
-- number of message ids that were drawn.
pub record LeadAgent (State : Type 0) : Type 0 where
  pub agent_id : String
  pub coordination : CoordinationState State
  pub available : List String
  pub cancelled_tasks : List String
  pub has_bus : Bool
  pub sent : List KeystoneMessage
  pub drawn : ℕ

-- What a run reads from outside: the ids that the generator draws, and the clock.
pub record Environment : Type 0 where
  pub message_id : ℕ → String
  pub now : ℤ

module _ {State : Type 0} where
  -- sendMessage
  unfoldable pub send_message : KeystoneMessage → Exec (LeadAgent State) (Unit {0})
  send_message msg s =
      if s.has_bus then (some tt, record s { sent = s.sent ++ (msg ∷ []) }) else (none, s)

  -- The id of the next message that is created.
  abbrev pub draw : Environment → Exec (LeadAgent State) String
  draw env s = (some (env.message_id s.drawn), record s { drawn = s.drawn + 1 })

  abbrev pub coordinate :
      (CoordinationState State → CoordinationState State) → LeadAgent State → LeadAgent State
  coordinate change s = record s { coordination = change s.coordination }

module _ {State : Type 0} where
  -- One round of the loops that delegate: the message for the subordinate is tracked and sent.
  abbrev pub track_and_send : Environment → String → String → Exec (LeadAgent State) (Unit {0})
  track_and_send env subordinate subtask = do
    id ← draw env
    agent ← gets (λ s. s.agent_id)
    modify (coordinate (track_pending_subordinate id subordinate))
    send_message (create env.now id agent subordinate subtask none)

  -- A result with no payload is skipped; at the last one the lead takes the state that `choose` reads
  -- off its coordination.
  abbrev pub receive_text :
      (State → String)
      → (CoordinationState State → State)
      → Option String
      → LeadAgent State
      → LeadAgent State
  receive_text name choose none s = s
  receive_text name choose (some text) s =
      let (c, all_complete) = record_result text s.coordination in
      let state = choose c in
      record s { coordination = if all_complete then transition_to state (name state) c else c }

  abbrev pub receive :
      (State → String)
      → (CoordinationState State → State)
      → KeystoneMessage
      → LeadAgent State
      → LeadAgent State
  receive name choose msg = receive_text name choose msg.payload

abbrev pub failure_text : KeystoneMessage → String
failure_text msg = elim msg.payload [ none ↦ "subordinate task failed" | some text ↦ text ]

-- std::numeric_limits<int>::max()
abbrev pub int_max : ℕ
int_max = 2147483647

-- The states that the subclass gives to the base, and its overrides.
pub record Hooks (State : Type 0) : Type 0 where
  pub idle_state : State
  pub planning_state : State
  pub waiting_state : State
  pub aggregating_state : State
  pub error_state : State
  pub state_to_string : State → String
  pub decompose_goal : String → List String
  pub delegate_subtasks : Environment → List String → Exec (LeadAgent State) (Unit {0})
  pub is_subordinate_result : KeystoneMessage → Bool
  pub process_subordinate_result : KeystoneMessage → LeadAgent State → LeadAgent State
