-- ===== src/LeadAgents/ComponentLead.antt =====
-- The component leads (src/agents/component_lead_agent.cpp and
-- include/agamemnon_agents/agents/component_lead_agent.hpp), without what is compiled in only with
-- ENABLE_GRPC.
use Prim.Native.Char.{Char, code}
use Prim.Native.String.{◌++◌ as append_text}
use agamemnon.Base.{
  ℕ, ◌+◌, String, Bool, ◌&&◌, ◌||◌, List, [], ◌∷◌, Option, none, some, leb, ◌==◌, get_elem?, str_eq,
  if◌then◌else◌, not,
}
use agamemnon.Base.Decimal.{to_string}
use agamemnon.Base.Int.{pos}
use agamemnon.Base.Exec.{Exec, throw}
use agamemnon.LeadAgents.Agent.{LeadAgent, Environment, Hooks, coordinate, track_and_send, receive}
use agamemnon.LeadAgents.Message.{KeystoneMessage}
use agamemnon.LeadAgents.Coordination.{transition_to}
use agamemnon.Store.ByBrief.{is_empty}

pub data ComponentLeadState : Type 0 where
  idle : ComponentLeadState
  planning : ComponentLeadState
  waiting_for_modules : ComponentLeadState
  aggregating : ComponentLeadState
  error : ComponentLeadState

abbrev pub state_to_string : ComponentLeadState → String
state_to_string idle = "IDLE"
state_to_string planning = "PLANNING"
state_to_string waiting_for_modules = "WAITING_FOR_MODULES"
state_to_string aggregating = "AGGREGATING"
state_to_string error = "ERROR"

unfoldable pub is_subordinate_result : KeystoneMessage → Bool
is_subordinate_result msg = str_eq msg.command "module_result"

abbrev is_digit : Char → Bool
is_digit c = leb b'0' (code c) && leb (code c) b'9'

-- The pattern \w
abbrev is_word : Char → Bool
is_word c =
    is_digit c
    || (leb b'A' (code c) && leb (code c) b'Z')
    || (leb b'a' (code c) && leb (code c) b'z')
    || code c == 95

-- How much of a section "word(numbers)" stands directly before the text: the word characters, or the
-- word, the numbers behind its parenthesis, and those of them that a new word would begin with (the
-- digits behind the last plus).
pub data Matched : Type 0 where
  word : String → Matched
  inside : String → String → String → Matched

abbrev snoc : String → Char → String
snoc s c = append_text s (String.◌∷◌ c String.[])

-- A word character makes the word longer, and a parenthesis opens the numbers of a word.
abbrev in_word : String → Char → Matched
in_word w c =
    if is_word c
    then word (snoc w c)
    else if code c == b'(' && not (is_empty w)
    then inside w "" ""
    else word ""

abbrev goal_for : String → String → String
goal_for name numbers = append_text "Calculate " (append_text name (append_text ": " numbers))

-- The next character: the section that it completes, if any, and what is matched behind it.
abbrev step : Matched → Char → Option String × Matched
step (word w) c = (none, in_word w c)
step (inside w numbers digits) c =
    if is_digit c
    then (none, inside w (snoc numbers c) (snoc digits c))
    else if code c == 43
    then (none, inside w (snoc numbers c) "")
    else if code c == 41 && not (is_empty numbers)
    then (some (goal_for w numbers), word "")
    else (none, in_word digits c)

abbrev emit : Option String → List String → List String
emit none goals = goals
emit (some goal) goals = goal ∷ goals

unfoldable pub sections_in : Matched → String → List String
sections_in matched String.[] = []
sections_in matched (String.◌∷◌ c text) =
    let (found, behind) = step matched c in emit found (sections_in behind text)

unfoldable pub decompose_goal : String → List String
unfolding sections_in
decompose_goal goal = sections_in (word "") goal

-- One lead for each section; both tests throw.
abbrev pub assign :
    Environment → ℕ → String → List String → Exec (LeadAgent ComponentLeadState) (Unit {0})
assign env i subtask available = elim (get_elem? available i) [
  | none ↦ throw
  | some lead ↦ track_and_send env lead subtask
]

-- The rest of the loop, from the index `i` on.
unfoldable pub delegate_from :
    Environment → ℕ → List String → Exec (LeadAgent ComponentLeadState) (Unit {0})
delegate_from env i [] s = (some tt, s)
delegate_from env i (subtask ∷ subtasks) s =
    let assigned = assign env i subtask s.available s in
    elim assigned.0 [
      | none ↦ (none, assigned.1)
      | some _ ↦ delegate_from env (i + 1) subtasks assigned.1
    ]

unfoldable pub process_subordinate_result :
    KeystoneMessage → LeadAgent ComponentLeadState → LeadAgent ComponentLeadState
process_subordinate_result = receive state_to_string (λ c. aggregating)

abbrev pub hooks : Hooks ComponentLeadState
hooks = record {
  idle_state = idle;
  planning_state = planning;
  waiting_state = waiting_for_modules;
  aggregating_state = aggregating;
  error_state = error;
  state_to_string = state_to_string;
  decompose_goal = decompose_goal;
  delegate_subtasks = λ env subtasks. delegate_from env 0 subtasks;
  is_subordinate_result = is_subordinate_result;
  process_subordinate_result = process_subordinate_result;
}

abbrev joined_behind : List String → String
joined_behind [] = ""
joined_behind (r ∷ rs) = append_text ", " (append_text r (joined_behind rs))

abbrev joined : List String → String
joined [] = ""
joined (r ∷ rs) = append_text r (joined_behind rs)

abbrev failure_report : ℕ → List String → String
failure_report n failures = append_text "ERROR: " (
    append_text (to_string (pos n)) (
      append_text " subordinate module(s) failed"
        (elim failures [ [] ↦ "" | f ∷ _ ↦ append_text ": " f ])))

-- synthesizeComponentResult
unfoldable pub synthesize :
    ComponentLeadState → LeadAgent ComponentLeadState → String × LeadAgent ComponentLeadState
synthesize error s =
    (failure_report s.coordination.failed_results s.coordination.failure_messages, s)
synthesize idle s = ("ERROR: Cannot synthesize in current state", s)
synthesize planning s = ("ERROR: Cannot synthesize in current state", s)
synthesize _ s = (
  append_text "Component result: " (joined s.coordination.results),
  coordinate (transition_to idle "IDLE") s,
)

unfoldable pub synthesize_component_result :
    LeadAgent ComponentLeadState → String × LeadAgent ComponentLeadState
unfolding synthesize
synthesize_component_result s = synthesize s.coordination.current_state s
