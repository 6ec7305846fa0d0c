-- ===== src/TaskAgent/Examples.antt =====
-- Commands that are accepted and refused, and a concrete task agent.
use agamemnon.Base.{
  ◌⊎◌, arith, ◌≡◌, refl, String, true, List, [], ◌∷◌, Option, none, some, inl, inr,
}
use agamemnon.Base.Int.{pos}
use agamemnon.LeadAgents.Message.{KeystoneMessage, create}
use agamemnon.TaskAgent.{TaskAgent, Surroundings, execute_bash}
use agamemnon.TaskAgent.Command.{validate_command, bash_command, trim}
use agamemnon.TaskAgent.Command.{none_among}
use agamemnon.PlanningBreakdown.ImplRef.{codes}
use agamemnon.TaskAgent.Safety.{IsArithmetic, separators, HasAllowedWord, accepted_characters}
use agamemnon.TaskAgent.Answers.{IsAnswered, process_message_answers}

abbrev is_accepted : List String → List (Option String)
is_accepted [] = []
is_accepted (c ∷ cs) = validate_command "" c ∷ is_accepted cs

accepted_lem :
    is_accepted (
      "echo $((10 * (5 + 2)))" ∷ "echo Hello, 'World'!" ∷ "sleep 10" ∷ "sleep 9.5" ∷ "  ls -l /tmp"
      ∷ "ls\nrm -r x" ∷ [])
    ≡ (none ∷ none ∷ none ∷ none ∷ none ∷ none ∷ [])
unfolding validate_command
accepted_lem = refl

abbrev too_long : Option String
too_long = some "sleep duration exceeds maximum allowed (10s)"

refused_lem :
    is_accepted ("" ∷ "sleep 10.01" ∷ "sleep 11" ∷ [])
    ≡ (some "Command cannot be empty" ∷ too_long ∷ too_long ∷ [])
unfolding validate_command
refused_lem = refl

abbrev env : Surroundings
env = record {
  message_id = λ n. "m";
  now = pos 0;
  allowed_names = "ls, cat";
  shell = λ line. some ("3 \n", pos 0);
  regex_replace = λ pattern replacement text. text;
}

abbrev job : KeystoneMessage
job = create env.now "t" "module_1" "task_1" "echo $((1 + 2))" none

job_lem : execute_bash env "echo $((1 + 2))" ≡ inr "3"
unfolding execute_bash validate_command bash_command trim
job_lem = refl

forbidden_lem :
    elim (execute_bash env "rm -r x") as (λ _. Option String) [ inl what ↦ none | inr r ↦ some r ]
    ≡ none
unfolding execute_bash validate_command bash_command trim
forbidden_lem = refl

abbrev agent : TaskAgent
agent = record {
  agent_id = "task_1";
  has_bus = true;
  sent = [];
  drawn = 0;
  cancelled_tasks = [];
  failure_reason = none;
  command_log = [];
}

process_message_answers_example : IsAnswered env job agent
unfolding create
process_message_answers_example = process_message_answers env job agent (λ h. grind arith) refl

accepted_characters_example :
    IsArithmetic "ls -l /tmp"
    ⊎ ((none_among separators (codes "ls -l /tmp") ≡ true) ⊎ HasAllowedWord "ls -l /tmp")
unfolding validate_command
accepted_characters_example = accepted_characters "" "ls -l /tmp" refl
