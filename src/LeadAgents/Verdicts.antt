-- ===== src/LeadAgents/Verdicts.antt =====
-- The state in which a goal and the reports of its subordinates leave the module and the component
-- leads.
use agamemnon.Base.{
  ℕ, ◌≤◌, ◌≡◌, refl, Bool, true, false, ◌||◌, List, [], ◌∷◌, if◌then◌else◌, length, ltb, All, arith,
}
use agamemnon.LeadAgents.{process_message}
use agamemnon.LeadAgents.Agent.{LeadAgent, Environment, Hooks}
use agamemnon.LeadAgents.Message.{KeystoneMessage}
use agamemnon.LeadAgents.FanIn.{IsReport, IsChosenBy, deliver, settle, deliver_reports, is_failed}
use agamemnon.LeadAgents.Delegation.{
  IsGoal, IsCareful, accept_goal-IsWaiting, module_lead-IsCareful, component_lead-IsCareful,
}
use agamemnon.LeadAgents.ModuleLead
use agamemnon.LeadAgents.ComponentLead

abbrev pub any_failed : List KeystoneMessage → Bool
any_failed [] = false
any_failed (msg ∷ msgs) = is_failed msg || any_failed msgs

abbrev pub last_failed : List KeystoneMessage → Bool
last_failed [] = false
last_failed (msg ∷ []) = is_failed msg
last_failed (msg ∷ m ∷ msgs) = last_failed (m ∷ msgs)

-- The number of subtasks of a goal.
abbrev pub fan_out : {State : Type 0} → Hooks State → KeystoneMessage → ℕ
fan_out hooks goal = length (hooks.decompose_goal goal.command)

module _ {State : Type 0} (hooks : Hooks State) (env : Environment) where
  deliver_goal :
      (choose : Bool → State)
      → IsChosenBy hooks env choose
      → IsCareful hooks env
      → (goal : KeystoneMessage) (reports : List KeystoneMessage) (s : LeadAgent State)
      → IsGoal hooks goal
      → All (IsReport hooks) reports
      → length reports ≤ fan_out hooks goal
      → (deliver hooks env (goal ∷ reports) s).coordination.current_state ≡ (
          if ltb (length reports) (fan_out hooks goal)
          then hooks.waiting_state
          else settle hooks env choose false reports)
  unfolding deliver
  deliver_goal choose chosen careful goal reports s is_goal all enough = ground (
    arith,
    deliver_reports hooks env choose chosen (fan_out hooks goal)
        (omega (arith, is_goal.few_subtasks)) 0 false reports (process_message hooks env goal s).1
        is_goal.some_subtask (omega (arith, enough))
        (accept_goal-IsWaiting hooks env careful goal s is_goal) all,
  )

  settle-choice :
      (choose : Bool → State) (f : Bool) (msg : KeystoneMessage) (msgs : List KeystoneMessage)
      → choose true ≡ hooks.error_state
      → settle hooks env choose f (msg ∷ msgs)
        ≡ (if f || any_failed (msg ∷ msgs) then hooks.error_state else choose false)
  unfolding settle
  settle-choice choose f msg [] h = ground (arith, h)
  settle-choice choose f msg (m ∷ msgs) h =
      ground (arith, settle-choice choose (f || is_failed msg) m msgs h)

  settle-constant :
      (state : State) (f : Bool) (msg : KeystoneMessage) (msgs : List KeystoneMessage)
      → settle hooks env (λ _. state) f (msg ∷ msgs)
        ≡ (if last_failed (msg ∷ msgs) then hooks.error_state else state)
  unfolding settle
  settle-constant state f msg [] = refl
  settle-constant state f msg (m ∷ msgs) = settle-constant state (f || is_failed msg) m msgs

abbrev pub module_verdict : Bool → ModuleLead.ModuleLeadState
module_verdict failed = if failed then ModuleLead.error else ModuleLead.synthesizing

pub module_lead-IsChosenBy : (env : Environment) → IsChosenBy ModuleLead.hooks env module_verdict
unfolding ModuleLead.process_subordinate_result
module_lead-IsChosenBy env msg s text h = ground (arith, h)

component_lead-IsChosenBy :
    (env : Environment) → IsChosenBy ComponentLead.hooks env (λ _. ComponentLead.aggregating)
unfolding ComponentLead.process_subordinate_result
component_lead-IsChosenBy env msg s text h = ground (arith, h)

-- A module lead that takes up a goal waits until as many reports have arrived as the goal has digit
-- runs, whether handing out the subtasks succeeded or threw; then it is in ERROR if any report is a
-- failure, and synthesizes otherwise, whatever the order of the reports.
pub module_lead_verdict :
    (env : Environment) (goal : KeystoneMessage) (reports : List KeystoneMessage)
    (s : LeadAgent ModuleLead.ModuleLeadState)
    → IsGoal ModuleLead.hooks goal
    → All (IsReport ModuleLead.hooks) reports
    → length reports ≤ fan_out ModuleLead.hooks goal
    → (deliver ModuleLead.hooks env (goal ∷ reports) s).coordination.current_state ≡ (
        if ltb (length reports) (fan_out ModuleLead.hooks goal)
        then ModuleLead.waiting_for_tasks
        else if any_failed reports
        then ModuleLead.error
        else ModuleLead.synthesizing)
module_lead_verdict env goal [] s is_goal all enough = ground (
  arith,
  is_goal.some_subtask,
  deliver_goal ModuleLead.hooks env module_verdict (module_lead-IsChosenBy env)
      (module_lead-IsCareful env) goal [] s is_goal all enough,
)
module_lead_verdict env goal (m ∷ ms) s is_goal all enough = ground (
  arith,
  deliver_goal ModuleLead.hooks env module_verdict (module_lead-IsChosenBy env)
      (module_lead-IsCareful env) goal (m ∷ ms) s is_goal all enough,
  settle-choice ModuleLead.hooks env module_verdict false m ms refl,
)

-- A component lead that takes up a goal waits until as many reports have arrived as the goal has
-- sections; then it is in ERROR if the last report is a failure, and aggregates otherwise, although
-- earlier reports may be failures.
pub component_lead_verdict :
    (env : Environment) (goal : KeystoneMessage) (reports : List KeystoneMessage)
    (s : LeadAgent ComponentLead.ComponentLeadState)
    → IsGoal ComponentLead.hooks goal
    → All (IsReport ComponentLead.hooks) reports
    → length reports ≤ fan_out ComponentLead.hooks goal
    → (deliver ComponentLead.hooks env (goal ∷ reports) s).coordination.current_state ≡ (
        if ltb (length reports) (fan_out ComponentLead.hooks goal)
        then ComponentLead.waiting_for_modules
        else if last_failed reports
        then ComponentLead.error
        else ComponentLead.aggregating)
component_lead_verdict env goal [] s is_goal all enough = ground (
  arith,
  is_goal.some_subtask,
  deliver_goal ComponentLead.hooks env (λ _. ComponentLead.aggregating)
      (component_lead-IsChosenBy env) (component_lead-IsCareful env) goal [] s is_goal all enough,
)
component_lead_verdict env goal (m ∷ ms) s is_goal all enough = ground (
  arith,
  deliver_goal ComponentLead.hooks env (λ _. ComponentLead.aggregating)
      (component_lead-IsChosenBy env) (component_lead-IsCareful env) goal (m ∷ ms) s is_goal all
      enough,
  settle-constant ComponentLead.hooks env ComponentLead.aggregating false m ms,
)
