-- ===== src/LeadAgents/Examples.antt =====
-- Concrete leads and messages.
use agamemnon.Base.{◌≡◌, refl, true, [], ◌∷◌, ◌++◌, none, some, arith}
use agamemnon.Base.Int.{pos}
use agamemnon.LeadAgents.{new_agent}
use agamemnon.LeadAgents.Agent.{LeadAgent, Environment}
use agamemnon.LeadAgents.Message.{KeystoneMessage, create, create_action, task_failed}
use agamemnon.LeadAgents.FanIn.{IsReport, failed, succeeded, deliver}
use agamemnon.LeadAgents.Delegation.{IsGoal}
use agamemnon.LeadAgents.Verdicts.{module_lead_verdict, component_lead_verdict}
use agamemnon.LeadAgents.Escalation.{module_lead_escalation, accepted}
use agamemnon.LeadAgents.ModuleLead
use agamemnon.LeadAgents.ComponentLead

abbrev env : Environment
env = record { message_id = λ n. "m"; now = pos 0 }

goals_lem :
    ComponentLead.decompose_goal "Core: Messaging(10+20) and x(1B(2)(3), C(+) D()"
    ≡ ("Calculate Messaging: 10+20" ∷ "Calculate 1B: 2" ∷ "Calculate C: +" ∷ [])
unfolding ComponentLead.decompose_goal
goals_lem = refl

tasks_lem :
    ModuleLead.decompose_goal "Calculate sum: 10 + 20+3" ≡ ("echo 10" ∷ "echo 20" ∷ "echo 3" ∷ [])
unfolding ModuleLead.decompose_goal
tasks_lem = refl

abbrev sum : KeystoneMessage
sum = create env.now "g" "component_1" "module_1" "Calculate: 10 + 20" none

abbrev sections : KeystoneMessage
sections = create env.now "g" "chief" "component_1" "Core: A(1) and B(2)" none

abbrev failure : KeystoneMessage
failure = create_action env.now "f" "task_1" "module_1" task_failed "default" (some "exit 1")

abbrev done : KeystoneMessage
done = create env.now "d" "task_2" "module_1" "response" (some "20")

abbrev module_done : KeystoneMessage
module_done = create env.now "d" "module_2" "component_1" "module_result" (some "Sum = 2")

sum-IsGoal : IsGoal ModuleLead.hooks sum
unfolding create ModuleLead.decompose_goal ModuleLead.is_subordinate_result
sum-IsGoal = record {
  ordinary = refl;
  not_result = refl;
  some_subtask = omega arith;
  few_subtasks = omega arith;
}

sections-IsGoal : IsGoal ComponentLead.hooks sections
unfolding create ComponentLead.decompose_goal ComponentLead.is_subordinate_result
sections-IsGoal = record {
  ordinary = refl;
  not_result = refl;
  some_subtask = omega arith;
  few_subtasks = omega arith;
}

failure-IsReport : {State : Type 0} {hooks : _} → IsReport {State = State} hooks failure
unfolding create_action
failure-IsReport = failed refl

done-IsReport : IsReport ModuleLead.hooks done
unfolding create ModuleLead.is_subordinate_result
done-IsReport = succeeded "20" refl refl refl

module_done-IsReport : IsReport ComponentLead.hooks module_done
unfolding create ComponentLead.is_subordinate_result
module_done-IsReport = succeeded "Sum = 2" refl refl refl

abbrev module_lead : LeadAgent ModuleLead.ModuleLeadState
module_lead = new_agent ModuleLead.hooks env "module_1" true ("task_1" ∷ "task_2" ∷ [])

abbrev component_lead : LeadAgent ComponentLead.ComponentLeadState
component_lead = new_agent ComponentLead.hooks env "component_1" true ("module_1" ∷ "module_2" ∷ [])

module_lead_verdict_example :
    (deliver ModuleLead.hooks env
      (sum ∷ failure ∷ done ∷ [])
      module_lead).coordination.current_state
    ≡ ModuleLead.error
unfolding create create_action ModuleLead.decompose_goal
module_lead_verdict_example =
    module_lead_verdict env sum (failure ∷ done ∷ []) module_lead sum-IsGoal
      (failure-IsReport, (done-IsReport, tt)) (omega arith)

component_lead_verdict_example :
    (deliver ComponentLead.hooks env
      (sections ∷ failure ∷ module_done ∷ [])
      component_lead).coordination.current_state
    ≡ ComponentLead.aggregating
unfolding create create_action ComponentLead.decompose_goal
component_lead_verdict_example =
    component_lead_verdict env sections (failure ∷ module_done ∷ []) component_lead sections-IsGoal
      (failure-IsReport, (module_done-IsReport, tt)) (omega arith)

module_lead_escalation_example :
    ((accepted env sum module_lead).coordination.requester_id ≡ "component_1")
    × ((deliver ModuleLead.hooks env (failure ∷ done ∷ []) (accepted env sum module_lead)).sent
        ≡ (accepted env sum module_lead).sent ++ [])
unfolding create create_action ModuleLead.decompose_goal
module_lead_escalation_example =
    module_lead_escalation env sum (failure ∷ done ∷ []) module_lead sum-IsGoal
      (failure-IsReport, (done-IsReport, tt)) refl refl refl
