-- ===== src/LeadAgents/Escalation.antt =====
-- What the reports of its subordinates make a lead tell its requester.
use agamemnon.Base.{
  ℕ, ◌+◌, ◌<◌, ◌^◌, ◌≡◌, refl, ap, ◌∙◌, String, Bool, true, false, ◌||◌, List, [], ◌∷◌, ◌++◌, some,
  if◌then◌else◌, length, All, arith,
}
use mathlib.Core.List.{append-nil}
use agamemnon.Store.ByBrief.{is_empty}
use agamemnon.LeadAgents.{process_message, process_subordinate_failure}
use agamemnon.LeadAgents.Agent.{LeadAgent, Environment, Hooks, send_message, failure_text}
use agamemnon.LeadAgents.Message.{KeystoneMessage, create_action, task_failed}
use agamemnon.LeadAgents.Coordination.{record_failure, record_result, transition_to, is_complete}
use agamemnon.LeadAgents.FanIn.{
  IsReport, failed, succeeded, IsWaiting, IsChosenBy, deliver, is_failed, early_report,
  process_message-ordinary,
}
use agamemnon.LeadAgents.Delegation.{
  IsGoal, accept_goal-IsWaiting, accept_goal-requester, module_lead-IsCareful,
}
use agamemnon.LeadAgents.Verdicts.{fan_out, module_verdict, module_lead-IsChosenBy}
use agamemnon.LeadAgents.ModuleLead

module _ {State : Type 0} (hooks : Hooks State) (env : Environment) where
  -- What a lead shows, and what it would tell with.
  abbrev outside : LeadAgent State → List KeystoneMessage × ℕ × String × String × Bool
  outside s = (s.sent, s.drawn, s.agent_id, s.coordination.requester_id, s.has_bus)

  -- A result says nothing to anyone.
  abbrev pub IsQuiet : Type 0
  IsQuiet =
      (msg : KeystoneMessage) (s : LeadAgent State)
      → outside (hooks.process_subordinate_result msg s) ≡ outside s

  -- The message for the requester about a last report that is a failure.
  abbrev pub escalation : LeadAgent State → List KeystoneMessage → List KeystoneMessage
  escalation s [] = []
  escalation s (msg ∷ []) =
      if is_failed msg
      then create_action env.now (env.message_id s.drawn) s.agent_id s.coordination.requester_id
          task_failed msg.session_id (some (failure_text msg))
        ∷ []
      else []
  escalation s (msg ∷ m ∷ msgs) = escalation s (m ∷ msgs)

  module _ (quiet : IsQuiet) (n : ℕ) (small : n < 2 ^ 64) where
    early-quiet :
        (k : ℕ) (f : Bool) (msg : KeystoneMessage) (s : LeadAgent State)
        → k + 1 < n
        → IsWaiting hooks env n k f s.coordination
        → IsReport hooks msg
        → outside (process_message hooks env msg s).1 ≡ outside s
    unfolding process_message process_subordinate_failure record_failure is_complete send_message
    early-quiet k f msg s early w (failed h) = ground (arith, h, early, w.expects, w.received)
    early-quiet k f msg s early w (succeeded text h g p) =
        ap outside (process_message-ordinary hooks env msg s h g) ∙ quiet msg s

    last-escalates :
        (k : ℕ) (f : Bool) (msg : KeystoneMessage) (s : LeadAgent State)
        → k + 1 ≡ n
        → s.has_bus ≡ true
        → is_empty s.coordination.requester_id ≡ false
        → IsWaiting hooks env n k f s.coordination
        → IsReport hooks msg
        → (process_message hooks env msg s).1.sent ≡ s.sent ++ escalation s (msg ∷ [])
    unfolding process_message process_subordinate_failure record_failure is_complete send_message
        transition_to
    last-escalates k f msg s last bus known w (failed h) =
        ground (arith, h, last, bus, known, w.expects, w.received)
    last-escalates k f msg s last bus known w (succeeded text h g p) = ground (
      arith,
      h,
      append-nil s.sent,
      ap (λ s. s.sent) (process_message-ordinary hooks env msg s h g) ∙ ap (λ v. v.0) (quiet msg s),
    )

    escalation-outside :
        (s t : LeadAgent State) (msgs : List KeystoneMessage)
        → outside t ≡ outside s
        → escalation t msgs ≡ escalation s msgs
    escalation-outside s t [] h = refl
    escalation-outside s t (msg ∷ []) h = grind (arith, h)
    escalation-outside s t (msg ∷ m ∷ msgs) h = escalation-outside s t (m ∷ msgs) h

    module _ (choose : Bool → State) (chosen : IsChosenBy hooks env choose) where
      deliver-sent :
          (k : ℕ) (f : Bool) (msgs : List KeystoneMessage) (s : LeadAgent State)
          → k < n
          → k + length msgs ≡ n
          → s.has_bus ≡ true
          → is_empty s.coordination.requester_id ≡ false
          → IsWaiting hooks env n k f s.coordination
          → All (IsReport hooks) msgs
          → (deliver hooks env msgs s).sent ≡ s.sent ++ escalation s msgs
      unfolding deliver
      deliver-sent k f [] s before full bus known w all = absurd (omega (arith, before, full))
      deliver-sent k f (msg ∷ []) s before full bus known w (h, hs) =
          last-escalates k f msg s (omega (arith, full)) bus known w h
      deliver-sent k f (msg ∷ m ∷ msgs) s before full bus known w (h, hs) =
          let t = (process_message hooks env msg s).1 in
          let same = early-quiet k f msg s (omega (arith, full)) w h in
          deliver-sent (k + 1) (f || is_failed msg) (m ∷ msgs) t (omega (arith, full))
            (omega (arith, full)) (ap (λ v. v.4) same ∙ bus) (ap (λ v. is_empty v.3) same ∙ known)
            (early_report hooks env choose chosen n small k f msg s (omega (arith, full)) w h) hs
          ∙ ap (λ v. v.0 ++ escalation t (m ∷ msgs)) same
          ∙ ap (λ l. s.sent ++ l) (escalation-outside s t (m ∷ msgs) same)

module_lead-IsQuiet : (env : Environment) → IsQuiet ModuleLead.hooks env
unfolding ModuleLead.process_subordinate_result record_result transition_to
module_lead-IsQuiet env msg s = ground arith

-- A module lead that has handled a goal.
abbrev pub accepted :
    Environment
    → KeystoneMessage
    → LeadAgent ModuleLead.ModuleLeadState
    → LeadAgent ModuleLead.ModuleLeadState
accepted env goal s = (process_message ModuleLead.hooks env goal s).1

-- A module lead with a bus takes up a goal whose sender has a name, and as many reports arrive as
-- there are subtasks. The goal's sender is then the requester, and over the bus goes, after what
-- handing out the subtasks sent, one TASK_FAILED message for the requester with the text of the last
-- report, if the last report is a failure, and nothing otherwise, however many of the earlier ones
-- failed.
pub module_lead_escalation :
    (env : Environment) (goal : KeystoneMessage) (reports : List KeystoneMessage)
    (s : LeadAgent ModuleLead.ModuleLeadState)
    → IsGoal ModuleLead.hooks goal
    → All (IsReport ModuleLead.hooks) reports
    → length reports ≡ fan_out ModuleLead.hooks goal
    → s.has_bus ≡ true
    → is_empty goal.sender_id ≡ false
    → ((accepted env goal s).coordination.requester_id ≡ goal.sender_id)
      × ((deliver ModuleLead.hooks env reports (accepted env goal s)).sent
          ≡ (accepted env goal s).sent
            ++ escalation ModuleLead.hooks env (accepted env goal s) reports)
module_lead_escalation env goal reports s is_goal all full bus known =
    let (asked, on_bus) =
      accept_goal-requester ModuleLead.hooks env (module_lead-IsCareful env) goal s is_goal in
    (
      asked,
      deliver-sent ModuleLead.hooks env (module_lead-IsQuiet env) (fan_out ModuleLead.hooks goal)
          (omega (arith, is_goal.few_subtasks)) module_verdict (module_lead-IsChosenBy env) 0 false
          reports (accepted env goal s) is_goal.some_subtask (omega (arith, full)) (on_bus ∙ bus)
          (ap is_empty asked ∙ known)
          (accept_goal-IsWaiting ModuleLead.hooks env (module_lead-IsCareful env) goal s is_goal)
          all,
    )
