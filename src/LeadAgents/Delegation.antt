-- ===== src/LeadAgents/Delegation.antt =====
-- What accepting a goal leaves in the coordination of a lead, whether handing out the subtasks
-- succeeds or throws.
use agamemnon.Base.{
  ℕ, ◌+◌, ◌≤◌, ◌<◌, ◌≡◌, refl, ◌∙◌, String, true, false, List, [], ◌∷◌, Option, none, some, length,
  get_elem?, ◌%◌, arith,
}
use agamemnon.LeadAgents.{process_message, enter, delegate_if}
use agamemnon.LeadAgents.Agent.{
  LeadAgent, Environment, Hooks, send_message, int_max, track_and_send, coordinate,
}
use agamemnon.Base.Exec.{Exec, throw}
use agamemnon.LeadAgents.Message.{KeystoneMessage}
use agamemnon.LeadAgents.Coordination.{
  transition_to, initialize_coordination, track_pending_subordinate, has_failures,
}
use agamemnon.LeadAgents.FanIn.{IsWaiting, is_ordinary}
use agamemnon.LeadAgents.ModuleLead
use agamemnon.LeadAgents.ComponentLead

pub record IsGoal {State : Type 0} (hooks : Hooks State) (msg : KeystoneMessage) : Type 0 where
  pub ordinary : is_ordinary msg.action_type ≡ true
  pub not_result : hooks.is_subordinate_result msg ≡ false
  pub some_subtask : 0 < length (hooks.decompose_goal msg.command)
  pub few_subtasks : length (hooks.decompose_goal msg.command) ≤ int_max

module _ {State : Type 0} where
  -- What a round of delegation leaves alone.
  pub record IsLike (s t : LeadAgent State) : Type 0 where
    pub state : t.coordination.current_state ≡ s.coordination.current_state
    pub expected : t.coordination.expected_results ≡ s.coordination.expected_results
    pub received : t.coordination.received_results ≡ s.coordination.received_results
    pub failures : t.coordination.failed_results ≡ s.coordination.failed_results
    pub requester : t.coordination.requester_id ≡ s.coordination.requester_id
    pub bus : t.has_bus ≡ s.has_bus

  IsLike-refl : (s : LeadAgent State) → IsLike s s
  IsLike-refl s = record {
    state = refl;
    expected = refl;
    received = refl;
    failures = refl;
    requester = refl;
    bus = refl;
  }

  pub track_and_send-IsLike :
      (env : Environment) (to' subtask : String) (s : LeadAgent State)
      → IsLike s (track_and_send env to' subtask s).1
  unfolding send_message track_pending_subordinate
  track_and_send-IsLike env to' subtask s = record {
    state = ground arith;
    expected = ground arith;
    received = ground arith;
    failures = ground arith;
    requester = ground arith;
    bus = ground arith;
  }

  pub IsLike-trans : {s t u : LeadAgent State} → IsLike s t → IsLike t u → IsLike s u
  IsLike-trans a b = record {
    state = b.state ∙ a.state;
    expected = b.expected ∙ a.expected;
    received = b.received ∙ a.received;
    failures = b.failures ∙ a.failures;
    requester = b.requester ∙ a.requester;
    bus = b.bus ∙ a.bus;
  }

  sent-IsLike :
      (env : Environment) (o : Option String) (subtask : String) (s : LeadAgent State)
      → IsLike s
          ((elim o as (λ _. Exec (LeadAgent State) (Unit {0})) [
            | none ↦ throw
            | some agent ↦ track_and_send env agent subtask
          ])
            s).1
  sent-IsLike env none subtask s = IsLike-refl s
  sent-IsLike env (some agent) subtask s = track_and_send-IsLike env agent subtask s

  then-IsLike :
      (o : Option (Unit {0})) (f : Exec (LeadAgent State) (Unit {0})) (s t : LeadAgent State)
      → IsLike s t
      → IsLike t (f t).1
      → IsLike s
          (elim o as (λ _. Option (Unit {0}) × LeadAgent State) [
            | none ↦ (none, t)
            | some _ ↦ f t
          ]).1
  then-IsLike none f s t a b = a
  then-IsLike (some _) f s t a b = IsLike-trans a b

module _ {State : Type 0} (hooks : Hooks State) (env : Environment) where
  -- The state in which the subtasks are handed out.
  abbrev started : List String → LeadAgent State → LeadAgent State
  started subtasks s =
      enter hooks env hooks.waiting_state (coordinate (initialize_coordination (length subtasks)) s)

  abbrev pub IsCareful : Type 0
  IsCareful =
      (subtasks : List String) (s : LeadAgent State)
      → IsLike s (hooks.delegate_subtasks env subtasks s).1

  abbrev planned : KeystoneMessage → LeadAgent State → LeadAgent State
  planned msg s =
      coordinate (λ c. record c { current_goal = msg.command; requester_id = msg.sender_id })
        (enter hooks env hooks.planning_state s)

  delegate-IsWaiting :
      IsCareful
      → (msg : KeystoneMessage) (subtasks : List String) (s : LeadAgent State) → 0 < length subtasks
      → length subtasks ≤ int_max
      → IsWaiting hooks env
          (length subtasks)
          0
          false
          (delegate_if hooks env msg subtasks s).1.coordination
  unfolding transition_to initialize_coordination has_failures
  delegate-IsWaiting careful msg [] s some_subtask few = absurd (omega arith)
  delegate-IsWaiting careful msg (subtask ∷ subtasks) s some_subtask few =
      let kept = careful (subtask ∷ subtasks) (started (subtask ∷ subtasks) s) in
      record {
        waits = ground (arith, few, kept.state);
        expects = ground (arith, few, kept.expected);
        received = ground (arith, few, kept.received);
        few_failed = ground (arith, few, kept.failures);
        failures = ground (arith, few, kept.failures);
      }

  delegate-requester :
      IsCareful
      → (msg : KeystoneMessage) (subtasks : List String) (s : LeadAgent State)
      → (((delegate_if hooks env msg subtasks s).1.coordination.requester_id
            ≡ s.coordination.requester_id)
          × ((delegate_if hooks env msg subtasks s).1.has_bus ≡ s.has_bus))
  unfolding transition_to initialize_coordination
  delegate-requester careful msg [] s = (refl, refl)
  delegate-requester careful msg (subtask ∷ subtasks) s =
      let kept = careful (subtask ∷ subtasks) (started (subtask ∷ subtasks) s) in
      (ground (arith, kept.requester), ground (arith, kept.bus))

  pub accept_goal-requester :
      IsCareful
      → (msg : KeystoneMessage) (s : LeadAgent State) → IsGoal hooks msg
      → ((process_message hooks env msg s).1.coordination.requester_id ≡ msg.sender_id)
        × ((process_message hooks env msg s).1.has_bus ≡ s.has_bus)
  unfolding process_message transition_to
  accept_goal-requester careful msg s goal =
      let kept =
        delegate-requester careful msg (hooks.decompose_goal msg.command) (planned msg s) in
      (
        ground (arith, goal.ordinary, goal.not_result, kept.0),
        ground (arith, goal.ordinary, goal.not_result, kept.1),
      )

  pub accept_goal-IsWaiting :
      IsCareful
      → (msg : KeystoneMessage) (s : LeadAgent State) → IsGoal hooks msg
      → IsWaiting hooks env
          (length (hooks.decompose_goal msg.command))
          0
          false
          (process_message hooks env msg s).1.coordination
  unfolding process_message transition_to initialize_coordination has_failures
  accept_goal-IsWaiting careful msg s goal = ground (
    arith,
    goal.ordinary,
    goal.not_result,
    delegate-IsWaiting careful msg (hooks.decompose_goal msg.command) (planned msg s)
        goal.some_subtask goal.few_subtasks,
  )

module_assign-IsLike :
    (env : Environment) (i : ℕ) (subtask : String) (available : List String) (s : LeadAgent _)
    → IsLike s (ModuleLead.assign env i subtask available s).1
module_assign-IsLike env i subtask [] s = IsLike-refl s
module_assign-IsLike env i subtask (a ∷ as') s =
    sent-IsLike env (get_elem? (a ∷ as') (i % length (a ∷ as'))) subtask s

module_delegate-IsLike :
    (env : Environment) (i : ℕ) (subtasks : List String) (s : LeadAgent _)
    → IsLike s (ModuleLead.delegate_from env i subtasks s).1
unfolding ModuleLead.delegate_from
module_delegate-IsLike env i [] s = IsLike-refl s
module_delegate-IsLike env i (t ∷ ts) s =
    let assigned = ModuleLead.assign env i t s.available s in
    then-IsLike assigned.0 (ModuleLead.delegate_from env (i + 1) ts) s assigned.1
      (module_assign-IsLike env i t s.available s)
      (module_delegate-IsLike env (i + 1) ts assigned.1)

component_delegate-IsLike :
    (env : Environment) (i : ℕ) (subtasks : List String) (s : LeadAgent _)
    → IsLike s (ComponentLead.delegate_from env i subtasks s).1
unfolding ComponentLead.delegate_from
component_delegate-IsLike env i [] s = IsLike-refl s
component_delegate-IsLike env i (t ∷ ts) s =
    let assigned = ComponentLead.assign env i t s.available s in
    then-IsLike assigned.0 (ComponentLead.delegate_from env (i + 1) ts) s assigned.1
      (sent-IsLike env (get_elem? s.available i) t s)
      (component_delegate-IsLike env (i + 1) ts assigned.1)

pub module_lead-IsCareful : (env : Environment) → IsCareful ModuleLead.hooks env
module_lead-IsCareful env subtasks s = module_delegate-IsLike env 0 subtasks s

pub component_lead-IsCareful : (env : Environment) → IsCareful ComponentLead.hooks env
component_lead-IsCareful env subtasks s = component_delegate-IsLike env 0 subtasks s
