-- ===== src/Orchestrator/Delegation.antt =====
-- delegate, escalate and delegate_unblocked_children of src/orchestrator.cpp.
use Prim.Native.String.{◌++◌ as append_text}
use agamemnon.Base.{
  String, Bool, true, false, List, [], ◌∷◌, ◌++◌, Option, none, some, if◌then◌else◌,
}
use agamemnon.Base.Exec.{Exec, pure, for_each, ◌>>=◌, ◌>>◌}
use agamemnon.HmasTypes.{
  HmasLayer, HmasTask, l0_chief_architect, l1_component_lead, l2_module_lead, l3_task_agent,
  pending, completed, state_eq, hmas_layer_to_string, mesh_role_name, mesh_dispatch_subject,
}
use agamemnon.HmasTypes.Codec.{hmas_task_to_json}
use agamemnon.Json.{JsonLibrary}
use agamemnon.StateMachine.{escalate as escalate_event, try_transition}
use agamemnon.Store.{GithubClient}
use agamemnon.Store.HmasTasks.{get_hmas_task, update_hmas_task}
use agamemnon.Orchestrator.{
  World, published, logged, on_store, send, publish_task_state, dispatch_task, myrmidon_subject,
  walk_to_delegated,
}

-- The layer above, where the top is its own.
unfoldable pub parent_layer : HmasLayer → HmasLayer
parent_layer l0_chief_architect = l0_chief_architect
parent_layer l1_component_lead = l0_chief_architect
parent_layer l2_module_lead = l1_component_lead
parent_layer l3_task_agent = l2_module_lead

module _ (J : JsonLibrary) (client : GithubClient J.Json) where
  open J use {Json, string, object, set, dump}
  open client use {Github}

  abbrev W : Type 0
  W = World Json Github

  -- A task is stored, and its state published.
  unfoldable pub save_and_publish : HmasTask → Exec W (Unit {0})
  save_and_publish task = do on_store (update_hmas_task J client task); publish_task_state J task

  abbrev delegate_walked : HmasTask × Bool → Exec W Bool
  delegate_walked (task, false) = pure false
  delegate_walked (task, true) = do
    save_and_publish task
    dispatch_task J task (hmas_task_to_json J task)
    pure true

  abbrev delegate_found : String → Option HmasTask → Exec W Bool
  delegate_found now none = pure false
  delegate_found now (some task) = delegate_walked (walk_to_delegated now task)

  unfoldable pub delegate : String → String → Exec W Bool
  unfolding save_and_publish
  delegate now task_id = do
    task_opt ← on_store (get_hmas_task J client task_id)
    delegate_found now task_opt

  abbrev pub record_escalation : String → String → String → HmasTask → HmasTask
  record_escalation now task_id reason t = record t {
    escalations =
        t.escalations
        ++ (record { task_id = task_id; reason = reason; escalated_at = now; from_layer = t.layer }
            ∷ []);
  }

  -- What escalate does with the task once the machine has accepted the event.
  abbrev escalate_accepted : String → String → HmasTask → Exec W Bool
  escalate_accepted task_id reason task = do
    save_and_publish task
    let above = parent_layer task.layer
    let payload = dump (set (hmas_task_to_json J task) "escalation_reason" (string reason))
    send (published (myrmidon_subject above task.id) payload)
    send (published (mesh_dispatch_subject "pipeline" (mesh_role_name above) task.id) payload)
    send (
        logged "hi.logs.agamemnon.task_escalated" "warn" (append_text "Task escalated: " task_id) (
          object (
            ("task_id", string task_id)
            ∷ ("reason", string reason)
            ∷ ("from_layer", string (hmas_layer_to_string task.layer))
            ∷ [])))
    pure true

  abbrev escalate_stepped : String → String → String → HmasTask × Bool → Exec W Bool
  escalate_stepped now task_id reason (task, false) = pure false
  escalate_stepped now task_id reason (task, true) =
      escalate_accepted task_id reason (record_escalation now task_id reason task)

  abbrev escalate_found : String → String → String → Option HmasTask → Exec W Bool
  escalate_found now task_id reason none = pure false
  escalate_found now task_id reason (some task) =
      escalate_stepped now task_id reason (try_transition now task escalate_event)

  unfoldable pub escalate : String → String → String → Exec W Bool
  unfolding save_and_publish parent_layer
  escalate now task_id reason = do
    task_opt ← on_store (get_hmas_task J client task_id)
    escalate_found now task_id reason task_opt

  abbrev pub is_completed : Option HmasTask → Bool
  is_completed none = false
  is_completed (some t) = state_eq t.state completed

  -- Whether every blocker is completed; the first that is not ends the loop.
  unfoldable pub all_clear : List String → Exec W Bool
  all_clear [] w = (some true, w)
  all_clear (blocker_id ∷ rest) w =
      (do
        blocker_opt ← on_store (get_hmas_task J client blocker_id)
        (elim (is_completed blocker_opt) [ true ↦ all_clear rest | false ↦ pure false ]))
        w

  abbrev delegate_if : String → String → Bool → Exec W (Unit {0})
  delegate_if now id false = pure tt
  delegate_if now id true = do delegate now id; pure tt

  abbrev consider_found : String → Option HmasTask → Exec W (Unit {0})
  consider_found now none = pure tt
  consider_found now (some candidate) =
      if state_eq candidate.state pending
      then (do clear ← all_clear candidate.blocked_by; delegate_if now candidate.id clear)
      else pure tt

  -- One child of the completed task.
  unfoldable pub consider : String → String → Exec W (Unit {0})
  unfolding all_clear
  consider now child_id = do
    candidate_opt ← on_store (get_hmas_task J client child_id)
    consider_found now candidate_opt

  abbrev consider_children : String → Option HmasTask → Exec W (Unit {0})
  consider_children now none = pure tt
  consider_children now (some done) = for_each done.child_task_ids (consider now)

  unfoldable pub delegate_unblocked_children : String → String → Exec W (Unit {0})
  unfolding for_each consider
  delegate_unblocked_children now completed_task_id = do
    completed_opt ← on_store (get_hmas_task J client completed_task_id)
    consider_children now completed_opt
