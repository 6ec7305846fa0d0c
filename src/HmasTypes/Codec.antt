-- ===== src/HmasTypes/Codec.antt =====
-- The JSON form of tasks (src/hmas_types.cpp).
use agamemnon.Base.{String, List, [], ◌∷◌, map, Option, none, some}
use agamemnon.Base.Int.{pos}
use agamemnon.Json.{JsonLibrary, find, value_string, value_integer, ◌>>=◌}
use agamemnon.HmasTypes.{
  EscalationRecord, HmasTask, hmas_layer_to_string, task_state_to_string, hmas_layer_from_string,
  task_state_from_string,
}

module _ (J : JsonLibrary) where
  open J use {Json, string, integer, array, object, as_string, elements}

  abbrev pub strings : List String → Json
  strings xs = array (map string xs)

  unfoldable pub escalation_record_to_json : EscalationRecord → Json
  escalation_record_to_json rec = object (
      ("task_id", string rec.task_id)
      ∷ ("reason", string rec.reason)
      ∷ ("escalated_at", string rec.escalated_at)
      ∷ ("from_layer", string (hmas_layer_to_string rec.from_layer))
      ∷ [])

  unfoldable pub hmas_task_to_json : HmasTask → Json
  hmas_task_to_json task = object (
      ("id", string task.id)
      ∷ ("brief_id", string task.brief_id)
      ∷ ("parent_task_id", string task.parent_task_id)
      ∷ ("layer", string (hmas_layer_to_string task.layer))
      ∷ ("state", string (task_state_to_string task.state))
      ∷ ("subject", string task.subject)
      ∷ ("description", string task.description)
      ∷ ("repo", string task.repo)
      ∷ ("module", string task.module_name)
      ∷ ("issue", integer task.issue)
      ∷ ("assigned_lead_id", string task.assigned_lead_id)
      ∷ ("blocked_by", strings task.blocked_by)
      ∷ ("child_task_ids", strings task.child_task_ids)
      ∷ ("created_at", string task.created_at)
      ∷ ("completed_at", string task.completed_at)
      ∷ ("escalations", array (map escalation_record_to_json task.escalations))
      ∷ [])

  -- The loop over an array's elements; the first that throws ends it.
  unfoldable pub read_all {ℓ} : {A : Type ℓ} → (Json → Option A) → List Json → Option (List A)
  read_all read [] = some []
  read_all read (x ∷ xs) =
      let rest = read_all read xs in read x >>= λ a. rest >>= λ as'. some (a ∷ as')

  -- A member that is missing or no array leaves the list empty.
  unfoldable pub read_array {ℓ} : {A : Type ℓ} → (Json → Option A) → Option Json → Option (List A)
  unfolding read_all
  read_array read none = some []
  read_array read (some v) = elim (elements v) [ none ↦ some [] | some xs ↦ read_all read xs ]

  unfoldable pub escalation_record_from_json : Json → Option EscalationRecord
  escalation_record_from_json e = do
    task_id ← value_string J e "task_id" ""
    reason ← value_string J e "reason" ""
    escalated_at ← value_string J e "escalated_at" ""
    layer ← value_string J e "from_layer" "L0_ChiefArchitect"
    from_layer ← hmas_layer_from_string layer
    some (record {
      task_id = task_id;
      reason = reason;
      escalated_at = escalated_at;
      from_layer = from_layer;
    })

  unfoldable pub hmas_task_from_json : Json → Option HmasTask
  hmas_task_from_json j = do
    id ← value_string J j "id" ""
    brief_id ← value_string J j "brief_id" ""
    parent_task_id ← value_string J j "parent_task_id" ""
    layer_name ← value_string J j "layer" "L0_ChiefArchitect"
    layer ← hmas_layer_from_string layer_name
    state_name ← value_string J j "state" "Pending"
    state ← task_state_from_string state_name
    subject ← value_string J j "subject" ""
    description ← value_string J j "description" ""
    repo ← value_string J j "repo" ""
    module_name ← value_string J j "module" ""
    issue ← value_integer J j "issue" (pos 0)
    assigned_lead_id ← value_string J j "assigned_lead_id" ""
    created_at ← value_string J j "created_at" ""
    completed_at ← value_string J j "completed_at" ""
    blocked_by ← read_array as_string (find J j "blocked_by")
    child_task_ids ← read_array as_string (find J j "child_task_ids")
    escalations ← read_array escalation_record_from_json (find J j "escalations")
    some (record {
      id = id;
      brief_id = brief_id;
      parent_task_id = parent_task_id;
      layer = layer;
      state = state;
      subject = subject;
      description = description;
      repo = repo;
      module_name = module_name;
      issue = issue;
      assigned_lead_id = assigned_lead_id;
      blocked_by = blocked_by;
      child_task_ids = child_task_ids;
      escalations = escalations;
      created_at = created_at;
      completed_at = completed_at;
    })
