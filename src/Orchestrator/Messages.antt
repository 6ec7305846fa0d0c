-- ===== src/Orchestrator/Messages.antt =====
-- The handlers of the workers' messages: on_myrmidon_completion, on_myrmidon_started and
-- on_myrmidon_failed of src/orchestrator.cpp. Each catches every exception; what was written before
-- it stays.
use Prim.Native.String.{◌++◌ as append_text}
use agamemnon.Base.{String, Bool, [], ◌∷◌, Option, none, some, str_eq, if◌then◌else◌}
use agamemnon.Base.Exec.{Exec, pure, lift, ◌>>=◌, ◌>>◌}
use agamemnon.HmasTypes.{HmasTask, l0_chief_architect, layer_eq}
use agamemnon.Json.{JsonLibrary, find, value_string}
use agamemnon.Store.{GithubClient}
use agamemnon.Store.HmasTasks.{get_hmas_task}
use agamemnon.Store.Tasks.{mark_task_completed}
use agamemnon.Orchestrator.{
  World, logged, on_store, send, walk_to_completed, walk_to_started, walk_to_failed,
}
use agamemnon.Orchestrator.Delegation.{save_and_publish, delegate_unblocked_children}

abbrev is_empty : String → Bool
is_empty s = str_eq s ""

module _ (J : JsonLibrary) where
  open J use {Json, object, as_string}

  -- msg["data"]["task_id"] if both are there, else msg["task_id"], else the empty text.
  abbrev own_task_id : Option Json → Option String
  own_task_id none = some ""
  own_task_id (some id) = as_string id

  abbrev task_id_in : Option Json → Json → Option String
  task_id_in none msg = own_task_id (find J msg "task_id")
  task_id_in (some inside) msg = elim (find J inside "task_id") [
    | none ↦ own_task_id (find J msg "task_id")
    | some id ↦ as_string id
  ]

  unfoldable pub message_task_id : Json → Option String
  message_task_id msg = task_id_in (find J msg "data") msg

  -- j.value(k, json::object())
  abbrev or_object : Option Json → Json
  or_object none = object []
  or_object (some v) = v

module _ (J : JsonLibrary) (client : GithubClient J.Json) where
  open J use {Json, string, object, parse}
  open client use {Github}

  abbrev W : Type 0
  W = World Json Github

  abbrev log_brief_completed : String → HmasTask → Exec W (Unit {0})
  log_brief_completed task_id task =
      if layer_eq task.layer l0_chief_architect
      then send (
          logged "hi.logs.agamemnon.brief_completed" "info"
            (append_text "Brief completed: " task.brief_id)
            (object (("brief_id", string task.brief_id) ∷ ("root_task_id", string task_id) ∷ [])))
      else pure tt

  abbrev complete_found : String → String → Option HmasTask → Exec W (Unit {0})
  complete_found now task_id none = on_store (mark_task_completed J client now task_id)
  complete_found now task_id (some t) = do
    save_and_publish J client (walk_to_completed now t)
    delegate_unblocked_children J client now task_id
    log_brief_completed task_id (walk_to_completed now t)

  abbrev complete_named : String → String → Exec W (Unit {0})
  complete_named now task_id = do
    task_opt ← on_store (get_hmas_task J client task_id)
    complete_found now task_id task_opt

  -- The body of the try block.
  unfoldable pub completion : String → String → Exec W (Unit {0})
  unfolding message_task_id
  completion now payload = do
    msg ← lift (parse payload)
    task_id ← lift (message_task_id J msg)
    if is_empty task_id then pure tt else complete_named now task_id

  unfoldable pub on_myrmidon_completion : String → String → W → W
  unfolding completion
  on_myrmidon_completion now payload w = (completion now payload w).1

  -- The claim is the assignment.
  abbrev pub assign : String → String → HmasTask → HmasTask
  assign agent_id exec_host t = if is_empty agent_id then t else record t {
    assigned_lead_id =
        if is_empty exec_host then agent_id else append_text agent_id (append_text "@" exec_host);
  }

  abbrev start_found : String → String → Json → Option HmasTask → Exec W (Unit {0})
  start_found now task_id msg none = pure tt
  start_found now task_id msg (some t) = do
    agent_id ← lift (value_string J msg "agent_id" "")
    exec_host ← lift (value_string J msg "exec_host" "")
    save_and_publish J client (assign agent_id exec_host (walk_to_started now t))
    send (
        logged "hi.logs.agamemnon.task_started" "info" (append_text "Task started: " task_id) (
          object (
            ("task_id", string task_id)
            ∷ ("agent_id", string agent_id)
            ∷ ("exec_host", string exec_host)
            ∷ [])))

  abbrev start_named : String → String → Json → Exec W (Unit {0})
  start_named now task_id msg = do
    task_opt ← on_store (get_hmas_task J client task_id)
    start_found now task_id msg task_opt

  unfoldable pub started : String → String → Exec W (Unit {0})
  started now payload = do
    msg ← lift (parse payload)
    task_id ← lift (value_string J msg "task_id" "")
    if is_empty task_id then pure tt else start_named now task_id msg

  unfoldable pub on_myrmidon_started : String → String → W → W
  unfolding started
  on_myrmidon_started now payload w = (started now payload w).1

  abbrev fail_found : String → String → Json → Option HmasTask → Exec W (Unit {0})
  fail_found now task_id msg none = pure tt
  fail_found now task_id msg (some t) = do
    save_and_publish J client (walk_to_failed now t)
    send (
        logged "hi.logs.agamemnon.task_failed" "warn" (append_text "Task failed: " task_id)
          (object (("task_id", string task_id) ∷ ("error", or_object J (find J msg "error")) ∷ [])))

  abbrev fail_named : String → String → Json → Exec W (Unit {0})
  fail_named now task_id msg = do
    task_opt ← on_store (get_hmas_task J client task_id)
    fail_found now task_id msg task_opt

  unfoldable pub failure : String → String → Exec W (Unit {0})
  failure now payload = do
    msg ← lift (parse payload)
    task_id ← lift (value_string J msg "task_id" "")
    if is_empty task_id then pure tt else fail_named now task_id msg

  unfoldable pub on_myrmidon_failed : String → String → W → W
  unfolding failure
  on_myrmidon_failed now payload w = (failure now payload w).1
