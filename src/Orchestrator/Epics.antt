-- ===== src/Orchestrator/Epics.antt =====
-- on_epic_registered of src/orchestrator.cpp.
use Prim.Native.String.{◌++◌ as append_text}
use agamemnon.Base.{String, Bool, ◌||◌, [], ◌∷◌, Option, none, some, str_eq, if◌then◌else◌}
use agamemnon.Base.Int.{ℤ, pos, is_zero}
use agamemnon.Base.Decimal.{to_string}
use agamemnon.Base.Dict.{lookup}
use agamemnon.Base.Exec.{Exec, pure, lift, ◌>>=◌, ◌>>◌}
use agamemnon.HmasTypes.{HmasTask, TaskBrief, l0_chief_architect, pending}
use agamemnon.HmasTypes.Codec.{hmas_task_to_json}
use agamemnon.Json.{JsonLibrary, value_string, value_integer}
use agamemnon.StateMachine.{submit as submit_event, try_transition}
use agamemnon.Store.{GithubClient}
use agamemnon.Store.HmasTasks.{create_hmas_task}
use agamemnon.Store.Briefs.{create_task_brief}
use agamemnon.Orchestrator.{World, logged, on_store, send, fresh_uuid, dispatch_task}
use agamemnon.Orchestrator.Delegation.{save_and_publish}

abbrev is_empty : String → Bool
is_empty s = str_eq s ""

module _ (J : JsonLibrary) (client : GithubClient J.Json) where
  open J use {Json, null, string, integer, array, object, set, parse, members}
  open client use {Github}

  abbrev W : Type 0
  W = World Json Github

  -- j.value(k, json::object()): a type error if `j` is no object.
  abbrev value_object : Json → String → Option Json
  value_object j k = elim (members j) [
    | none ↦ none
    | some m ↦ elim (lookup k m) [ none ↦ some (object []) | some v ↦ some v ]
  ]

  abbrev epic_brief : String → String → String → ℤ → TaskBrief
  epic_brief id repo key issue = record {
    id = id;
    title = append_text "[epic] " key;
    description =
        append_text "Decompose epic " (append_text repo (append_text "#" (to_string issue)));
    repos = [];
    modules = [];
    impls = [];
  }

  abbrev epic_root : String → String → TaskBrief → String → ℤ → HmasTask
  epic_root now id brief repo issue = record {
    id = id;
    brief_id = brief.id;
    parent_task_id = "";
    layer = l0_chief_architect;
    state = pending;
    subject = brief.title;
    description = brief.description;
    repo = repo;
    module_name = "";
    issue = issue;
    assigned_lead_id = "";
    blocked_by = [];
    child_task_ids = [];
    escalations = [];
    created_at = now;
    completed_at = "";
  }

  abbrev epic_dispatch : HmasTask → Json → Json → String → Json
  epic_dispatch root epic team brief_id =
      set
        (set (set (set (hmas_task_to_json J root) "task_id" (string root.id)) "team_id" team) "epic"
          epic)
        "brief_id" (string brief_id)

  abbrev register : String → Json → Json → String → String → ℤ → Exec W String
  register now msg epic repo key issue = do
    brief_id ← fresh_uuid
    let brief = epic_brief brief_id repo key issue
    on_store (create_task_brief J client brief)
    root_id ← fresh_uuid
    let made = epic_root now root_id brief repo issue
    on_store (create_hmas_task J client made)
    let root = (try_transition now made submit_event).0
    save_and_publish J client root
    team_id ← lift (value_string J msg "team_id" "mesh")
    dispatch_task J root (epic_dispatch root epic (string team_id) brief_id)
    send (
        logged "hi.logs.agamemnon.epic_registered" "info" (append_text "Epic registered: " key) (
          object (
            ("brief_id", string brief_id)
            ∷ ("root_task_id", string root.id)
            ∷ ("repo", string repo)
            ∷ ("issue", integer issue)
            ∷ [])))
    pure brief_id

  unfoldable pub epic_registered : String → String → Exec W String
  epic_registered now payload = do
    msg ← lift (parse payload)
    epic ← lift (value_object msg "epic")
    repo ← lift (value_string J epic "repo" "")
    key ← lift (value_string J epic "key" "")
    issue ← lift (value_integer J epic "issue" (pos 0))
    if is_empty repo || is_empty key || is_zero issue
        then pure ""
        else register now msg epic repo key issue

  abbrev or_empty : Option String → String
  or_empty none = ""
  or_empty (some s) = s

  -- The id of the placeholder brief, or the empty text; every exception is caught.
  unfoldable pub on_epic_registered : String → String → W → String × W
  unfolding epic_registered
  on_epic_registered now payload w = let (r, w') = epic_registered now payload w in (or_empty r, w')
