-- ===== src/Orchestrator/Splitting.antt =====
-- split_task of src/orchestrator.cpp.
use Prim.Native.String.{◌++◌ as append_text}
use agamemnon.Base.{
  String, Bool, List, [], ◌∷◌, ◌++◌, map, Option, none, some, str_eq, if◌then◌else◌,
}
use agamemnon.Base.Int.{ℤ, pos}
use agamemnon.Base.Exec.{Exec, pure, lift, ◌>>=◌, ◌>>◌}
use agamemnon.HmasTypes.{HmasTask, pending}
use agamemnon.Json.{JsonLibrary, find, value_string, value_integer}
use agamemnon.Store.{GithubClient}
use agamemnon.Store.HmasTasks.{create_hmas_task, get_hmas_task, update_hmas_task}
use agamemnon.Orchestrator.{World, logged, on_store, send, fresh_uuid}

abbrev is_empty : String → Bool
is_empty s = str_eq s ""

-- The original with the children so far, and the ids that were made, oldest first.
pub record Progress : Type 0 where
  pub original : HmasTask
  pub created : List String
  pub prev_id : String

module _ (J : JsonLibrary) (client : GithubClient J.Json) where
  open J use {Json, string, array, object, members, as_string, elements}
  open client use {Github}

  abbrev W : Type 0
  W = World Json Github

  abbrev error : String → Json
  error what = object (("error", string what) ∷ [])

  -- The texts of an array; its other elements are passed over.
  texts : List Json → List String
  texts [] = []
  texts (j ∷ js) = let rest = texts js in elim (as_string j) [ none ↦ rest | some s ↦ s ∷ rest ]

  abbrev texts_in : Option (List Json) → List String
  texts_in none = []
  texts_in (some js) = texts js

  abbrev given_blockers : Option Json → List String
  given_blockers none = []
  given_blockers (some j) = texts_in (elements j)

  -- The description, followed by the base branch if one is given.
  abbrev with_branch : String → String → String
  with_branch description base_branch =
      if is_empty base_branch
      then description
      else append_text description (
          append_text (if is_empty description then "" else "\n")
            (append_text "Base branch: " base_branch))

  -- The blockers: the original, the slice before, and those that are given.
  abbrev slice : String → String → Progress → String → String → ℤ → List String → HmasTask
  slice ts id p title description issue given = record {
    id = id;
    brief_id = p.original.brief_id;
    parent_task_id = p.original.parent_task_id;
    layer = p.original.layer;
    state = pending;
    subject = title;
    description = description;
    repo = p.original.repo;
    module_name = p.original.module_name;
    issue = issue;
    assigned_lead_id = "";
    blocked_by = p.original.id ∷ ((if is_empty p.prev_id then [] else p.prev_id ∷ []) ++ given);
    child_task_ids = [];
    escalations = [];
    created_at = ts;
    completed_at = "";
  }

  abbrev add_slice : String → Progress → Progress
  add_slice id p = record {
    original = record p.original { child_task_ids = p.original.child_task_ids ++ (id ∷ []) };
    created = p.created ++ (id ∷ []);
    prev_id = id;
  }

  abbrev make_slice : String → Json → String → Progress → Exec W Progress
  make_slice ts sub title p = do
    id ← fresh_uuid
    issue ← lift (value_integer J sub "issue" (pos 0))
    description ← lift (value_string J sub "description" "")
    base_branch ← lift (value_string J sub "base_branch" "")
    let child =
        slice ts id p title (with_branch description base_branch) issue
          (given_blockers (find J sub "blocked_by"))
    on_store (create_hmas_task J client child)
    pure (add_slice id p)

  -- One turn of the loop: `none` inside is the error return on a subtask that is no object or has no
  -- title.
  abbrev try_slice : String → Json → Progress → Exec W (Option Progress)
  try_slice ts sub p = elim (members sub) [
    | none ↦ pure none
    | some _ ↦ do
      title ← lift (value_string J sub "title" "")
      if is_empty title then pure none else (do p' ← make_slice ts sub title p; pure (some p'))
  ]

  -- The loop. An error return leaves the slices before it in the store.
  unfoldable pub slices : String → List Json → Progress → Exec W (Option Progress)
  unfolding texts
  slices ts [] p w = (some (some p), w)
  slices ts (sub ∷ subs) p w =
      (do r ← try_slice ts sub p; (elim r [ none ↦ pure none | some p' ↦ slices ts subs p' ])) w

  abbrev finish : String → Option Progress → Exec W Json
  finish task_id none = pure (error "each subtask needs a non-empty 'title'")
  finish task_id (some p) = do
    on_store (update_hmas_task J client p.original)
    let report =
        object (("task_id", string task_id) ∷ ("created", array (map string p.created)) ∷ [])
    send (logged "hi.logs.agamemnon.task_split" "info" (append_text "Task split: " task_id) report)
    pure report

  abbrev split_found : String → String → HmasTask → Option (List Json) → Exec W Json
  split_found now task_id original none = pure (error "subtasks must be a non-empty array")
  split_found now task_id original (some []) = pure (error "subtasks must be a non-empty array")
  split_found now task_id original (some (sub ∷ subs)) = do
    r ← slices now (sub ∷ subs) (record { original = original; created = []; prev_id = "" })
    finish task_id r

  abbrev split_known : String → String → Json → Option HmasTask → Exec W Json
  split_known now task_id subtasks none = pure (error "task not found")
  split_known now task_id subtasks (some original) =
      split_found now task_id original (elements subtasks)

  unfoldable pub split_task : String → String → Json → Exec W Json
  unfolding slices
  split_task now task_id subtasks = do
    task_opt ← on_store (get_hmas_task J client task_id)
    split_known now task_id subtasks task_opt
