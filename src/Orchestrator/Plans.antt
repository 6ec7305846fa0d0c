-- ===== src/Orchestrator/Plans.antt =====
-- get_plan of src/orchestrator.cpp.
use agamemnon.Base.{String, Bool, List, [], ◌∷◌, map, Option, none, some, str_eq, if◌then◌else◌}
use agamemnon.Base.Exec.{Exec, pure, ◌>>=◌}
use agamemnon.HmasTypes.{HmasTask, TaskBrief}
use agamemnon.HmasTypes.Codec.{hmas_task_to_json}
use agamemnon.HmasTypes.BriefCodec.{task_brief_to_json}
use agamemnon.Json.{JsonLibrary}
use agamemnon.Store.{GithubClient}
use agamemnon.Store.HmasTasks.{list_hmas_tasks_by_brief}
use agamemnon.Store.Briefs.{get_task_brief}
use agamemnon.Orchestrator.{World, on_store}

abbrev is_empty : String → Bool
is_empty s = str_eq s ""

module _ (J : JsonLibrary) (client : GithubClient J.Json) where
  open J use {Json, null, string, integer, array, object, set, parse, members}
  open client use {Github}

  abbrev W : Type 0
  W = World Json Github

  -- The last task that has no parent.
  abbrev root_of : Json → List HmasTask → Json
  root_of found [] = found
  root_of found (t ∷ ts) =
      root_of (if is_empty t.parent_task_id then hmas_task_to_json J t else found) ts

  abbrev plan : String → Json → List Json → Json
  plan brief_id root tasks =
      object (("brief_id", string brief_id) ∷ ("root", root) ∷ ("tasks", array tasks) ∷ [])

  abbrev plan_of_brief : String → Option TaskBrief → Json
  plan_of_brief brief_id none = plan brief_id null []
  plan_of_brief brief_id (some brief) = object (
      ("brief_id", string brief_id)
      ∷ ("root", null)
      ∷ ("tasks", array [])
      ∷ ("brief", task_brief_to_json J brief)
      ∷ [])

  abbrev plan_of : String → List HmasTask → Exec W Json
  plan_of brief_id [] = do
    brief_opt ← on_store (get_task_brief J client brief_id)
    pure (plan_of_brief brief_id brief_opt)
  plan_of brief_id (t ∷ ts) =
      pure (plan brief_id (root_of null (t ∷ ts)) (map (λ u. hmas_task_to_json J u) (t ∷ ts)))

  unfoldable pub get_plan : String → Exec W Json
  get_plan brief_id = do
    tasks ← on_store (list_hmas_tasks_by_brief J client brief_id)
    plan_of brief_id tasks
