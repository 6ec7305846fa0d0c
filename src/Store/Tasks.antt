-- ===== src/Store/Tasks.antt =====
-- The plain tasks of the store (src/store.cpp). A task is a JSON object; `id` of create_task is what
-- generate_uuid gives, and `now` what now_iso8601 gives.
pub mod Keeps
pub mod Updates
use Prim.Native.String.{◌++◌ as append_text}
use agamemnon.Base.{ℕ, String, Bool, [], ◌∷◌, Option, none, some, if◌then◌else◌, str_eq}
use agamemnon.Base.Dict.{Dict, lookup}
use agamemnon.Base.Exec.{Exec, pure, lift, gets, modify, ◌>>=◌, ◌>>◌}
use agamemnon.Json.{JsonLibrary, find, value_string}
use agamemnon.Store.{Store, GithubClient, task_created, task_state_change, record_metric}
use agamemnon.Store.ByBrief.{is_empty}
use agamemnon.Store.Collections.{
  tasks, put, ensure_loaded, open_issue, or_null, call_numbered, write_back,
}
use agamemnon.Store.Entities.{new_task, updated_task}
use agamemnon.Store.Listing.{listing}

module _ (J : JsonLibrary) (client : GithubClient J.Json) where
  open J use {Json, null, string, object, set, members, as_string}

  abbrev S : Type 0
  S = Store Json client.Github

  unfoldable pub create_task : String → String → String → Json → Exec S Json
  unfolding ensure_loaded open_issue
  create_task id now team_id body = do
    ensure_loaded J client tasks
    (subject, task) ← lift (new_task J id now team_id body)
    let title = append_text "task: " (if is_empty subject then id else subject)
    task' ← open_issue J client tasks title id task
    modify (put tasks id task')
    modify (record_metric task_created)
    pure (object (("task", task') ∷ []))

  -- The task, if it is of that team; a team id that is no text throws.
  unfoldable pub of_team : String → Option Json → Option (Option Json)
  of_team team_id none = some none
  of_team team_id (some task) = elim (value_string J task "teamId" "") [
    | none ↦ none
    | some held ↦ some (if str_eq held team_id then some task else none)
  ]

  unfoldable pub get_task : String → String → Exec S Json
  unfolding ensure_loaded of_team
  get_task team_id task_id = if is_empty team_id then pure null else (do
    ensure_loaded J client tasks
    task ← (λ s. lift (of_team team_id (lookup task_id s.tasks)) s)
    pure (or_null J client task))

  -- if (metrics_ && body.contains("status")): the old status is always "pending".
  abbrev pub report_status : Option Json → Exec S (Unit {0})
  report_status none s = (some tt, s)
  report_status (some status) s = elim s.metrics [
    | none ↦ (some tt, s)
    | some calls ↦ elim (as_string status) [
      | none ↦ (none, s)
      | some new ↦ (some tt, record_metric (task_state_change "pending" new) s)
    ]
  ]

  abbrev pub update_found : String → String → Json → Dict Json → Option Json → Exec S Json
  update_found now id body fields none = pure null
  update_found now id body fields (some task) = do
    let task' = updated_task J now body fields task
    modify (put tasks id task')
    write_back J client tasks id task'
    report_status (find J body "status")
    pure task'

  abbrev pub update_with : String → String → String → Json → Option (Dict Json) → Exec S Json
  update_with now team_id id body none = pure null
  update_with now team_id id body (some fields) = if is_empty team_id then pure null else (do
    ensure_loaded J client tasks
    task ← (λ s. lift (of_team team_id (lookup id s.tasks)) s)
    update_found now id body fields task)

  -- A body that is no object gives null before anything is loaded.
  unfoldable pub update_task : String → String → String → Json → Exec S Json
  unfolding ensure_loaded of_team updated_task call_numbered
  update_task now team_id id body = update_with now team_id id body (members body)

  -- The entries of that team, in the order of iteration.
  unfoldable pub team_entries : String → Dict Json → Option (Dict Json)
  team_entries team_id [] = some []
  team_entries team_id ((id, task) ∷ rest) = elim (value_string J task "teamId" "") [
    | none ↦ none
    | some held ↦ elim (team_entries team_id rest) [
      | none ↦ none
      | some found ↦ some (if str_eq held team_id then (id, task) ∷ found else found)
    ]
  ]

  unfoldable pub list_tasks_for_team : String → ℕ → ℕ → Exec S Json
  unfolding ensure_loaded team_entries listing
  list_tasks_for_team team_id limit offset = do
    ensure_loaded J client tasks
    found ← (λ s. lift (team_entries team_id s.tasks) s)
    pure (listing J client "tasks" limit offset found)

  unfoldable pub list_all_tasks : ℕ → ℕ → Exec S Json
  unfolding ensure_loaded listing
  list_all_tasks limit offset = do
    ensure_loaded J client tasks
    gets (λ s. listing J client "tasks" limit offset s.tasks)

  -- The task that is found is marked, written back if it has an issue, and counted.
  abbrev pub complete_found : String → String → Option Json → Exec S (Unit {0})
  complete_found now id none = pure tt
  complete_found now id (some task) = do
    old_status ← lift (value_string J task "status" "pending")
    let task' = set (set task "status" (string "completed")) "completedAt" (string now)
    modify (put tasks id task')
    write_back J client tasks id task'
    modify (record_metric (task_state_change old_status "completed"))

  unfoldable pub mark_task_completed : String → String → Exec S (Unit {0})
  unfolding ensure_loaded call_numbered
  mark_task_completed now id = do
    ensure_loaded J client tasks
    (λ s. complete_found now id (lookup id s.tasks) s)
