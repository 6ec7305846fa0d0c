-- ===== src/Store.antt =====
-- include/agamemnon/store.hpp and src/store.cpp: the state of the store, and its use of the GitHub
-- client. Every operation holds the mutex of its collection throughout, so it is one step.
pub mod Issue
pub mod ByBrief
pub mod HmasTasks
pub mod Briefs
pub mod Collections
pub mod Listing
pub mod Entities
pub mod Agents
pub mod Teams
pub mod Tasks
pub mod Faults
pub mod Sync
pub mod Requests
pub mod Lookup
pub mod Index
pub mod ListByBrief
pub mod Hydration
pub mod Sample
pub mod Examples
pub mod EntityExamples
pub mod SyncExamples
use agamemnon.Base.{ℕ, String, Bool, true, false, List, [], ◌∷◌, ◌++◌, Option, none, some}
use agamemnon.Base.Dict.{Dict}
use agamemnon.Base.Int.{ℤ}
use agamemnon.Base.Exec.{Exec}
use agamemnon.HmasTypes.{HmasTask, TaskBrief}
use agamemnon.Json.{JsonLibrary}

-- IGitHubClient (include/agamemnon/github_client.hpp): calls of a service, over its own state. A
-- call that throws answers `none`.
pub record GithubClient (Json : Type 0) : Type 1 where
  pub Github : Type 0
  pub list_issues : String → Exec Github (List Json)
  pub create_issue : String → String → String → Exec Github String
  pub update_issue_body : String → String → Exec Github (Unit {0})
  pub close_issue : String → Exec Github (Unit {0})

-- The calls on the metrics registry (record_task_state_change, record_task_created,
-- adjust_agent_count, record_inbound_sync), with their arguments.
pub data MetricCall : Type 0 where
  task_state_change : String → String → MetricCall
  task_created : MetricCall
  agent_count : ℤ → MetricCall
  inbound_sync : String → MetricCall

-- `gh` and `metrics` are `none` for a nullptr; the metrics are the calls made, oldest first.
pub record Store (Json Github : Type 0) : Type 0 where
  pub gh : Option Github
  pub metrics : Option (List MetricCall)
  pub agents : Dict Json
  pub agents_loaded : Bool
  pub teams : Dict Json
  pub teams_loaded : Bool
  pub tasks : Dict Json
  pub tasks_loaded : Bool
  pub faults : Dict Json
  pub faults_loaded : Bool
  pub hmas_tasks : Dict HmasTask
  pub hmas_tasks_by_brief : Dict (List String)
  pub hmas_task_issue_numbers : Dict String
  pub hmas_tasks_loaded : Bool
  pub task_briefs : Dict TaskBrief
  pub brief_issue_numbers : Dict String
  pub briefs_loaded : Bool

module _ {Json Github : Type 0} where
  abbrev pub init : Option Github → Store Json Github
  init gh = record {
    gh = gh;
    metrics = none;
    agents = [];
    agents_loaded = false;
    teams = [];
    teams_loaded = false;
    tasks = [];
    tasks_loaded = false;
    faults = [];
    faults_loaded = false;
    hmas_tasks = [];
    hmas_tasks_by_brief = [];
    hmas_task_issue_numbers = [];
    hmas_tasks_loaded = false;
    task_briefs = [];
    brief_issue_numbers = [];
    briefs_loaded = false;
  }

  abbrev pub with_gh : Store Json Github → Github → Store Json Github
  with_gh s g = record s { gh = some g }

  abbrev pub call_from :
      {A : Type 0} → Option Github → A → Exec Github A → Exec (Store Json Github) A
  call_from none default call s = (some default, s)
  call_from (some g) default call s = ((call g).0, with_gh s (call g).1)

  -- if (gh_) { ... }: one call of the client, or `default` without one.
  abbrev pub call_github : {A : Type 0} → A → Exec Github A → Exec (Store Json Github) A
  call_github default call s = call_from s.gh default call s

  -- if (metrics_) metrics_->...
  abbrev pub record_metric : MetricCall → Store Json Github → Store Json Github
  record_metric call s = elim s.metrics [
    | none ↦ s
    | some calls ↦ record s { metrics = some (calls ++ (call ∷ [])) }
  ]
