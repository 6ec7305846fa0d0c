-- ===== src/Store/Requests.antt =====
-- The calls that change the agents, teams, tasks and faults of the store (include/agamemnon/store.hpp),
-- as one type, and their sequences. What a call gives or throws is not kept: the server answers the
-- request and goes on with the store as the call left it.
pub mod Steps
pub mod AgentWrites
pub mod TaskWrites
pub mod EventWrites
pub mod Keyed
use agamemnon.Base.{String, List, [], ◌∷◌, ℕ}
use agamemnon.Json.{JsonLibrary}
use agamemnon.Store.{Store, GithubClient}
use agamemnon.Store.Agents
use agamemnon.Store.Teams
use agamemnon.Store.Tasks
use agamemnon.Store.Faults
use agamemnon.Store.Sync
use agamemnon.Store.Listing

module _ (J : JsonLibrary) where
  open J use {Json}

  pub data Request : Type 0 where
    create_agent : String → String → Json → Request
    get_agent : String → Request
    get_agent_by_name : String → Request
    list_agents : ℕ → ℕ → Request
    update_agent : String → String → Json → Request
    delete_agent : String → Request
    start_agent : String → Request
    stop_agent : String → Request
    create_team : String → String → Json → Request
    get_team : String → Request
    list_teams : ℕ → ℕ → Request
    update_team : String → String → Json → Request
    delete_team : String → Request
    create_task : String → String → String → Json → Request
    get_task : String → String → Request
    update_task : String → String → String → Json → Request
    list_tasks_for_team : String → ℕ → ℕ → Request
    list_all_tasks : ℕ → ℕ → Request
    mark_task_completed : String → String → Request
    list_faults : ℕ → ℕ → Request
    create_fault : String → String → String → Request
    remove_fault : String → Request
    apply_github_event : String → String → Json → String → Request
    reconcile_from_github : Request

module _ (J : JsonLibrary) (client : GithubClient J.Json) where
  open J use {Json}

  abbrev S : Type 0
  S = Store Json client.Github

  -- The store after a call.
  unfoldable pub perform : Request J → S → S
  perform (create_agent id now body) s = (Agents.create_agent J client id now body s).1
  perform (get_agent id) s = (Agents.get_agent J client id s).1
  perform (get_agent_by_name name) s = (Agents.get_agent_by_name J client name s).1
  perform (list_agents limit offset) s = (Listing.list_agents J client limit offset s).1
  perform (update_agent now id fields) s = (Agents.update_agent J client now id fields s).1
  perform (delete_agent id) s = (Agents.delete_agent J client id s).1
  perform (start_agent id) s = (Agents.start_agent J client id s).1
  perform (stop_agent id) s = (Agents.stop_agent J client id s).1
  perform (create_team id now body) s = (Teams.create_team J client id now body s).1
  perform (get_team id) s = (Teams.get_team J client id s).1
  perform (list_teams limit offset) s = (Listing.list_teams J client limit offset s).1
  perform (update_team now id body) s = (Teams.update_team J client now id body s).1
  perform (delete_team id) s = (Teams.delete_team J client id s).1
  perform (create_task id now team_id body) s = (Tasks.create_task J client id now team_id body s).1
  perform (get_task team_id id) s = (Tasks.get_task J client team_id id s).1
  perform (update_task now team_id id body) s = (Tasks.update_task J client now team_id id body s).1
  perform (list_tasks_for_team team_id limit offset) s =
      (Tasks.list_tasks_for_team J client team_id limit offset s).1
  perform (list_all_tasks limit offset) s = (Tasks.list_all_tasks J client limit offset s).1
  perform (mark_task_completed now id) s = (Tasks.mark_task_completed J client now id s).1
  perform (list_faults limit offset) s = (Listing.list_faults J client limit offset s).1
  perform (create_fault id now type) s = (Faults.create_fault J client id now type s).1
  perform (remove_fault id) s = (Faults.remove_fault J client id s).1
  perform (apply_github_event label action issue updated_at) s =
      (Sync.apply_github_event J client label action issue updated_at s).1
  perform reconcile_from_github s = (Sync.reconcile_from_github J client s).1

  -- The store after calls, the first of the list first.
  unfoldable pub perform_all : List (Request J) → S → S
  unfolding perform
  perform_all [] s = s
  perform_all (request ∷ requests) s = perform_all requests (perform request s)
