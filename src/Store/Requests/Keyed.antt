-- ===== src/Store/Requests/Keyed.antt =====
-- No call on the store ever breaks the keys of a collection.
use agamemnon.Base.{String, ℕ, List, [], ◌∷◌}
use agamemnon.Base.Dict.{lookup}
use agamemnon.Base.Exec.{Exec}
use agamemnon.Base.Triples.{bind-Triple, then-Triple, pure-Triple, if_Triple}
use agamemnon.Json.{JsonLibrary}
use agamemnon.Store.ByBrief.{is_empty}
use agamemnon.Store.{Store, GithubClient}
use agamemnon.Store.Collections.{Collection, agents, teams, tasks, faults, find_entity}
use agamemnon.Store.Collections.Keyed.{AllKeyed}
use agamemnon.Store.Collections.Writes.{Keyed, ensure_loaded-Triple, remove_entity-Triple}
use agamemnon.Store.Agents
use agamemnon.Store.Teams
use agamemnon.Store.Tasks
use agamemnon.Store.Faults
use agamemnon.Store.Listing
use agamemnon.Store.Requests.{Request, perform, perform_all}
use agamemnon.Store.Requests.Steps.{Keeps, reads-Keeps, loads-Keeps}
use agamemnon.Store.Requests.AgentWrites.{
  create_agent-Keeps, update_with-Keeps, delete_agent-Keeps, set_status-Keeps, create_team-Keeps,
  update_team-Keeps, create_fault-Keeps,
}
use agamemnon.Store.Requests.TaskWrites.{
  create_task-Keeps, update_task-with, mark_task_completed-Keeps,
}
use agamemnon.Store.Requests.EventWrites.{apply_github_event-Keeps, reconcile_from_github-Keeps}

module _ (J : JsonLibrary) (client : GithubClient J.Json) where
  open J use {Json, members}

  abbrev S : Type 0
  S = Store Json client.Github

  -- The state after a method that keeps the keys.
  after :
      {A : Type 0} (m : Exec S A) (s : S)
      → Keeps J client m
      → Keyed J client s
      → Keyed J client (m s).1
  after m s keeps h = (keeps.holds s h).0

  find_entity-Keeps : (c : Collection) (id : String) → Keeps J client (find_entity J client c id)
  unfolding find_entity
  find_entity-Keeps c id = loads-Keeps J client c _

  -- A task is read under its team.
  get_task-Keeps : (team_id id : String) → Keeps J client (Tasks.get_task J client team_id id)
  unfolding Tasks.get_task
  get_task-Keeps team_id id = if_Triple (is_empty team_id) (pure-Triple _ (record {})) (
      then-Triple (ensure_loaded-Triple J client tasks) (
        bind-Triple (reads-Keeps J client (λ s. Tasks.of_team J client team_id (lookup id s.tasks)))
          (λ task a. pure-Triple _ (record {}))))

  list_tasks_for_team-Keeps :
      (team_id : String) (limit offset : ℕ)
      → Keeps J client (Tasks.list_tasks_for_team J client team_id limit offset)
  unfolding Tasks.list_tasks_for_team
  list_tasks_for_team-Keeps team_id limit offset =
      then-Triple (ensure_loaded-Triple J client tasks) (
        bind-Triple (reads-Keeps J client (λ s. Tasks.team_entries J client team_id s.tasks))
          (λ found a. pure-Triple _ (record {})))

  perform-Keyed :
      (request : Request J) (s : S) → Keyed J client s → Keyed J client (perform J client request s)
  unfolding perform Agents.get_agent Agents.get_agent_by_name Agents.update_agent Agents.start_agent
      Agents.stop_agent Teams.get_team Teams.delete_team Faults.remove_fault Listing.list_agents
      Listing.list_teams Listing.list_faults Tasks.list_all_tasks Tasks.update_task
  perform-Keyed (Request.create_agent id now body) s =
      after _ s (create_agent-Keeps J client id now body)
  perform-Keyed (Request.get_agent id) s = after _ s (find_entity-Keeps agents id)
  perform-Keyed (Request.get_agent_by_name name) s = after _ s (loads-Keeps J client agents _)
  perform-Keyed (Request.list_agents limit offset) s = after _ s (loads-Keeps J client agents _)
  perform-Keyed (Request.update_agent now id fields) s =
      after _ s (update_with-Keeps J client now id (members fields))
  perform-Keyed (Request.delete_agent id) s = after _ s (delete_agent-Keeps J client id)
  perform-Keyed (Request.start_agent id) s = after _ s (set_status-Keeps J client id "online" _)
  perform-Keyed (Request.stop_agent id) s = after _ s (set_status-Keeps J client id "offline" _)
  perform-Keyed (Request.create_team id now body) s =
      after _ s (create_team-Keeps J client id now body)
  perform-Keyed (Request.get_team id) s = after _ s (find_entity-Keeps teams id)
  perform-Keyed (Request.list_teams limit offset) s = after _ s (loads-Keeps J client teams _)
  perform-Keyed (Request.update_team now id body) s =
      after _ s (update_team-Keeps J client now id body)
  perform-Keyed (Request.delete_team id) s = after _ s (remove_entity-Triple J client teams id)
  perform-Keyed (Request.create_task id now team_id body) s =
      after _ s (create_task-Keeps J client id now team_id body)
  perform-Keyed (Request.get_task team_id id) s = after _ s (get_task-Keeps team_id id)
  perform-Keyed (Request.update_task now team_id id body) s =
      after _ s (update_task-with J client now team_id id body (members body))
  perform-Keyed (Request.list_tasks_for_team team_id limit offset) s =
      after _ s (list_tasks_for_team-Keeps team_id limit offset)
  perform-Keyed (Request.list_all_tasks limit offset) s = after _ s (loads-Keeps J client tasks _)
  perform-Keyed (Request.mark_task_completed now id) s =
      after _ s (mark_task_completed-Keeps J client now id)
  perform-Keyed (Request.list_faults limit offset) s = after _ s (loads-Keeps J client faults _)
  perform-Keyed (Request.create_fault id now type) s =
      after _ s (create_fault-Keeps J client id now type)
  perform-Keyed (Request.remove_fault id) s = after _ s (remove_entity-Triple J client faults id)
  perform-Keyed (Request.apply_github_event label action issue updated_at) s =
      after _ s (apply_github_event-Keeps J client label action issue updated_at)
  perform-Keyed Request.reconcile_from_github s = after _ s (reconcile_from_github-Keeps J client)

  -- From any store whose collections are keyed, in particular from an empty one, calls in any order,
  -- whichever of them throw and whatever GitHub answers, leave every collection keyed.
  pub perform_all-AllKeyed :
      (requests : List (Request J)) (s : S)
      → AllKeyed J client s
      → AllKeyed J client (perform_all J client requests s)
  unfolding perform_all
  perform_all-AllKeyed [] s h = h
  perform_all-AllKeyed (request ∷ requests) s h =
      perform_all-AllKeyed requests (perform J client request s) (perform-Keyed request s h)
