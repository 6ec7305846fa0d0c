-- ===== src/Store/Requests/TaskWrites.antt =====
-- The operations on tasks keep every collection keyed.
use agamemnon.Base.{String, Option, none, some, refl, arith}
use agamemnon.Base.Dict.{Dict, lookup}
use agamemnon.Base.Exec
use agamemnon.Base.Exec.{Exec}
use agamemnon.Base.Triples.{
  Each, Triple, bind-Triple, then-Triple, modify-Triple, pure-Triple, lift-Triple, state-Triple,
  read-Triple, if_Triple,
}
use agamemnon.Json.{JsonLibrary, value_string}
use agamemnon.Store.ByBrief.{is_empty}
use agamemnon.Store.{Store, GithubClient}
use agamemnon.Store.Collections.{tasks}
use agamemnon.Store.Collections.Keyed.{Names, set-Names}
use agamemnon.Store.Collections.Writes.{
  Keyed, record_metric-AllKeyed, ensure_loaded-Triple, open_issue-Triple, put-Triple,
  write_back-Triple,
}
use agamemnon.Store.Entities.Names.{new_task-Names, updated_task-Names}
use agamemnon.Store.Tasks
use agamemnon.Store.Requests.Steps.{Keeps, reads-Keeps, lookup-Each}

module _ (J : JsonLibrary) (client : GithubClient J.Json) where
  open J use {Json, string}

  abbrev S : Type 0
  S = Store Json client.Github

  pub create_task-Keeps :
      (id now team_id : String) (body : Json)
      → Keeps J client (Tasks.create_task J client id now team_id body)
  unfolding Tasks.create_task
  create_task-Keeps id now team_id body = then-Triple (ensure_loaded-Triple J client tasks) (
      bind-Triple (lift-Triple _ _ (new_task-Names J id now team_id body)) (λ (subject, task) n.
        bind-Triple (open_issue-Triple J client tasks _ id task n) (λ task' n'.
          then-Triple (put-Triple J client tasks id task' n') (
            then-Triple (modify-Triple (record_metric-AllKeyed J client _))
              (pure-Triple _ (record {}))))))

  report_status-Keeps : (o : Option Json) → Keeps J client (Tasks.report_status J client o)
  report_status-Keeps none = reads-Keeps J client (λ s. some tt)
  report_status-Keeps (some status) = state-Triple (λ s h. ground arith)

  update_found-Keeps :
      (now id : String) (body : Json) (fields : Dict Json) (o : Option Json)
      → Each (Names J id) o
      → Keeps J client (Tasks.update_found J client now id body fields o)
  update_found-Keeps now id body fields none n = pure-Triple _ (record {})
  update_found-Keeps now id body fields (some task) n =
      then-Triple (put-Triple J client tasks id _ (updated_task-Names J id now body fields task n))
        (then-Triple (write_back-Triple J client tasks id _)
          (then-Triple (report_status-Keeps _) (pure-Triple _ (record {}))))

  of_team-Names :
      (team_id id : String) (o : Option Json)
      → Each (Names J id) o
      → Each (Each (Names J id)) (Tasks.of_team J client team_id o)
  unfolding Tasks.of_team
  of_team-Names team_id id none n = tt
  of_team-Names team_id id (some task) n = ground arith

  -- The task that is looked up, if it is of the team.
  team_task-Triple :
      (team_id id : String)
      → Triple
          (Keyed J client)
          (λ s. Exec.lift (Tasks.of_team J client team_id (lookup id s.tasks)) s)
          (Each (Names J id))
  team_task-Triple team_id id =
      read-Triple
        (λ s h. lift-Triple _ _ (of_team-Names team_id id _ (lookup-Each J client tasks id s h)))

  pub update_task-with :
      (now team_id id : String) (body : Json) (o : Option (Dict Json))
      → Keeps J client (Tasks.update_with J client now team_id id body o)
  update_task-with now team_id id body none = pure-Triple _ (record {})
  update_task-with now team_id id body (some fields) =
      if_Triple (is_empty team_id) (pure-Triple _ (record {})) (
        then-Triple (ensure_loaded-Triple J client tasks)
          (bind-Triple (team_task-Triple team_id id) (update_found-Keeps now id body fields)))

  complete_found-Keeps :
      (now id : String) (o : Option Json)
      → Each (Names J id) o
      → Keeps J client (Tasks.complete_found J client now id o)
  complete_found-Keeps now id none n = pure-Triple _ (record {})
  complete_found-Keeps now id (some task) n =
      bind-Triple (reads-Keeps J client (λ s. value_string J task "status" "pending"))
        (λ old_status a.
          then-Triple
            (put-Triple J client tasks id _ (
              set-Names J id _ "completedAt" (string now) refl
                (set-Names J id task "status" (string "completed") refl n)))
            (then-Triple (write_back-Triple J client tasks id _)
              (modify-Triple (record_metric-AllKeyed J client _))))

  pub mark_task_completed-Keeps :
      (now id : String) → Keeps J client (Tasks.mark_task_completed J client now id)
  unfolding Tasks.mark_task_completed
  mark_task_completed-Keeps now id =
      then-Triple (ensure_loaded-Triple J client tasks)
        (read-Triple (λ s h. complete_found-Keeps now id _ (lookup-Each J client tasks id s h)))
