-- ===== src/Store/Requests/AgentWrites.antt =====
-- The operations on agents, teams and faults keep every collection keyed.
use agamemnon.Base.{String, Bool, true, false, Option, none, some, refl, if◌then◌else◌}
use agamemnon.Base.Dict.{Dict}
use agamemnon.Base.Exec
use agamemnon.Base.Exec.{Exec}
use agamemnon.Base.Triples.{bind-Triple, then-Triple, modify-Triple, pure-Triple, lift-Triple}
use agamemnon.Json.{JsonLibrary}
use agamemnon.Base.Int.{negsuc}
use agamemnon.Store.{Store, GithubClient, agent_count, record_metric}
use agamemnon.Store.Collections.{agents, teams, faults, change_entity}
use agamemnon.Store.Collections.Keyed.{set-Names}
use agamemnon.Store.Collections.Writes.{
  record_metric-AllKeyed, ensure_loaded-Triple, open_issue-Triple, put-Triple, change_entity-Triple,
  remove_entity-Triple,
}
use agamemnon.Store.Entities.Names.{
  new_agent-Names, new_team-Names, new_fault-Names, updated_agent-Names, updated_team-Names,
}
use agamemnon.Store.Agents
use agamemnon.Store.Teams
use agamemnon.Store.Faults
use agamemnon.Store.Requests.Steps.{Keeps}

module _ (J : JsonLibrary) (client : GithubClient J.Json) where
  open J use {Json, string}

  abbrev S : Type 0
  S = Store Json client.Github

  pub create_agent-Keeps :
      (id now : String) (body : Json) → Keeps J client (Agents.create_agent J client id now body)
  unfolding Agents.create_agent
  create_agent-Keeps id now body = then-Triple (ensure_loaded-Triple J client agents) (
      bind-Triple (lift-Triple _ _ (new_agent-Names J id now body)) (λ (name, agent) n.
        bind-Triple (open_issue-Triple J client agents _ id agent n) (λ agent' n'.
          then-Triple (put-Triple J client agents id agent' n') (
            then-Triple (modify-Triple (record_metric-AllKeyed J client _))
              (pure-Triple _ (record {}))))))

  pub update_with-Keeps :
      (now id : String) (o : Option (Dict Json))
      → Keeps J client (Agents.update_with J client now id o)
  unfolding change_entity
  update_with-Keeps now id none = pure-Triple _ (record {})
  update_with-Keeps now id (some fields) =
      bind-Triple (change_entity-Triple J client agents id _ (updated_agent-Names J id now fields))
        (λ changed a. pure-Triple _ (record {}))

  pub delete_agent-Keeps : (id : String) → Keeps J client (Agents.delete_agent J client id)
  unfolding Agents.delete_agent
  delete_agent-Keeps id =
      bind-Triple (remove_entity-Triple J client agents id) (λ removed a. removed-Keeps removed)
    where
      removed-Keeps :
          (removed : Bool)
          → Keeps J client (
              if removed
              then Exec.◌>>◌ (Exec.modify (record_metric (agent_count (negsuc 0)))) (Exec.pure true)
              else Exec.pure false)
      removed-Keeps true =
          then-Triple (modify-Triple (record_metric-AllKeyed J client _))
            (pure-Triple _ (record {}))
      removed-Keeps false = pure-Triple _ (record {})

  pub set_status-Keeps :
      (id status : String) (answer : Option Json → Json)
      → Keeps J client (
          Exec.◌>>=◌
            (change_entity J client agents id (λ agent. J.set agent "status" (string status)))
            (λ changed. Exec.pure (answer changed)))
  set_status-Keeps id status answer =
      bind-Triple
        (change_entity-Triple J client agents id _
          (λ e. set-Names J id e "status" (string status) refl))
        (λ changed a. pure-Triple _ (record {}))

  pub create_team-Keeps :
      (id now : String) (body : Json) → Keeps J client (Teams.create_team J client id now body)
  unfolding Teams.create_team
  create_team-Keeps id now body = then-Triple (ensure_loaded-Triple J client teams) (
      bind-Triple (lift-Triple _ _ (new_team-Names J id now body)) (λ (name, team) n.
        bind-Triple (open_issue-Triple J client teams _ id team n) (λ team' n'.
          then-Triple (put-Triple J client teams id team' n') (pure-Triple _ (record {})))))

  pub update_team-Keeps :
      (now id : String) (body : Json) → Keeps J client (Teams.update_team J client now id body)
  unfolding Teams.update_team
  update_team-Keeps now id body =
      bind-Triple (change_entity-Triple J client teams id _ (updated_team-Names J id now body))
        (λ changed a. pure-Triple _ (record {}))

  pub create_fault-Keeps :
      (id now type : String) → Keeps J client (Faults.create_fault J client id now type)
  unfolding Faults.create_fault
  create_fault-Keeps id now type = then-Triple (ensure_loaded-Triple J client faults) (
      bind-Triple (open_issue-Triple J client faults _ id _ (new_fault-Names J id now type))
        (λ fault n.
          then-Triple (put-Triple J client faults id fault n) (pure-Triple _ (record {}))))
