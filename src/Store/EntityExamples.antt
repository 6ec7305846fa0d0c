-- ===== src/Store/EntityExamples.antt =====
-- The theorems on agents, teams, tasks and faults at a small store.
use agamemnon.Base.{
  String, ◌≡◌, ◌⊎◌, refl, true, false, List, [], ◌∷◌, none, some, if◌then◌else◌, str_eq, ◌&&◌,
}
use agamemnon.Base.Dict.{Dict, lookup, insert, erase}
use agamemnon.Json.{find, value_string, value_json, text_at}
use agamemnon.Json.Sample.{Value, sample, obj, text, field, end, arr, nil}
use agamemnon.Store.{Store, init}
use agamemnon.Store.Sample.{quiet}
use agamemnon.Store.Agents.{create_agent, get_agent, update_agent, delete_agent}
use agamemnon.Store.Agents.Lifecycle.{
  create_agent-get_agent, update_agent_effect, delete_agent_effect,
}
use agamemnon.Store.Collections.Keyed.{AllKeyed, IsKeyed, Names, insert-IsKeyed, nothing_IsKeyed}
use agamemnon.Store.Entities.{new_agent, is_one_of}
use agamemnon.Store.Entities.Patch.{or_else, patched, first_completion}
use agamemnon.Store.Requests.{Request, perform_all}
use agamemnon.Store.Requests.Keyed.{perform_all-AllKeyed}
use agamemnon.Store.Tasks.{update_task, get_task}
use agamemnon.Store.Tasks.Updates.{update_task_effect, update_task_of_other_team}

abbrev agent : Value
agent = obj (field "id" (text "a") (field "name" (text "n") (field "updatedAt" (text "t0") end)))

abbrev task : Value
task = obj (field "id" (text "k") (field "teamId" (text "red") end))

abbrev pub store : Store Value Unit
store = record (init (some tt)) {
  agents = ("a", agent) ∷ [];
  agents_loaded = true;
  tasks = ("k", task) ∷ [];
  tasks_loaded = true;
}

abbrev created : Value
created = obj (
    field "id" (text "b") (
      field "name" (text "z") (
        field "label" (text "") (
          field "program" (text "") (
            field "workingDirectory" (text "") (
              field "programArgs" (arr nil) (
                field "taskDescription" (text "") (
                  field "tags" (arr nil) (
                    field "owner" (text "") (
                      field "role" (text "worker") (
                        field "host" (text "local") (
                          field "status" (text "offline") (
                            field "createdAt" (text "now") (
                              field "updatedAt" (text "now")
                                (field "_github_issue" (text "7") end)))))))))))))))

abbrev body : Value
body = obj (field "name" (text "z") (field "status" (text "completed") end))

-- The answer to a creation, and the store after it.
abbrev answer : Value
answer = obj (field "id" (text "b") (field "agent" created end))

create_agent-get_agent_example :
    (e : Value) × (find sample answer "agent" ≡ some e)
    × (get_agent sample quiet "b" (create_agent sample quiet "b" "now" body store).1
        ≡ (some e, (create_agent sample quiet "b" "now" body store).1))
unfolding create_agent new_agent value_string value_json lookup insert
create_agent-get_agent_example =
    create_agent-get_agent sample quiet "b" "now" body answer store
      (create_agent sample quiet "b" "now" body store).1 refl

agent-Names : Names sample "a" agent
unfolding text_at lookup
agent-Names = record { object = (_, refl); named = refl }

task-Names : Names sample "k" task
unfolding text_at lookup
task-Names = record { object = (_, refl); named = refl }

single_IsKeyed : (id : String) (e : Value) → Names sample id e → IsKeyed sample ((id, e) ∷ [])
unfolding lookup insert
single_IsKeyed id e n = insert-IsKeyed sample id e [] n (nothing_IsKeyed sample)

store_AllKeyed : AllKeyed sample quiet store
store_AllKeyed = record {
  of_agents = single_IsKeyed "a" agent agent-Names;
  of_teams = nothing_IsKeyed sample;
  of_tasks = single_IsKeyed "k" task task-Names;
  of_faults = nothing_IsKeyed sample;
}

abbrev requests : List (Request sample)
requests =
    Request.create_team "t" "now" body
    ∷ Request.update_task "now" "red" "k" body
    ∷ Request.delete_agent "a"
    ∷ Request.reconcile_from_github
    ∷ []

perform_all-AllKeyed_example : AllKeyed sample quiet (perform_all sample quiet requests store)
perform_all-AllKeyed_example = perform_all-AllKeyed sample quiet requests store store_AllKeyed

delete_agent_effect_example :
    (((delete_agent sample quiet "a" store).0 ≡ some true)
      × ((delete_agent sample quiet "a" store).1.agents ≡ erase "a" store.agents)
      × (lookup "a" (delete_agent sample quiet "a" store).1.agents ≡ none))
    ⊎ (((delete_agent sample quiet "a" store).0 ≡ some false)
        × ((delete_agent sample quiet "a" store).1.agents ≡ store.agents)
        × (lookup "a" store.agents ≡ none))
    ⊎ (((delete_agent sample quiet "a" store).0 ≡ none)
        × ((delete_agent sample quiet "a" store).1.agents ≡ store.agents))
delete_agent_effect_example = delete_agent_effect sample quiet "a" store refl

abbrev fields : Dict Value
fields = ("name", text "z") ∷ ("status", text "completed") ∷ []

update_agent_effect_example :
    (agent' : Value) × (lookup "a" (update_agent sample quiet "now" "a" body store).1.agents
      ≡ some agent')
    × (((update_agent sample quiet "now" "a" body store).0 ≡ some agent')
        ⊎ ((update_agent sample quiet "now" "a" body store).0 ≡ none))
    × ((k : String)
        → find sample agent' k ≡ (
            if str_eq "updatedAt" k
            then some (text "now")
            else if is_one_of k ("id" ∷ "createdAt" ∷ "_github_issue" ∷ "updatedAt" ∷ [])
            then find sample agent k
            else or_else (lookup k fields) (find sample agent k)))
unfolding lookup
update_agent_effect_example =
    update_agent_effect sample quiet "now" "a" body fields agent store refl refl (refl, (refl, tt))
      refl (_, refl)

update_task_effect_example :
    (task' : Value) × (lookup "k" (update_task sample quiet "now" "red" "k" body store).1.tasks
      ≡ some task')
    × (((update_task sample quiet "now" "red" "k" body store).0 ≡ some task')
        ⊎ ((update_task sample quiet "now" "red" "k" body store).0 ≡ none))
    × ((k : String)
        → find sample task' k ≡ (
            if str_eq "updatedAt" k
            then some (text "now")
            else if first_completion sample body fields task && str_eq "completedAt" k
            then some (text "now")
            else patched sample fields task k))
unfolding lookup value_string
update_task_effect_example =
    update_task_effect sample quiet "now" "red" "k" body fields task store refl refl refl
      (refl, (refl, tt)) refl (_, refl) refl

update_task_of_other_team_example :
    (update_task sample quiet "now" "blue" "k" body store ≡ (some Value.null, store))
    × (get_task sample quiet "blue" "k" store ≡ (some Value.null, store))
unfolding lookup value_string
update_task_of_other_team_example =
    update_task_of_other_team sample quiet "now" "blue" "k" body task "red" store refl refl refl
      refl
