-- ===== src/Store/Agents.antt =====
-- The agents of the store (src/store.cpp). An agent is a JSON object; `id` is what generate_uuid
-- gives, and `now` what now_iso8601 gives.
pub mod Lifecycle
use Prim.Native.String.{◌++◌ as append_text}
use agamemnon.Base.{String, Bool, true, false, [], ◌∷◌, Option, none, some, if◌then◌else◌, str_eq}
use agamemnon.Base.Dict.{Dict, lookup}
use agamemnon.Base.Exec.{Exec, pure, lift, modify, ◌>>=◌, ◌>>◌}
use agamemnon.Base.Int.{pos, negsuc}
use agamemnon.Json.{JsonLibrary, value_string}
use agamemnon.Store.{Store, GithubClient, agent_count, record_metric}
use agamemnon.Store.Collections.{
  agents, put, ensure_loaded, open_issue, or_null, find_entity, change_entity, remove_entity,
}
use agamemnon.Store.Entities.{new_agent, updated_agent}

module _ (J : JsonLibrary) (client : GithubClient J.Json) where
  open J use {Json, null, string, object, set, members}

  abbrev S : Type 0
  S = Store Json client.Github

  unfoldable pub create_agent : String → String → Json → Exec S Json
  unfolding ensure_loaded open_issue
  create_agent id now body = do
    ensure_loaded J client agents
    (name, agent) ← lift (new_agent J id now body)
    agent' ← open_issue J client agents (append_text "agent: " name) id agent
    modify (put agents id agent')
    modify (record_metric (agent_count (pos 1)))
    pure (object (("id", string id) ∷ ("agent", agent') ∷ []))

  unfoldable pub get_agent : String → Exec S Json
  unfolding find_entity
  get_agent id = find_entity J client agents id

  -- The loop, in the order of iteration; a name that is no text throws.
  unfoldable pub find_by_name : String → Dict Json → Option Json
  find_by_name name [] = some null
  find_by_name name ((id, agent) ∷ rest) = elim (value_string J agent "name" "") [
    | none ↦ none
    | some held ↦ if str_eq held name then some agent else find_by_name name rest
  ]

  unfoldable pub get_agent_by_name : String → Exec S Json
  unfolding ensure_loaded find_by_name
  get_agent_by_name name = do
    ensure_loaded J client agents
    (λ s. lift (find_by_name name s.agents) s)

  abbrev pub update_with : String → String → Option (Dict Json) → Exec S Json
  update_with now id none = pure null
  update_with now id (some fields) = do
    changed ← change_entity J client agents id (updated_agent J now fields)
    pure (or_null J client changed)

  -- Fields that are no object give null before anything is loaded.
  unfoldable pub update_agent : String → String → Json → Exec S Json
  unfolding change_entity
  update_agent now id fields = update_with now id (members fields)

  unfoldable pub delete_agent : String → Exec S Bool
  unfolding remove_entity
  delete_agent id = do
    removed ← remove_entity J client agents id
    if removed then (do modify (record_metric (agent_count (negsuc 0))); pure true) else pure false

  -- The answer {"status": status, "id": id}, or null.
  abbrev status_answer : String → String → Option Json → Json
  status_answer id status none = null
  status_answer id status (some agent) = object (("status", string status) ∷ ("id", string id) ∷ [])

  unfoldable pub start_agent : String → Exec S Json
  unfolding change_entity
  start_agent id = do
    changed ← change_entity J client agents id (λ agent. set agent "status" (string "online"))
    pure (status_answer id "online" changed)

  unfoldable pub stop_agent : String → Exec S Json
  unfolding change_entity
  stop_agent id = do
    changed ← change_entity J client agents id (λ agent. set agent "status" (string "offline"))
    pure (status_answer id "offline" changed)
