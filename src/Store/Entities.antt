-- ===== src/Store/Entities.antt =====
-- The JSON entities that the create operations of src/store.cpp build from a request. `id` is what
-- generate_uuid gives, and `now` what now_iso8601 gives. A body of the wrong type throws (`none`)
-- before anything is written.
pub mod Names
pub mod Patch
use Prim.Native.String.{◌++◌ as append_text}
use agamemnon.Base.{
  String, Bool, true, false, List, [], ◌∷◌, Option, none, some, if◌then◌else◌, str_eq, ◌||◌, ◌&&◌,
}
use agamemnon.Base.Dict.{Dict}
use agamemnon.Json.{JsonLibrary, find, value_string, value_json, is_text, ◌>>=◌}

-- Whether the key is among these.
abbrev pub is_one_of : String → List String → Bool
is_one_of key [] = false
is_one_of key (k ∷ ks) = str_eq key k || is_one_of key ks

module _ (J : JsonLibrary) where
  open J use {Json, null, string, boolean, array, object, set, is_null}

  -- The name of the new agent, and the agent.
  unfoldable pub new_agent : String → String → Json → Option (String × Json)
  new_agent id now body = do
    name ← value_string J body "name" "unnamed"
    label ← value_string J body "label" ""
    program ← value_string J body "program" ""
    directory ← value_string J body "workingDirectory" ""
    args ← value_json J body "programArgs" (array [])
    description ← value_string J body "taskDescription" ""
    tags ← value_json J body "tags" (array [])
    owner ← value_string J body "owner" ""
    role ← value_string J body "role" "worker"
    host ← value_string J body "host" "local"
    some (
      name,
      object (
          ("id", string id)
          ∷ ("name", string name)
          ∷ ("label", string label)
          ∷ ("program", string program)
          ∷ ("workingDirectory", string directory)
          ∷ ("programArgs", args)
          ∷ ("taskDescription", string description)
          ∷ ("tags", tags)
          ∷ ("owner", string owner)
          ∷ ("role", string role)
          ∷ ("host", string host)
          ∷ ("status", string "offline")
          ∷ ("createdAt", string now)
          ∷ ("updatedAt", string now)
          ∷ []),
    )

  -- body.contains("agent_ids") ? body["agent_ids"] : body.value("agentIds", json::array())
  abbrev agent_ids : Json → Option Json → Option Json
  agent_ids body none = value_json J body "agentIds" (array [])
  agent_ids body (some ids) = some ids

  unfoldable pub new_team : String → String → Json → Option (String × Json)
  new_team id now body = do
    name ← value_string J body "name" "unnamed-team"
    ids ← agent_ids body (find J body "agent_ids")
    some (
      name,
      object (
          ("id", string id)
          ∷ ("name", string name)
          ∷ ("agentIds", ids)
          ∷ ("createdAt", string now)
          ∷ ("updatedAt", string now)
          ∷ []),
    )

  unfoldable pub new_task : String → String → String → Json → Option (String × Json)
  new_task id now team_id body = do
    subject ← value_string J body "subject" ""
    description ← value_string J body "description" ""
    assignee ← value_string J body "assigneeAgentId" ""
    blocked_by ← value_json J body "blockedBy" (array [])
    type ← value_string J body "type" "general"
    some (
      subject,
      object (
          ("id", string id)
          ∷ ("teamId", string team_id)
          ∷ ("subject", string subject)
          ∷ ("description", string description)
          ∷ ("assigneeAgentId", string assignee)
          ∷ ("blockedBy", blocked_by)
          ∷ ("type", string type)
          ∷ ("status", string "pending")
          ∷ ("createdAt", string now)
          ∷ ("updatedAt", string now)
          ∷ ("completedAt", null)
          ∷ []),
    )

  unfoldable pub new_fault : String → String → String → Json
  new_fault id now type = object (
      ("id", string id)
      ∷ ("type", string type)
      ∷ ("active", boolean true)
      ∷ ("createdAt", string now)
      ∷ ("updatedAt", string now)
      ∷ [])

  -- The loop over fields.items() of the updates: every field but the kept ones is written.
  unfoldable pub merge : List String → Dict Json → Json → Json
  merge kept [] entity = entity
  merge kept ((key, value) ∷ fields) entity =
      merge kept fields (if is_one_of key kept then entity else set entity key value)

  abbrev pub updated_agent : String → Dict Json → Json → Json
  updated_agent now fields agent =
      set (merge ("id" ∷ "createdAt" ∷ "_github_issue" ∷ "updatedAt" ∷ []) fields agent) "updatedAt"
        (string now)

  abbrev with_ids : Option Json → Option Json → Json → Json
  with_ids (some ids) other team = set team "agentIds" ids
  with_ids none (some ids) team = set team "agentIds" ids
  with_ids none none team = team

  abbrev with_name : Option Json → Json → Json
  with_name none team = team
  with_name (some name) team = set team "name" name

  unfoldable pub updated_team : String → Json → Json → Json
  updated_team now body team =
      set
        (with_name (find J body "name")
          (with_ids (find J body "agentIds") (find J body "agent_ids") team))
        "updatedAt" (string now)

  -- body.contains("status") && body["status"] == "completed"
  abbrev pub completes : Option Json → Bool
  completes none = false
  completes (some status) = is_text J status "completed"

  -- task.value("completedAt", json(nullptr)).is_null()
  abbrev pub never_completed : Option Json → Bool
  never_completed none = true
  never_completed (some at) = is_null at

  abbrev pub stamped : String → Json → Json → Json
  stamped now body task =
      if completes (find J body "status") && never_completed (find J task "completedAt")
      then set task "completedAt" (string now)
      else task

  unfoldable pub updated_task : String → Json → Dict Json → Json → Json
  unfolding merge
  updated_task now body fields task =
      set
        (stamped now body
          (merge ("id" ∷ "teamId" ∷ "createdAt" ∷ "_github_issue" ∷ "updatedAt" ∷ []) fields task))
        "updatedAt" (string now)
