-- ===== src/Store/Collections.antt =====
-- The four collections of JSON entities of the store: how they are picked and loaded, and how an
-- entity is written through to its GitHub issue (src/store.cpp). The code of the four differs in
-- names and labels only, so what it repeats is written once, over the collection.
pub mod Frame
pub mod Keyed
pub mod Writes
use Prim.Native.String.{◌++◌ as append_text}
use agamemnon.Base.{
  String, Bool, true, false, List, [], ◌∷◌, Option, none, some, if◌then◌else◌, str_eq,
}
use agamemnon.Base.Dict.{Dict, lookup, insert, erase}
use agamemnon.Base.Exec.{Exec, pure, gets, modify, for_each, ◌>>=◌, ◌>>◌}
use agamemnon.Base.Decimal.{to_string}
use agamemnon.Json.{JsonLibrary, find}
use agamemnon.Store.{Store, GithubClient, with_gh, call_github, init}
use agamemnon.Store.Issue.{make_issue_body, parse_issue_entity}
use agamemnon.Store.ByBrief.{is_empty}

-- enum class Collection { kAgents, kTeams, kTasks, kFaults }
pub data Collection : Type 0 where
  agents : Collection
  teams : Collection
  tasks : Collection
  faults : Collection

abbrev pub label : Collection → String
label agents = "agamemnon-agent"
label teams = "agamemnon-team"
label tasks = "agamemnon-task"
label faults = "agamemnon-fault"

-- What the entity type in an issue body begins with.
abbrev pub folder : Collection → String
folder agents = "agents/"
folder teams = "teams/"
folder tasks = "tasks/"
folder faults = "faults/"

module _ {Json Github : Type 0} where
  abbrev pub entities : Collection → Store Json Github → Dict Json
  entities agents s = s.agents
  entities teams s = s.teams
  entities tasks s = s.tasks
  entities faults s = s.faults

  abbrev pub with_entities : Collection → Dict Json → Store Json Github → Store Json Github
  with_entities agents m s = record s { agents = m }
  with_entities teams m s = record s { teams = m }
  with_entities tasks m s = record s { tasks = m }
  with_entities faults m s = record s { faults = m }

  abbrev pub is_loaded : Collection → Store Json Github → Bool
  is_loaded agents s = s.agents_loaded
  is_loaded teams s = s.teams_loaded
  is_loaded tasks s = s.tasks_loaded
  is_loaded faults s = s.faults_loaded

  abbrev pub set_loaded : Collection → Store Json Github → Store Json Github
  set_loaded agents s = record s { agents_loaded = true }
  set_loaded teams s = record s { teams_loaded = true }
  set_loaded tasks s = record s { tasks_loaded = true }
  set_loaded faults s = record s { faults_loaded = true }

  -- map[id] = entity
  abbrev pub put : Collection → String → Json → Store Json Github → Store Json Github
  put c id entity s = with_entities c (insert id entity (entities c s)) s

  abbrev pub remove : Collection → String → Store Json Github → Store Json Github
  remove c id s = with_entities c (erase id (entities c s)) s

-- pick_collection_, without the loading; `none` is the nullptr of an unknown label.
unfoldable pub pick_collection : String → Option Collection
pick_collection name =
    if str_eq name (label agents)
    then some agents
    else if str_eq name (label teams)
    then some teams
    else if str_eq name (label tasks)
    then some tasks
    else if str_eq name (label faults)
    then some faults
    else none

module _ (J : JsonLibrary) (client : GithubClient J.Json) where
  open J use {Json, null, string, set, as_string, as_integer}
  open client use {Github, list_issues, create_issue, update_issue_body}

  abbrev S : Type 0
  S = Store Json Github

  -- entity["_github_issue"] = std::to_string(issue["number"].get<int>()), if there is a number.
  abbrev pub numbered : Json → Option Json → Option Json
  numbered entity none = some entity
  numbered entity (some n) = elim (as_integer n) [
    | none ↦ none
    | some i ↦ some (set entity "_github_issue" (string (to_string i)))
  ]

  -- map[entity["id"].get<std::string>()] = entity; outside any try, so a type error escapes.
  abbrev store_entity : Collection → Json → Option Json → Exec S (Unit {0})
  store_entity c id none s = (none, s)
  store_entity c id (some entity) s = elim (as_string id) [
    | none ↦ (none, s)
    | some key ↦ (some tt, put c key entity s)
  ]

  abbrev pub adopt_entity : Collection → Json → Option Json → Exec S (Unit {0})
  adopt_entity c issue none s = (some tt, s)
  adopt_entity c issue (some entity) s = elim (find J entity "id") [
    | none ↦ (some tt, s)
    | some id ↦ store_entity c id (numbered entity (find J issue "number")) s
  ]

  abbrev pub adopt_all : Collection → Option (List Json) → Exec S (Unit {0})
  adopt_all c none = pure tt
  adopt_all c (some issues) =
      for_each issues (λ issue. adopt_entity c issue (parse_issue_entity J issue))

  abbrev pub load_from : Collection → Option Github → Exec S (Unit {0})
  load_from c none s = (some tt, s)
  load_from c (some g) s =
      let (issues, g') = list_issues (label c) g in adopt_all c issues (with_gh s g')

  -- The issues are fetched once. If the fetch throws, the collection counts as loaded; a type error
  -- in an issue escapes, and the next call begins again.
  unfoldable pub ensure_loaded : Collection → Exec S (Unit {0})
  unfolding for_each
  ensure_loaded c s =
      if is_loaded c s
      then (some tt, s)
      else (do (λ s'. load_from c s'.gh s'); modify (set_loaded c)) s

  abbrev pub with_number : String → Json → Json
  with_number n entity = if is_empty n then entity else set entity "_github_issue" (string n)

  abbrev numbered_entity : Json → Option String → Option Json
  numbered_entity entity none = none
  numbered_entity entity (some n) = some (with_number n entity)

  abbrev opened_in : Collection → String → String → Json → Option Github → Exec S Json
  opened_in c title id entity none s = (some entity, s)
  opened_in c title id entity (some g) s =
      let (number, g') =
        create_issue title (make_issue_body J (append_text (folder c) id) entity) (label c) g in
      (numbered_entity entity number, with_gh s g')

  -- if (gh_) { ... } of the create operations: the entity, with the number of its issue.
  unfoldable pub open_issue : Collection → String → String → Json → Exec S Json
  open_issue c title id entity s = opened_in c title id entity s.gh s

  abbrev numbered_call :
      (String → Exec Github (Unit {0})) → Option Json → Option Github → Exec S (Unit {0})
  numbered_call call number none s = (some tt, s)
  numbered_call call none (some g) s = (some tt, s)
  numbered_call call (some number) (some g) s = elim (as_string number) [
    | none ↦ (none, s)
    | some n ↦ call_github tt (call n) s
  ]

  -- if (gh_ && entity.contains("_github_issue")) gh_->call(number)
  unfoldable pub call_numbered : (String → Exec Github (Unit {0})) → Json → Exec S (Unit {0})
  call_numbered call entity s = numbered_call call (find J entity "_github_issue") s.gh s

  abbrev pub write_back : Collection → String → Json → Exec S (Unit {0})
  write_back c id entity =
      call_numbered
        (λ n. update_issue_body n (make_issue_body J (append_text (folder c) id) entity)) entity

  -- The entity of that id, or null.
  abbrev pub or_null : Option Json → Json
  or_null none = null
  or_null (some entity) = entity

  unfoldable pub find_entity : Collection → String → Exec S Json
  unfolding ensure_loaded
  find_entity c id = do ensure_loaded c; gets (λ s. or_null (lookup id (entities c s)))

  abbrev changed_in : Collection → String → (Json → Json) → Option Json → Exec S (Option Json)
  changed_in c id change none = pure none
  changed_in c id change (some entity) = do
    modify (put c id (change entity))
    write_back c id (change entity)
    pure (some (change entity))

  -- The entity of that id is changed in place and written back; `none` if there is none.
  unfoldable pub change_entity : Collection → String → (Json → Json) → Exec S (Option Json)
  unfolding ensure_loaded call_numbered
  change_entity c id change = do
    ensure_loaded c
    (λ s. changed_in c id change (lookup id (entities c s)) s)

  abbrev removed_in : Collection → String → Option Json → Exec S Bool
  removed_in c id none = pure false
  removed_in c id (some entity) = do
    call_numbered client.close_issue entity
    modify (remove c id)
    pure true

  -- The issue is closed first, and the entity is erased if that does not throw.
  unfoldable pub remove_entity : Collection → String → Exec S Bool
  unfolding ensure_loaded call_numbered
  remove_entity c id = do ensure_loaded c; (λ s. removed_in c id (lookup id (entities c s)) s)
