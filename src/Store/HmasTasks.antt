-- ===== src/Store/HmasTasks.antt =====
-- The typed HMAS tasks of the store (src/store.cpp).
use Prim.Native.String.{◌++◌ as append_text}
use agamemnon.Base.{
  String, Bool, true, false, List, [], ◌∷◌, ◌++◌, Option, none, some, str_eq, if◌then◌else◌,
}
use agamemnon.Base.Dict.{Dict, lookup, insert}
use agamemnon.Base.Exec.{Exec, pure, gets, modify, ◌>>◌}
use agamemnon.Base.Decimal.{to_string}
use agamemnon.HmasTypes.{HmasLayer, TaskState, EscalationRecord, HmasTask, layer_eq}
use agamemnon.HmasTypes.Codec.{hmas_task_to_json, hmas_task_from_json}
use agamemnon.HmasTypes.BriefCodec.{bucket, push_entry}
use agamemnon.Json.{JsonLibrary, find}
use agamemnon.Store.{Store, GithubClient, call_github, with_gh}
use agamemnon.Store.ByBrief.{is_empty, add_to_brief, move_brief}
use agamemnon.Store.Issue.{make_issue_body, parse_issue_entity}

-- Every value that passes the test, in the order of iteration.
unfoldable pub select : (HmasTask → Bool) → Dict HmasTask → List HmasTask
select keep [] = []
select keep ((id, t) ∷ m) = let rest = select keep m in if keep t then t ∷ rest else rest

-- The tasks that the map has for these ids, in the order of the ids; a missing one is passed over.
unfoldable pub tasks_for : List String → Dict HmasTask → List HmasTask
tasks_for [] m = []
tasks_for (id ∷ ids) m =
    let rest = tasks_for ids m in elim (lookup id m) [ none ↦ rest | some t ↦ t ∷ rest ]

module _ (J : JsonLibrary) (client : GithubClient J.Json) where
  open J use {Json, as_integer}
  open client use {Github, list_issues, create_issue, update_issue_body}

  abbrev S : Type 0
  S = Store Json Github

  abbrev pub issue_number_of : Option Json → Option (Option String)
  issue_number_of none = some none
  issue_number_of (some n) = elim (as_integer n) [
    | none ↦ none
    | some i ↦ some (some (to_string i))
  ]

  abbrev note_number : String → Option String → Dict String → Dict String
  note_number id none numbers = numbers
  note_number id (some n) numbers = insert id n numbers

  -- The task is in the map, and its id at the end of its brief's bucket.
  abbrev pub put_new : HmasTask → S → S
  put_new t s = record s {
    hmas_tasks = insert t.id t s.hmas_tasks;
    hmas_tasks_by_brief = add_to_brief t.brief_id t.id s.hmas_tasks_by_brief;
  }

  abbrev adopt : HmasTask → Option (Option String) → S → S
  adopt t none s = s
  adopt t (some number) s =
      put_new t
        (record s { hmas_task_issue_numbers = note_number t.id number s.hmas_task_issue_numbers })

  abbrev pub adopt_entity : Json → Option Json → S → S
  adopt_entity issue none s = s
  adopt_entity issue (some entity) s = elim (find J entity "id") [
    | none ↦ s
    | some _ ↦ elim (hmas_task_from_json J entity) [
      | none ↦ s
      | some t ↦ adopt t (issue_number_of (find J issue "number")) s
    ]
  ]

  -- The loop over the issues: malformed ones and those that throw are passed over.
  unfoldable pub hydrate : List Json → S → S
  hydrate [] s = s
  hydrate (issue ∷ issues) s = hydrate issues (adopt_entity issue (parse_issue_entity J issue) s)

  abbrev pub hydrate_from : Option (List Json) → S → S
  hydrate_from none s = record s { hmas_tasks_loaded = true }
  hydrate_from (some issues) s = let s' = hydrate issues s in record s' { hmas_tasks_loaded = true }

  abbrev pub load_from : Option Github → S → S
  load_from none s = record s { hmas_tasks_loaded = true }
  load_from (some g) s =
      let (issues, g') = list_issues "agamemnon-hmas-task" g in hydrate_from issues (with_gh s g')

  unfoldable pub ensure_hmas_tasks_loaded : S → S
  unfolding hydrate
  ensure_hmas_tasks_loaded s = if s.hmas_tasks_loaded then s else load_from s.gh s

  abbrev keep_number : String → String → Dict String → Dict String
  keep_number id number numbers = if is_empty number then numbers else insert id number numbers

  -- The GitHub part of create_hmas_task.
  abbrev open_issue : HmasTask → Option Github → Exec S (Unit {0})
  open_issue task none s = (some tt, s)
  open_issue task (some g) s =
      let (number, g') =
        create_issue (append_text "hmas-task: " task.id)
          (make_issue_body J (append_text "hmas-tasks/" task.id) (hmas_task_to_json J task))
          "agamemnon-hmas-task" g in
      elim number [
        | none ↦ (none, with_gh s g')
        | some n ↦ (
          some tt,
          record (with_gh s g') {
            hmas_task_issue_numbers = keep_number task.id n s.hmas_task_issue_numbers;
          },
        )
      ]

  unfoldable pub create_hmas_task : HmasTask → Exec S (Unit {0})
  unfolding ensure_hmas_tasks_loaded push_entry
  create_hmas_task task = do
    modify ensure_hmas_tasks_loaded
    (λ s. open_issue task s.gh s)
    modify (put_new task)

  unfoldable pub get_hmas_task : String → Exec S (Option HmasTask)
  unfolding ensure_hmas_tasks_loaded
  get_hmas_task id = do modify ensure_hmas_tasks_loaded; gets (λ s. lookup id s.hmas_tasks)

  -- The GitHub part of the updates: a task with no known issue number is not written back.
  abbrev write_back : String → HmasTask → Exec S (Unit {0})
  write_back id task s = elim (lookup id s.hmas_task_issue_numbers) [
    | none ↦ (some tt, s)
    | some n ↦
        call_github tt
          (update_issue_body n
            (make_issue_body J (append_text "hmas-tasks/" id) (hmas_task_to_json J task)))
          s
  ]

  abbrev put : String → HmasTask → S → S
  put id t s = record s { hmas_tasks = insert id t s.hmas_tasks }

  -- The body of an update that finds the task `old`: `change` of it is put in place, the index is
  -- changed by `reindex`, and the result is written back.
  abbrev update_found :
      String → Option HmasTask → (HmasTask → HmasTask) → (HmasTask → S → S) → Exec S Bool
  update_found id none change reindex s = (some false, s)
  update_found id (some old) change reindex s =
      (do modify (λ s. reindex old (put id (change old) s)); write_back id (change old); pure true)
        s

  abbrev with_state : TaskState → HmasTask → HmasTask
  with_state state t = record t { state = state }

  unfoldable pub update_hmas_task_state : String → TaskState → Exec S Bool
  unfolding ensure_hmas_tasks_loaded
  update_hmas_task_state id state = do
    modify ensure_hmas_tasks_loaded
    (λ s. update_found id (lookup id s.hmas_tasks) (with_state state) (λ old s. s) s)

  unfoldable pub update_hmas_task_state_and_record_escalation :
      String → TaskState → EscalationRecord → Exec S Bool
  unfolding ensure_hmas_tasks_loaded
  update_hmas_task_state_and_record_escalation id state escalation = do
    modify ensure_hmas_tasks_loaded
    (λ s.
        update_found id (lookup id s.hmas_tasks)
          (λ t. record t { state = state; escalations = t.escalations ++ (escalation ∷ []) })
          (λ old s. s) s)

  abbrev reindex_to : HmasTask → HmasTask → S → S
  reindex_to task old s = record s {
    hmas_tasks_by_brief = move_brief task.id old.brief_id task.brief_id s.hmas_tasks_by_brief;
  }

  unfoldable pub update_hmas_task : HmasTask → Exec S Bool
  unfolding ensure_hmas_tasks_loaded move_brief
  update_hmas_task task = do
    modify ensure_hmas_tasks_loaded
    (λ s. update_found task.id (lookup task.id s.hmas_tasks) (λ _. task) (reindex_to task) s)

  unfoldable pub list_hmas_tasks_by_layer : HmasLayer → Exec S (List HmasTask)
  unfolding ensure_hmas_tasks_loaded select
  list_hmas_tasks_by_layer layer = do
    modify ensure_hmas_tasks_loaded
    gets (λ s. select (λ t. layer_eq t.layer layer) s.hmas_tasks)

  unfoldable pub list_hmas_tasks_by_parent : String → Exec S (List HmasTask)
  unfolding ensure_hmas_tasks_loaded select
  list_hmas_tasks_by_parent parent_id = do
    modify ensure_hmas_tasks_loaded
    gets (λ s. select (λ t. str_eq t.parent_task_id parent_id) s.hmas_tasks)

  unfoldable pub list_hmas_tasks_by_brief : String → Exec S (List HmasTask)
  unfolding ensure_hmas_tasks_loaded tasks_for
  list_hmas_tasks_by_brief brief_id = do
    modify ensure_hmas_tasks_loaded
    gets (λ s. tasks_for (bucket (lookup brief_id s.hmas_tasks_by_brief)) s.hmas_tasks)
