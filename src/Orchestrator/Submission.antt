-- ===== src/Orchestrator/Submission.antt =====
-- submit of src/orchestrator.cpp.
use Prim.Native.String.{◌++◌ as append_text}
use agamemnon.Base.{
  ◌+◌, String, Bool, List, [], ◌∷◌, Option, none, some, str_eq, length, if◌then◌else◌,
}
use agamemnon.Base.Int.{pos}
use agamemnon.Base.Exec.{Exec, pure, for_each, ◌>>=◌, ◌>>◌}
use agamemnon.HmasTypes.{HmasTask, TaskBrief}
use agamemnon.HmasTypes.Codec.{hmas_task_to_json}
use agamemnon.Json.{JsonLibrary}
use agamemnon.PlanningBreakdown.{decompose}
use agamemnon.StateMachine.{submit as submit_event, delegate as delegate_event, try_transition}
use agamemnon.Store.{GithubClient}
use agamemnon.Store.HmasTasks.{create_hmas_task, get_hmas_task}
use agamemnon.Store.Briefs.{create_task_brief}
use agamemnon.Orchestrator.{World, uuid, logged, on_store, send, fresh_uuid, dispatch_task}
use agamemnon.Orchestrator.Delegation.{save_and_publish}

abbrev is_empty : String → Bool
is_empty s = str_eq s ""

module _ (J : JsonLibrary) (client : GithubClient J.Json) where
  open J use {Json, null, string, integer, array, object, set, parse, members}
  open client use {Github}

  abbrev W : Type 0
  W = World Json Github

  abbrev named : TaskBrief → Exec W TaskBrief
  named brief =
      if is_empty brief.id
      then (do id ← fresh_uuid; pure (record brief { id = id }))
      else pure brief

  -- breakdown_.decompose(brief), which draws an id for each task that it makes. Where it throws, the
  -- ids that it has drawn do not matter.
  abbrev broken_down : String → TaskBrief → Exec W (List HmasTask)
  broken_down now brief w = elim (decompose (uuid w) now brief w.uuids_used) [
    | none ↦ (none, w)
    | some tasks ↦ (some tasks, record w { uuids_used = w.uuids_used + length tasks })
  ]

  -- The two transitions of a root that was just made.
  abbrev pub walk_root : String → HmasTask → HmasTask
  walk_root now root =
      (try_transition now (try_transition now root submit_event).0 delegate_event).0

  abbrev start_root : String → List HmasTask → HmasTask → Exec W (Unit {0})
  start_root brief_id tasks root = do
    save_and_publish J client root
    dispatch_task J root (set (hmas_task_to_json J root) "brief_id" (string brief_id))
    send (
        logged "hi.logs.agamemnon.brief_submitted" "info" (append_text "Brief submitted: " brief_id)
          (object (
            ("brief_id", string brief_id)
            ∷ ("root_task_id", string root.id)
            ∷ ("task_count", integer (pos (length tasks)))
            ∷ [])))

  abbrev start_found : String → String → List HmasTask → Option HmasTask → Exec W (Unit {0})
  start_found now brief_id tasks none = pure tt
  start_found now brief_id tasks (some root) = start_root brief_id tasks (walk_root now root)

  abbrev pub start_tree : String → String → List HmasTask → Exec W (Unit {0})
  start_tree now brief_id [] = pure tt
  start_tree now brief_id (first ∷ rest) = do
    root_opt ← on_store (get_hmas_task J client first.id)
    start_found now brief_id (first ∷ rest) root_opt

  -- The brief's id; `none` if anything on the way throws, with what was written before it kept.
  unfoldable pub submit : String → TaskBrief → Exec W String
  unfolding for_each
  submit now brief = do
    brief' ← named brief
    on_store (create_task_brief J client brief')
    tasks ← broken_down now brief'
    for_each tasks (λ t. on_store (create_hmas_task J client t))
    start_tree now brief'.id tasks
    pure brief'.id
