-- ===== src/Orchestrator.antt =====
-- include/agamemnon/orchestrator.hpp and src/orchestrator.cpp: the state that the orchestrator works
-- on, what it publishes, and the walks through the state machine. The handlers are in the children.
pub mod Delegation
pub mod Messages
pub mod Submission
pub mod Planting
pub mod Submitted
pub mod Acceptance
pub mod SubmitExamples
pub mod DispatchExamples
pub mod Epics
pub mod Plans
pub mod Splitting
pub mod Walks
pub mod Unblocking
pub mod Saving
pub mod Children
pub mod Completion
pub mod Effects
pub mod Reports
pub mod Escalations
pub mod Dispatches
pub mod Frame
pub mod Stalls
pub mod Examples
use Prim.Native.Char.{code}
use Prim.Native.String.{◌++◌ as append_text, char_at}
use agamemnon.Base.{
  ℕ, suc, ◌-◌, String, Bool, true, false, ◌&&◌, List, [], ◌∷◌, ◌++◌, Option, none, some, leb,
  str_eq, if◌then◌else◌,
}
use agamemnon.Base.Int.{ℤ, is_zero}
use agamemnon.Base.Exec.{Exec, modify, ◌>>=◌, ◌>>◌}
use agamemnon.HmasTypes.{
  HmasLayer, TaskState, HmasTask, l0_chief_architect, l1_component_lead, l2_module_lead,
  l3_task_agent, pending, decomposing, delegated, escalated, state_eq, task_state_to_string,
  mesh_role_name, mesh_dispatch_subject,
}
use agamemnon.HmasTypes.Codec.{hmas_task_to_json}
use agamemnon.Json.{JsonLibrary, find}
use agamemnon.StateMachine.{
  TaskEvent, try_transition, submit, delegate, start, retry, complete, fail,
}
use agamemnon.Store.{Store}
use agamemnon.Uuid.{generate_uuid}

-- A call of the NATS publisher, whose answer the orchestrator does not look at.
pub data Publication (Json : Type 0) : Type 0 where
  published : String → String → Publication Json
  logged : String → String → String → Json → Publication Json

-- The store, the publisher's calls so far (oldest first), and the random draws of generate_uuid with
-- the number of its calls so far.
pub record World (Json Github : Type 0) : Type 0 where
  pub store : Store Json Github
  pub sent : List (Publication Json)
  pub draws : ℕ → ℕ → ℕ
  pub uuids_used : ℕ

-- The id that the n-th call of generate_uuid gives.
unfoldable pub uuid : {Json Github : Type 0} → World Json Github → ℕ → String
uuid w n = generate_uuid (w.draws n)

module _ {Json Github : Type 0} where
  -- An operation of the store.
  abbrev pub on_store : {A : Type 0} → Exec (Store Json Github) A → Exec (World Json Github) A
  on_store m w = let (r, s) = m w.store in (r, record w { store = s })

  abbrev pub send : Publication Json → Exec (World Json Github) (Unit {0})
  send p = modify (λ w. record w { sent = w.sent ++ (p ∷ []) })

  abbrev pub fresh_uuid : Exec (World Json Github) String
  fresh_uuid w = (some (uuid w w.uuids_used), record w { uuids_used = suc w.uuids_used })

-- std::tolower on the characters of a text.
lower : String → String
lower String.[] = String.[]
lower (String.◌∷◌ c s) =
    String.◌∷◌
      (if leb b'A' (code c) && leb (code c) b'Z'
        then char_at "abcdefghijklmnopqrstuvwxyz" (code c - b'A')
        else c)
      (lower s)

layer_token : HmasLayer → String
layer_token l0_chief_architect = "chief_architect"
layer_token l1_component_lead = "component_lead"
layer_token l2_module_lead = "module_lead"
layer_token l3_task_agent = "task_agent"

unfoldable pub myrmidon_subject : HmasLayer → String → String
unfolding layer_token
myrmidon_subject layer task_id =
    append_text "hi.myrmidon." (append_text (layer_token layer) (append_text "." task_id))

unfoldable pub task_state_subject : TaskState → String
unfolding lower
task_state_subject state = append_text "hi.tasks." (lower (task_state_to_string state))

module _ (J : JsonLibrary) where
  open J use {Json, string, integer, set}

  abbrev with_team : Json → Option Json → Json
  with_team payload none = set payload "team_id" (string "mesh")
  with_team payload (some _) = payload

  -- The pointer fields of the worker claim loop, added to a payload.
  unfoldable pub claim_payload : HmasTask → Json → Json
  claim_payload task payload =
      let a = set payload "task_id" (string task.id) in
      let b = with_team a (find J a "team_id") in
      let c = set b "role" (string (mesh_role_name task.layer)) in
      let d = set c "domain" (string "pipeline") in
      if is_zero task.issue then d else set d "issue" (integer task.issue)

module _ (J : JsonLibrary) {Github : Type 0} where
  open J use {Json, string, set, dump}

  unfoldable pub publish_task_state : HmasTask → Exec (World Json Github) (Unit {0})
  unfolding task_state_subject
  publish_task_state task = send (
      published (task_state_subject task.state)
        (dump (set (hmas_task_to_json J task) "brief_id" (string task.brief_id))))

  unfoldable pub dispatch_task : HmasTask → Json → Exec (World Json Github) (Unit {0})
  unfolding claim_payload
  dispatch_task task payload = do
    let dumped = dump (claim_payload J task payload)
    send (published (myrmidon_subject task.layer task.id) dumped)
    send (published (mesh_dispatch_subject "pipeline" (mesh_role_name task.layer) task.id) dumped)

-- The walks towards InProgress, each step taken only from the state that it is for.
abbrev pub step : String → TaskEvent → HmasTask → HmasTask
step now e t = (try_transition now t e).0

abbrev pub step_from : TaskState → String → TaskEvent → HmasTask → HmasTask
step_from s now e t = if state_eq t.state s then step now e t else t

-- A leaf goes from Pending to Delegated; another task must Submit first.
abbrev pub leave_pending : String → HmasTask → HmasTask
leave_pending now t =
    if state_eq t.state pending
    then (if (try_transition now t delegate).1
        then (try_transition now t delegate).0
        else step now submit (try_transition now t delegate).0)
    else t

unfoldable pub walk_to_completed : String → HmasTask → HmasTask
walk_to_completed now t = step now complete (
    step_from delegated now start
      (step_from decomposing now delegate (leave_pending now (step_from escalated now retry t))))

-- Start is tried in every state that the walk before it leads to.
unfoldable pub walk_to_started : String → HmasTask → HmasTask
walk_to_started now t =
    step now start
      (step_from decomposing now delegate (leave_pending now (step_from escalated now retry t)))

unfoldable pub walk_to_failed : String → HmasTask → HmasTask
walk_to_failed now t =
    step now fail
      (step_from delegated now start (step_from decomposing now delegate (leave_pending now t)))

-- Delegate; where that is refused from Pending, Submit and then Delegate. The Boolean says whether
-- the last Delegate was accepted.
unfoldable pub walk_to_delegated : String → HmasTask → HmasTask × Bool
walk_to_delegated now t =
    if (try_transition now t delegate).1
    then try_transition now t delegate
    else if state_eq (try_transition now t delegate).0.state pending
        && (try_transition now (try_transition now t delegate).0 submit).1
    then try_transition now (try_transition now (try_transition now t delegate).0 submit).0 delegate
    else ((try_transition now t delegate).0, false)
