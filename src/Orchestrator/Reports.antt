-- ===== src/Orchestrator/Reports.antt =====
-- What on_myrmidon_started and on_myrmidon_failed (src/orchestrator.cpp) do to the tasks.
use agamemnon.Base.{String, str_eq, str_eq_iff, if◌then◌else◌, ◌≡◌, ◌≢◌, ap, ◌∙◌, some, arith}
use agamemnon.HmasTypes.{HmasTask, in_progress, failed}
use agamemnon.Json.{JsonLibrary, value_string}
use agamemnon.Store.{GithubClient}
use agamemnon.Store.Lookup.{get-loaded}
use agamemnon.Orchestrator.{walk_to_started, walk_to_failed}
use agamemnon.Orchestrator.Walks.{walk_to_started_ends, walk_to_failed_ends, ended, is_terminal}
use agamemnon.Orchestrator.Delegation.{save_and_publish}
use agamemnon.Orchestrator.Unblocking.{W, at, IsReady}
use agamemnon.Orchestrator.Saving.{save-stores}
use agamemnon.Orchestrator.Messages.{
  assign, started, failure, on_myrmidon_started, on_myrmidon_failed,
}

module _ (J : JsonLibrary) (client : GithubClient J.Json) where
  open J use {Json, parse}
  open client use {Github}

  -- The payload parses, and has these texts, or leaves them out where they are empty.
  abbrev pub Has : String → String → String → Type 0
  Has payload key s = (m : Json) × (parse payload ≡ some m) × (value_string J m key "" ≡ some s)

  -- The task of `id` is replaced by `t'`, and no other is touched.
  abbrev pub Replaces : W J client → String → HmasTask → W J client → Type 0
  Replaces w id t' w' =
      (k : String) → at J client w' k ≡ (if str_eq id k then some t' else at J client w k)

  failure_saves :
      (now payload id : String) (w : W J client) (t : HmasTask)
      → Has payload "task_id" id
      → id ≢ ""
      → IsReady J client w
      → at J client w id ≡ some t
      → (on_myrmidon_failed J client now payload w).store
        ≡ (save_and_publish J client (walk_to_failed now t) w).1.store
  unfolding on_myrmidon_failed failure
  failure_saves now payload id w t (m, p, q) named r e =
      ground (arith, get-loaded J client w.store id r.0, str_eq_iff id "")

  -- A failure message that parses and names a stored task leaves it Failed with the time stamped,
  -- or, if it was Completed or Failed before, as it was; no other field of it and no other task
  -- changes. This holds whichever calls of GitHub throw. The store is loaded and has each task
  -- under its own id.
  pub failure_effect :
      (now payload id : String) (w : W J client) (t : HmasTask)
      → Has payload "task_id" id
      → id ≢ ""
      → IsReady J client w
      → at J client w id ≡ some t
      → Replaces w id
          (if is_terminal t.state then t else ended failed now t)
          (on_myrmidon_failed J client now payload w)
  failure_effect now payload id w t msg named r e k =
      let t' = walk_to_failed now t in
      let d = walk_to_failed_ends now t in
      let i : t'.id ≡ id = ground (arith, r.1 id t e) in
      let (_, saved) = save-stores J client w t t' r (ap (at J client w) i ∙ e) in
      ground (arith, failure_saves now payload id w t msg named r e, saved k, i, d)

  start_saves :
      (now payload id agent host : String) (w : W J client) (t : HmasTask) (m : Json)
      → parse payload ≡ some m
      → value_string J m "task_id" "" ≡ some id
      → value_string J m "agent_id" "" ≡ some agent
      → value_string J m "exec_host" "" ≡ some host
      → id ≢ ""
      → IsReady J client w
      → at J client w id ≡ some t
      → (on_myrmidon_started J client now payload w).store
        ≡ (save_and_publish J client (assign J client agent host (walk_to_started now t)) w).1.store
  unfolding on_myrmidon_started started
  start_saves now payload id agent host w t m p q a h named r e =
      ground (arith, get-loaded J client w.store id r.0, str_eq_iff id "")

  -- A start message that parses, names a stored task, and has texts or nothing for the agent and
  -- its host, leaves the task InProgress and assigned to the agent; a Completed or Failed task
  -- keeps its state, but is assigned all the same. Where the name of the agent is empty, the
  -- assignment stays as it was. No other field of it and no other task changes. This holds whichever calls of GitHub throw. The store is loaded and has each task under its own
  -- id.
  pub start_effect :
      (now payload id agent host : String) (w : W J client) (t : HmasTask) (m : Json)
      → parse payload ≡ some m
      → value_string J m "task_id" "" ≡ some id
      → value_string J m "agent_id" "" ≡ some agent
      → value_string J m "exec_host" "" ≡ some host
      → id ≢ ""
      → IsReady J client w
      → at J client w id ≡ some t
      → Replaces w id
          (assign J client agent host
            (if is_terminal t.state then t else record t { state = in_progress }))
          (on_myrmidon_started J client now payload w)
  start_effect now payload id agent host w t m p q a h named r e k =
      let t' = assign J client agent host (walk_to_started now t) in
      let d = walk_to_started_ends now t in
      let i : t'.id ≡ id = ground (arith, r.1 id t e) in
      let (_, saved) = save-stores J client w t t' r (ap (at J client w) i ∙ e) in
      ground (arith, start_saves now payload id agent host w t m p q a h named r e, saved k, i, d)
