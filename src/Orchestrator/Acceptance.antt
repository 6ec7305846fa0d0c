-- ===== src/Orchestrator/Acceptance.antt =====
-- submit (src/orchestrator.cpp) returns if GitHub accepts every call.
use agamemnon.Base.{
  String, str_eq_iff, ◌≡◌, ◌≢◌, refl, ap, ◌∙◌, true, List, [], ◌∷◌, none, some, arith, Option-cases,
  inl, inr,
}
use agamemnon.Base.Exec.{for_each}
use agamemnon.HmasTypes.{HmasTask, TaskBrief}
use agamemnon.Json.{JsonLibrary}
use agamemnon.PlanningBreakdown.{decompose}
use agamemnon.Store.{GithubClient}
use agamemnon.Store.Briefs.{create_task_brief, ensure_briefs_loaded}
use agamemnon.Store.HmasTasks.{create_hmas_task}
use agamemnon.Store.Lookup.{IsReliable, ensure_loaded, get-loaded}
use agamemnon.Orchestrator.{uuid, dispatch_task}
use agamemnon.Orchestrator.Unblocking.{W, at, IsReady}
use agamemnon.Orchestrator.Saving.{save-returns}
use agamemnon.Orchestrator.Submission.{submit, walk_root, start_tree}
use agamemnon.Orchestrator.Planting.{create, create-stores, creates-store, broken, broken-IsReady}
use agamemnon.StateMachine.{try_transition}

module _ (J : JsonLibrary) (client : GithubClient J.Json) where
  open J use {Json}
  open client use {Github}

  -- The client's creations never throw.
  abbrev pub IsAccepting : Type 0
  IsAccepting =
      (title body label : String) (g : Github)
      → ¬ ((client.create_issue title body label g).0 ≡ none)

  create_returns :
      (t : HmasTask) (w : W J client)
      → IsAccepting
      → IsReady J client w
      → (create J client t w).0 ≡ some tt
  unfolding create_hmas_task
  create_returns t w accepts r = grind (arith, ensure_loaded J client w.store r.0, accepts)

  creates_return :
      (ts : List HmasTask) (w : W J client)
      → IsAccepting
      → IsReady J client w
      → (for_each ts (create J client) w).0 ≡ some tt
  unfolding for_each
  creates_return [] w accepts r = refl
  creates_return (t ∷ ts) w accepts r =
      let done = create_returns t w accepts r in
      let (r1, _) = create-stores J client t w r done in
      ground (arith, done, creates_return ts (create J client t w).1 accepts r1)

  brief_returns :
      (brief : TaskBrief) (w : W J client)
      → IsAccepting
      → w.store.briefs_loaded ≡ true
      → (create_task_brief J client brief w.store).0 ≡ some tt
  unfolding create_task_brief ensure_briefs_loaded
  brief_returns brief w accepts l = grind (arith, accepts)

  walk_root_id : (now : String) (t : HmasTask) → (walk_root J client now t).id ≡ t.id
  unfolding try_transition
  walk_root_id now t = ground arith

  start_returns :
      (now b : String) (root : HmasTask) (rest : List HmasTask) (w : W J client)
      → IsReliable J client
      → IsReady J client w
      → (start_tree J client now b (root ∷ rest) w).0 ≡ some tt
  unfolding dispatch_task
  start_returns now b root rest w ok r = elim (Option-cases (at J client w root.id)) [
    | inl absent ↦ ground (arith, get-loaded J client w.store root.id r.0, absent)
    | inr (t, e) ↦
        let t' = walk_root J client now t in
        let i : t'.id ≡ root.id = walk_root_id now t ∙ r.1 root.id t e in
        ground (
          arith,
          get-loaded J client w.store root.id r.0,
          e,
          save-returns J client w t t' ok r (ap (at J client w) i ∙ e),
        )
  ]

  -- If no creation and no update of an issue throws, and the brief has an id and can be broken
  -- down, then submit returns that id. The store is loaded and has each task under its own id. Its
  -- briefs are loaded too.
  pub submit_returns :
      (now : String) (brief : TaskBrief) (w : W J client) (root : HmasTask) (rest : List HmasTask)
      → IsAccepting
      → IsReliable J client
      → brief.id ≢ ""
      → IsReady J client w
      → w.store.briefs_loaded ≡ true
      → decompose (uuid w) now brief w.uuids_used ≡ some (root ∷ rest)
      → (submit J client now brief w).0 ≡ some brief.id
  unfolding submit uuid
  submit_returns now brief w root rest accepts ok named r l d =
      let tasks = root ∷ rest in
      let saved = brief_returns brief w accepts l in
      let (r2, _) = broken-IsReady J client brief tasks w r l saved in
      let w2 = broken J client brief tasks w in
      let made = creates_return tasks w2 accepts r2 in
      let (r3, _) = creates-store J client tasks w2 r2 made in
      let started =
        start_returns now brief.id root rest (for_each tasks (create J client) w2).1 ok r3 in
      ground (arith, str_eq_iff brief.id "", saved, made, started)
