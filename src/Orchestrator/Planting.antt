-- ===== src/Orchestrator/Planting.antt =====
-- What submit (src/orchestrator.cpp) leaves in the store.
use agamemnon.Base.{
  ◌+◌, length, String, str_eq, str_eq_iff, if◌then◌else◌, ◌≡◌, ◌≢◌, refl, ap, ◌∙◌, true, List, [],
  ◌∷◌, Option, none, some, arith, Bool-cases, inl, inr,
}
use agamemnon.Base.Dict.{insert, lookup-insert}
use agamemnon.Base.Exec.{for_each}
use agamemnon.HmasTypes.{HmasTask, TaskBrief, pending, delegated}
use agamemnon.Json.{JsonLibrary}
use agamemnon.PlanningBreakdown.{decompose}
use agamemnon.StateMachine.{try_transition}
use agamemnon.Store.{GithubClient}
use agamemnon.Store.Briefs.{create_task_brief, ensure_briefs_loaded}
use agamemnon.Store.HmasTasks.{create_hmas_task}
use agamemnon.Store.Lookup.{create_done, get-loaded}
use agamemnon.Orchestrator.{on_store, uuid, dispatch_task}
use agamemnon.Orchestrator.Delegation.{save_and_publish}
use agamemnon.Orchestrator.Unblocking.{W, at, IsReady}
use agamemnon.Orchestrator.Submission.{submit, walk_root, start_tree}

-- The last task of the list that has this id, else `before`.
unfoldable pub latest : String → List HmasTask → Option HmasTask → Option HmasTask
latest k [] before = before
latest k (t ∷ ts) before = latest k ts (if str_eq t.id k then some t else before)

module _ (J : JsonLibrary) (client : GithubClient J.Json) where
  open J use {Json}
  open client use {Github}

  abbrev pub create : HmasTask → W J client → Option (Unit {0}) × W J client
  create t = on_store (create_hmas_task J client t)

  pub create-stores :
      (t : HmasTask) (w : W J client)
      → IsReady J client w
      → (create t w).0 ≡ some tt
      → let w' = (create t w).1 in
        IsReady J client w'
        × ((k : String) → at J client w' k ≡ (if str_eq t.id k then some t else at J client w k))
  create-stores t w r done =
      let (m, _, l, _) = create_done J client w.store t r.0 done in
      (
        (
          l,
          λ k u g.
              ground
                (arith, m, lookup-insert t.id k t w.store.hmas_tasks, r.1 k u, str_eq_iff t.id k),
        ),
        λ k. ground (arith, m, lookup-insert t.id k t w.store.hmas_tasks),
      )

  creates_go_on :
      (t : HmasTask) (ts : List HmasTask) (w : W J client)
      → (for_each (t ∷ ts) create w).0 ≡ some tt
      → ((create t w).0 ≡ some tt)
        × (for_each (t ∷ ts) create w ≡ for_each ts create (create t w).1)
  unfolding for_each
  creates_go_on t ts w done = (ground arith, ground arith)

  pub creates-store :
      (ts : List HmasTask) (w : W J client)
      → IsReady J client w
      → (for_each ts create w).0 ≡ some tt
      → let w' = (for_each ts create w).1 in
        IsReady J client w' × ((k : String) → at J client w' k ≡ latest k ts (at J client w k))
  unfolding for_each latest
  creates-store [] w r done = (r, λ k. refl)
  creates-store (t ∷ ts) w r done =
      let (first, goes) = creates_go_on t ts w done in
      let (r1, one) = create-stores t w r first in
      let (r2, more) = creates-store ts (create t w).1 r1 (ground (arith, goes)) in
      rw goes (r2, λ k. more k ∙ ap (latest k ts) (one k))

  pub brief-stores :
      (brief : TaskBrief) (w : W J client)
      → w.store.briefs_loaded ≡ true
      → (create_task_brief J client brief w.store).0 ≡ some tt
      → let s' = (create_task_brief J client brief w.store).1 in
        (s'.hmas_tasks ≡ w.store.hmas_tasks)
        × (s'.hmas_tasks_loaded ≡ w.store.hmas_tasks_loaded)
        × (s'.task_briefs ≡ insert brief.id brief w.store.task_briefs)
  unfolding create_task_brief ensure_briefs_loaded
  brief-stores brief w l done = ground arith

  -- The world after the brief is stored and broken down into `tasks`.
  abbrev pub broken : TaskBrief → List HmasTask → W J client → W J client
  broken brief tasks w =
      let w1 = (on_store (create_task_brief J client brief) w).1 in
      record w1 { uuids_used = w1.uuids_used + length tasks }

  pub submit_steps :
      (now b : String) (brief : TaskBrief) (w : W J client) (tasks : List HmasTask)
      → brief.id ≢ ""
      → decompose (uuid w) now brief w.uuids_used ≡ some tasks
      → (submit J client now brief w).0 ≡ some b
      → ((create_task_brief J client brief w.store).0 ≡ some tt)
        × ((for_each tasks create (broken brief tasks w)).0 ≡ some tt)
        × (b ≡ brief.id)
        × ((submit J client now brief w).1.store
            ≡ (start_tree J client now brief.id tasks
                (for_each tasks create (broken brief tasks w)).1).1.store)
  unfolding submit uuid
  submit_steps now b brief w tasks named d done = ground (arith, str_eq_iff brief.id "")

  -- The start of the tree stores the root again, after its two transitions.
  pub start-stores :
      (now b : String) (w : W J client) (root r : HmasTask) (rest : List HmasTask)
      → IsReady J client w
      → at J client w root.id ≡ some r
      → (start_tree J client now b (root ∷ rest) w).1.store
        ≡ (save_and_publish J client (walk_root J client now r) w).1.store
  unfolding dispatch_task
  start-stores now b w root r rest ready e =
      ground (arith, get-loaded J client w.store root.id ready.0)

  pub broken-IsReady :
      (brief : TaskBrief) (tasks : List HmasTask) (w : W J client)
      → IsReady J client w
      → w.store.briefs_loaded ≡ true
      → (create_task_brief J client brief w.store).0 ≡ some tt
      → IsReady J client (broken brief tasks w)
        × ((k : String) → at J client (broken brief tasks w) k ≡ at J client w k)
  broken-IsReady brief tasks w r l done =
      let (m, h, _) = brief-stores brief w l done in
      ((ground (arith, h, r.0), λ k u g. r.1 k u (ground (arith, m))), λ k. ground (arith, m))

  pub walk_root_ends :
      (now : String) (r : HmasTask)
      → r.state ≡ pending
      → walk_root J client now r ≡ record r { state = delegated }
  unfolding try_transition
  walk_root_ends now r h = ground arith

  latest-some : (k : String) (ts : List HmasTask) (t : HmasTask) → ¬ (latest k ts (some t) ≡ none)
  unfolding latest
  latest-some k [] t h = ground arith
  latest-some k (u ∷ ts) t h = elim (Bool-cases (str_eq u.id k)) [
    | inl same ↦ latest-some k ts u (ground (arith, h, same))
    | inr differs ↦ latest-some k ts t (ground (arith, h, differs))
  ]

  pub latest_without :
      (k : String) (ts : List HmasTask) (before : Option HmasTask)
      → latest k ts none ≡ none
      → latest k ts before ≡ before
  unfolding latest
  latest_without k [] before h = refl
  latest_without k (t ∷ ts) before h = elim (Bool-cases (str_eq t.id k)) [
    | inl same ↦ absurd (latest-some k ts t (ground (arith, h, same)))
    | inr differs ↦ rw differs (latest_without k ts before (ground (arith, h, differs)))
  ]
