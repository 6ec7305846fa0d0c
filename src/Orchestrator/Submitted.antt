-- ===== src/Orchestrator/Submitted.antt =====
-- submit (src/orchestrator.cpp) as a whole.
use agamemnon.Base.{
  String, str_eq, str_eq_refl, if◌then◌else◌, ◌≡◌, ◌≢◌, subst, ap, ◌∙◌, true, List, ◌∷◌, none, some,
  arith,
}
use agamemnon.Base.Exec.{for_each}
use agamemnon.HmasTypes.{HmasTask, TaskBrief, pending, delegated}
use agamemnon.Json.{JsonLibrary}
use agamemnon.PlanningBreakdown.{decompose}
use agamemnon.PlanningBreakdown.Tree.{IsPlan-root, preorder-root}
use agamemnon.PlanningBreakdown.Wiring.Extension.{AllExtended}
use agamemnon.PlanningBreakdown.Decomposition.{decompose-IsPlan}
use agamemnon.Store.{GithubClient}
use agamemnon.Orchestrator.{uuid}
use agamemnon.Orchestrator.Unblocking.{W, at, IsReady}
use agamemnon.Orchestrator.Saving.{save-stores}
use agamemnon.Orchestrator.Submission.{submit, walk_root}
use agamemnon.Orchestrator.Planting.{
  latest, create, broken, submit_steps, start-stores, broken-IsReady, walk_root_ends,
  latest_without, creates-store,
}

module _ (J : JsonLibrary) (client : GithubClient J.Json) where
  open J use {Json}
  open client use {Github}

  root_pending :
      (now : String) (brief : TaskBrief) (w : W J client) (root : HmasTask) (rest : List HmasTask)
      → decompose (uuid w) now brief w.uuids_used ≡ some (root ∷ rest)
      → root.state ≡ pending
  root_pending now brief w r rest d =
      let (t, plan, all, _) = decompose-IsPlan (uuid w) now brief w.uuids_used (r ∷ rest) d in
      let (below, shape) = preorder-root t in
      let ((_, _, e), _) = subst (λ ts. AllExtended ts (r ∷ rest)) shape all in
      ap (λ (u : HmasTask). u.state) e ∙ IsPlan-root brief t plan

  -- What the creation of all tasks leaves.
  planted :
      (now b : String) (brief : TaskBrief) (w : W J client) (root : HmasTask) (rest : List HmasTask)
      → brief.id ≢ ""
      → IsReady J client w
      → w.store.briefs_loaded ≡ true
      → decompose (uuid w) now brief w.uuids_used ≡ some (root ∷ rest)
      → (submit J client now brief w).0 ≡ some b
      → let w3 =
          (for_each (root ∷ rest) (create J client) (broken J client brief (root ∷ rest) w)).1 in
        IsReady J client w3
        × ((k : String) → at J client w3 k ≡ latest k (root ∷ rest) (at J client w k))
  planted now b brief w root rest named r l d done =
      let (saved, made, _, _) = submit_steps J client now b brief w (root ∷ rest) named d done in
      let (r2, same) = broken-IsReady J client brief (root ∷ rest) w r l saved in
      let (r3, all) =
        creates-store J client (root ∷ rest) (broken J client brief (root ∷ rest) w) r2 made in
      (r3, λ k. all k ∙ ap (latest k (root ∷ rest)) (same k))

  -- If submit returns for a brief that has an id, it returns that id, and the tasks that decompose
  -- makes of the brief are stored, over what was stored under their ids: the root, if no other of
  -- them has its id, Delegated and otherwise as it was made, and of the others with one id the
  -- last. Every other task is as it was. The store is loaded and has each task under its own id.
  -- Its briefs are loaded too, and decompose returns a list that is not empty.
  pub submit_effect :
      (now b : String) (brief : TaskBrief) (w : W J client) (root : HmasTask) (rest : List HmasTask)
      → brief.id ≢ ""
      → IsReady J client w
      → w.store.briefs_loaded ≡ true
      → decompose (uuid w) now brief w.uuids_used ≡ some (root ∷ rest)
      → latest root.id rest none ≡ none
      → (submit J client now brief w).0 ≡ some b
      → (b ≡ brief.id)
        × ((k : String)
            → at J client (submit J client now brief w).1 k ≡ (
                if str_eq root.id k
                then some (record root { state = delegated })
                else latest k rest (at J client w k)))
  unfolding latest
  submit_effect now b brief w root rest named r l d alone done =
      let (saved, made, same_id, ends) =
        submit_steps J client now b brief w (root ∷ rest) named d done in
      let w3 =
        (for_each (root ∷ rest) (create J client) (broken J client brief (root ∷ rest) w)).1 in
      let (r3, all) = planted now b brief w root rest named r l d done in
      let waiting = root_pending now brief w root rest d in
      let here : at J client w3 root.id ≡ some root =
        all root.id
        ∙ ground
            (arith, latest_without J client root.id rest (some root) alone, str_eq_refl root.id) in
      let (_, put) =
        save-stores J client w3 root (walk_root J client now root) r3
          (ground (arith, here, walk_root_ends J client now root waiting)) in
      (
        same_id,
        λ k. ground (
          arith,
          ends,
          start-stores J client now brief.id w3 root root rest r3 here,
          put k,
          all k,
          walk_root_ends J client now root waiting,
        ),
      )
