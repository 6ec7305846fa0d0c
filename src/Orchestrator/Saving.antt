-- ===== src/Orchestrator/Saving.antt =====
-- What storing a task (save_and_publish of Orchestrator.Delegation) does to the tasks.
use agamemnon.Base.{
  String, str_eq, str_eq_iff, if◌then◌else◌, ◌≡◌, List, [], ◌∷◌, some, arith, refl,
}
use agamemnon.Base.Dict.{lookup-insert}
use agamemnon.HmasTypes.{HmasTask}
use agamemnon.Json.{JsonLibrary}
use agamemnon.Store.{GithubClient}
use agamemnon.Store.Lookup.{update_found, update_returns, IsReliable}
use agamemnon.Orchestrator.{publish_task_state}
use agamemnon.Orchestrator.Delegation.{save_and_publish}
use agamemnon.Orchestrator.Unblocking.{W, at, IsReady, clear}

module _ (J : JsonLibrary) (client : GithubClient J.Json) where
  open J use {Json}
  open client use {Github}

  -- What save_and_publish writes, whether or not the call of GitHub throws.
  pub save-stores :
      (w : W J client) (t t' : HmasTask)
      → IsReady J client w
      → at J client w t'.id ≡ some t
      → let w' = (save_and_publish J client t' w).1 in
        IsReady J client w'
        × ((k : String) → at J client w' k ≡ (if str_eq t'.id k then some t' else at J client w k))
  unfolding save_and_publish publish_task_state
  save-stores w t t' r e =
      let (m, _, l, _) = update_found J client w.store t' t r.0 e in
      (
        (
          ground (arith, l),
          λ k u f.
              ground (
                arith,
                m,
                lookup-insert t'.id k t' w.store.hmas_tasks,
                r.1 k u,
                str_eq_iff t'.id k,
              ),
        ),
        λ k. ground (arith, m, lookup-insert t'.id k t' w.store.hmas_tasks),
      )

  pub save-returns :
      (w : W J client) (t t' : HmasTask)
      → IsReliable J client
      → IsReady J client w
      → at J client w t'.id ≡ some t
      → (save_and_publish J client t' w).0 ≡ some tt
  unfolding save_and_publish publish_task_state
  save-returns w t t' ok r e = ground (arith, update_returns J client w.store t' t ok r.0 e)

  pub clear-store :
      (w w' : W J client) (bs : List String)
      → w.store ≡ w'.store
      → clear J client w bs ≡ clear J client w' bs
  unfolding clear
  clear-store w w' [] h = refl
  clear-store w w' (b ∷ bs) h = ground (arith, clear-store w w' bs h)
