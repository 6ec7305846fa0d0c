-- ===== src/Orchestrator/Effects.antt =====
-- What on_myrmidon_completion (src/orchestrator.cpp) does to a task that is not ended, and to its
-- children.
use agamemnon.Base.{
  String, str_eq_iff, str_eq_refl, subst, ◌≡◌, ◌≢◌, ap, ◌∙◌, false, ◌&&◌, some, arith, Option-cases,
  inl, inr,
}
use agamemnon.HmasTypes.{HmasTask, completed}
use agamemnon.Json.{JsonLibrary}
use agamemnon.Store.{GithubClient}
use agamemnon.Store.Lookup.{IsReliable}
use agamemnon.Orchestrator.{walk_to_completed}
use agamemnon.Orchestrator.Walks.{walk_to_completed_ends, ended, is_terminal}
use agamemnon.Orchestrator.Delegation.{delegate_unblocked_children}
use agamemnon.Orchestrator.Unblocking.{W, at, IsReady, is_free, freed_if}
use agamemnon.Orchestrator.Saving.{save-returns, clear-store}
use agamemnon.Orchestrator.Children.{has, clear-Frees, unblocks_every_clear_child}
use agamemnon.Orchestrator.Messages.{on_myrmidon_completion}
use agamemnon.Orchestrator.Completion.{
  Names, mark, walk_keeps, mark-stores, mark-Frees, completion_goes_on, completion_found, AfterDone,
}

module _ (J : JsonLibrary) (client : GithubClient J.Json) where
  open J use {Json}
  open client use {Github}

  ended_at :
      (now : String) (t : HmasTask)
      → is_terminal t.state ≡ false
      → walk_to_completed now t ≡ ended completed now t
  ended_at now t h = walk_to_completed_ends now t ∙ rw h

  -- A completion message that parses and names a stored task that is neither Completed nor Failed
  -- leaves that task Completed, with the time stamped, and no other field of it changed. Another task is
  -- as it was, or it went from Pending to Delegated: it is in the task's child list, and all its
  -- blockers are Completed afterwards. This holds whichever calls of GitHub throw, in a
  -- loaded store that has each task under its own id.
  pub completion_effect :
      (now payload id : String) (w : W J client) (t : HmasTask)
      → Names J client payload id
      → id ≢ ""
      → IsReady J client w
      → at J client w id ≡ some t
      → is_terminal t.state ≡ false
      → AfterDone J client w id
          (ended completed now t)
          (on_myrmidon_completion J client now payload w)
  completion_effect now payload id w t msg named r e unended =
      subst (λ t'. AfterDone J client w id t' (on_myrmidon_completion J client now payload w))
        (ended_at now t unended) (completion_found J client now payload id w t msg named r e)

  -- With a client whose updates never throw, the same message delegates every child that can be: a
  -- task in the child list that is Pending, with all of its blockers Completed once the message is
  -- handled, is Delegated, and every other task is as it was. The store is loaded and has each task
  -- under its own id.
  pub completion_unblocks :
      (now payload id : String) (w : W J client) (t : HmasTask)
      → IsReliable J client
      → Names J client payload id
      → id ≢ ""
      → IsReady J client w
      → at J client w id ≡ some t
      → is_terminal t.state ≡ false
      → let w' = on_myrmidon_completion J client now payload w in
        (k : String)
        → k ≢ id
        → at J client w' k
          ≡ freed_if J client
              (has k t.child_task_ids && is_free J client w' (at J client w k))
              (at J client w k)
  completion_unblocks now payload id w t ok msg named r e unended k other =
      let t' = walk_to_completed now t in
      let w1 = (mark J client now t w).1 in
      let w2 = (delegate_unblocked_children J client now id w1).1 in
      let w' = on_myrmidon_completion J client now payload w in
      let (i, c, _) = walk_keeps J client now t in
      let saves = save-returns J client w t t' ok r (ap (at J client w) (i ∙ r.1 id t e) ∙ e) in
      let same = completion_goes_on J client now payload id w t tt msg named r e saves in
      let (r1, saved) = mark-stores J client now id w t r e in
      let e1 : at J client w1 id ≡ some t' = ground (arith, saved id, str_eq_refl id) in
      let (_, exact) = unblocks_every_clear_child J client now id w1 ok r1 in
      elim (Option-cases (at J client w k)) [
        | inl n ↦ ground (arith, n, saved k, exact k, e1, c, str_eq_iff id k)
        | inr (u, n) ↦ ground (
          arith,
          n,
          saved k,
          exact k,
          e1,
          c,
          str_eq_iff id k,
          clear-store J client w' w2 u.blocked_by same,
          clear-Frees J client t'.child_task_ids u.blocked_by w1 w2
              (mark-Frees J client now id w t r e),
        )
      ]
