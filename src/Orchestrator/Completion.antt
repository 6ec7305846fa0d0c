-- ===== src/Orchestrator/Completion.antt =====
-- What on_myrmidon_completion (src/orchestrator.cpp) does to the tasks.
use agamemnon.Base.{
  String, str_eq, str_eq_iff, str_eq_refl, subst, if◌then◌else◌, ◌≡◌, ◌≢◌, ap, ◌∙◌, Bool, true,
  false, Option, none, some, arith, Option-cases, inl, inr,
}
use agamemnon.HmasTypes.{HmasTask, pending}
use agamemnon.Json.{JsonLibrary}
use agamemnon.StateMachine.{try_transition}
use agamemnon.Store.{GithubClient}
use agamemnon.Store.Lookup.{get-loaded}
use agamemnon.Orchestrator.{walk_to_completed}
use agamemnon.Orchestrator.Delegation.{save_and_publish, delegate_unblocked_children}
use agamemnon.Orchestrator.Unblocking.{W, at, IsReady, is_free, freed_if}
use agamemnon.Orchestrator.Saving.{save-stores, clear-store}
use agamemnon.Orchestrator.Children.{
  has, children_of, Frees, clear-Frees, unblocks_only_clear_children,
}
use agamemnon.Orchestrator.Messages.{message_task_id, completion, on_myrmidon_completion}

module _ (J : JsonLibrary) (client : GithubClient J.Json) where
  open J use {Json, parse}
  open client use {Github}

  -- The payload parses, and names the task `id`.
  abbrev pub Names : String → String → Type 0
  Names payload id = (m : Json) × (parse payload ≡ some m) × (message_task_id J m ≡ some id)

  abbrev pub mark : String → HmasTask → W J client → Option (Unit {0}) × W J client
  mark now t = save_and_publish J client (walk_to_completed now t)

  -- The walk keeps what the loop over the children reads, and leaves no task Pending.
  pub walk_keeps :
      (now : String) (t : HmasTask)
      → let t' = walk_to_completed now t in
        (t'.id ≡ t.id) × (t'.child_task_ids ≡ t.child_task_ids) × ¬ (t'.state ≡ pending)
  unfolding walk_to_completed try_transition
  walk_keeps now t = ground arith

  pub mark-stores :
      (now id : String) (w : W J client) (t : HmasTask)
      → IsReady J client w
      → at J client w id ≡ some t
      → let w' = (mark now t w).1 in
        IsReady J client w'
        × ((k : String)
            → at J client w' k
              ≡ (if str_eq id k then some (walk_to_completed now t) else at J client w k))
  mark-stores now id w t r e =
      let t' = walk_to_completed now t in
      let i : t'.id ≡ id = (walk_keeps now t).0 ∙ r.1 id t e in
      let (r1, saved) = save-stores J client w t t' r (ap (at J client w) i ∙ e) in
      (r1, λ k. ground (arith, saved k))

  completion_thrown :
      (now payload id : String) (w : W J client) (t : HmasTask)
      → Names payload id
      → id ≢ ""
      → IsReady J client w
      → at J client w id ≡ some t
      → (mark now t w).0 ≡ none
      → (on_myrmidon_completion J client now payload w).store ≡ (mark now t w).1.store
  unfolding on_myrmidon_completion completion
  completion_thrown now payload id w t (m, p, q) named r e h =
      ground (arith, get-loaded J client w.store id r.0, str_eq_iff id "")

  pub completion_goes_on :
      (now payload id : String) (w : W J client) (t : HmasTask) (u : Unit {0})
      → Names payload id
      → id ≢ ""
      → IsReady J client w
      → at J client w id ≡ some t
      → (mark now t w).0 ≡ some u
      → (on_myrmidon_completion J client now payload w).store
        ≡ (delegate_unblocked_children J client now id (mark now t w).1).1.store
  unfolding on_myrmidon_completion completion
  completion_goes_on now payload id w t u (m, p, q) named r e h =
      ground (arith, get-loaded J client w.store id r.0, str_eq_iff id "")

  abbrev pub AfterDone : W J client → String → HmasTask → W J client → Type 0
  AfterDone w id t' w' =
      IsReady J client w'
      × (at J client w' id ≡ some t')
      × ((k : String)
          → k ≢ id
          → (b : Bool) × (b ≡ true
              → (is_free J client w' (at J client w k) ≡ true) × (has k t'.child_task_ids ≡ true))
            × (at J client w' k ≡ freed_if J client b (at J client w k)))

  done-Frees :
      (w w1 w' : W J client) (id : String) (t' : HmasTask)
      → t'.id ≡ id
      → ¬ (t'.state ≡ pending)
      → ((k : String) → at J client w1 k ≡ (if str_eq id k then some t' else at J client w k))
      → Frees J client t'.child_task_ids w1 w'
      → AfterDone w id t' w'
  done-Frees w w1 w' id t' i np saved f = (
    f.0,
    (let (b, only, e) = f.1 id in ground (arith, saved id, str_eq_iff id id, only, e)),
    λ k other.
        let (b, only, e) = f.1 k in
        elim (Option-cases (at J client w k)) [
          | inl n ↦ (
            b,
            ground (arith, saved k, str_eq_iff id k, only, e, n),
            ground (arith, saved k, str_eq_iff id k, only, e, n),
          )
          | inr (u, n) ↦ (
            b,
            ground (
              arith,
              saved k,
              str_eq_iff id k,
              only,
              e,
              n,
              clear-Frees J client t'.child_task_ids u.blocked_by w1 w' f,
            ),
            ground (arith, saved k, str_eq_iff id k, only, e, n),
          )
        ],
  )

  AfterDone-store :
      (w w' w'' : W J client) (id : String) (t' : HmasTask)
      → w'.store ≡ w''.store
      → AfterDone w id t' w''
      → AfterDone w id t' w'
  AfterDone-store w w' w'' id t' h (r, e, f) = (
    (ground arith, λ k u g. r.1 k u (ground arith)),
    ground arith,
    λ k other.
        let (b, only, g) = f k other in
        elim (Option-cases (at J client w k)) [
          | inl n ↦ (b, ground (arith, n), ground (arith, n))
          | inr (u, n) ↦
              (b, ground (arith, n, clear-store J client w' w'' u.blocked_by h), ground (arith, n))
        ],
  )

  pub mark-Frees :
      (now id : String) (w : W J client) (t : HmasTask)
      → IsReady J client w
      → at J client w id ≡ some t
      → let w1 = (mark now t w).1 in
        Frees J client
          (walk_to_completed now t).child_task_ids
          w1
          (delegate_unblocked_children J client now id w1).1
  mark-Frees now id w t r e =
      let w1 = (mark now t w).1 in
      let (r1, saved) = mark-stores now id w t r e in
      let e1 : at J client w1 id ≡ some (walk_to_completed now t) =
        ground (arith, saved id, str_eq_refl id) in
      subst
        (λ o.
          Frees J client (children_of J client o) w1
            (delegate_unblocked_children J client now id w1).1)
        e1 (unblocks_only_clear_children J client now id w1 r1)

  -- The effect of a completion message on the tasks, whichever state the task is in.
  pub completion_found :
      (now payload id : String) (w : W J client) (t : HmasTask)
      → Names payload id
      → id ≢ ""
      → IsReady J client w
      → at J client w id ≡ some t
      → AfterDone w id (walk_to_completed now t) (on_myrmidon_completion J client now payload w)
  completion_found now payload id w t msg named r e =
      let t' = walk_to_completed now t in
      let w1 = (mark now t w).1 in
      let w2 = (delegate_unblocked_children J client now id w1).1 in
      let w' = on_myrmidon_completion J client now payload w in
      let (r1, saved) = mark-stores now id w t r e in
      let (i, _, active) = walk_keeps now t in
      elim (Option-cases (mark now t w).0) [
        | inl thrown ↦
            AfterDone-store w w' w1 id t'
              (completion_thrown now payload id w t msg named r e thrown)
              (done-Frees w w1 w1 id t' (i ∙ r.1 id t e) active saved
                (r1, λ k. (false, ground arith, ground arith)))
        | inr (u, goes) ↦
            AfterDone-store w w' w2 id t'
              (completion_goes_on now payload id w t u msg named r e goes)
              (done-Frees w w1 w2 id t' (i ∙ r.1 id t e) active saved (mark-Frees now id w t r e))
      ]
