-- ===== src/Orchestrator/Escalations.antt =====
-- What escalate (src/orchestrator.cpp) does.
use agamemnon.Base.{
  String, str_eq, if◌then◌else◌, ◌≡◌, ◌≢◌, ap, ◌∙◌, Bool, true, false, some, arith, Bool-cases,
  ◌&&◌, inl, inr,
}
use agamemnon.HmasTypes.{HmasTask, in_progress, escalated, state_eq}
use agamemnon.Json.{JsonLibrary}
use agamemnon.StateMachine.{try_transition}
use agamemnon.Store.{GithubClient}
use agamemnon.Store.Lookup.{get-loaded, IsReliable}
use agamemnon.Orchestrator.Delegation.{escalate, record_escalation, save_and_publish}
use agamemnon.Orchestrator.Unblocking.{W, at, IsReady}
use agamemnon.Orchestrator.Saving.{save-stores, save-returns}

module _ (J : JsonLibrary) (client : GithubClient J.Json) where
  open J use {Json, string, set, dump}
  open client use {Github}

  -- The task after an accepted escalation.
  abbrev pub raised : String → String → HmasTask → HmasTask
  raised now reason t = record_escalation J client now t.id reason (record t { state = escalated })

  escalate_saves :
      (now id reason : String) (w : W J client) (t : HmasTask)
      → IsReady J client w
      → at J client w id ≡ some t
      → t.state ≡ in_progress
      → (escalate J client now id reason w).1.store
        ≡ (save_and_publish J client (raised now reason t) w).1.store
  unfolding escalate try_transition
  escalate_saves now id reason w t r e s =
      ground (arith, get-loaded J client w.store id r.0, r.1 id t e)

  escalate_refused :
      (now id reason : String) (w : W J client) (t : HmasTask)
      → IsReady J client w
      → at J client w id ≡ some t
      → t.state ≢ in_progress
      → escalate J client now id reason w ≡ (some false, w)
  unfolding escalate try_transition
  escalate_refused now id reason w t r e s = ground (arith, get-loaded J client w.store id r.0)

  escalate_returns :
      (now id reason : String) (w : W J client) (t : HmasTask)
      → IsReliable J client
      → IsReady J client w
      → at J client w id ≡ some t
      → t.state ≡ in_progress
      → (escalate J client now id reason w).0 ≡ some true
  unfolding escalate try_transition
  escalate_returns now id reason w t ok r e s =
      let i = r.1 id t e in
      ground (
        arith,
        get-loaded J client w.store id r.0,
        i,
        save-returns J client w t (raised now reason t) ok r (ap (at J client w) i ∙ e),
      )

  abbrev pub is_running : HmasTask → Bool
  is_running t = state_eq t.state in_progress

  -- With a client whose updates never throw, escalate answers whether the stored task is
  -- InProgress. If it is, the task is Escalated, with a record of the reason, the time and its
  -- layer at the end of its escalations, and no other field of it and no other task changes. If it
  -- is not, nothing changes. The store is loaded and has each task under its own id.
  pub escalate_effect :
      (now id reason : String) (w : W J client) (t : HmasTask)
      → IsReliable J client
      → IsReady J client w
      → at J client w id ≡ some t
      → let (answer, w') = escalate J client now id reason w in
        (answer ≡ some (is_running t))
        × ((k : String)
            → at J client w' k ≡ (
                if str_eq id k && is_running t
                then some (raised now reason t)
                else at J client w k))
  escalate_effect now id reason w t ok r e = elim (Bool-cases (is_running t)) [
    | inl running ↦
        let i = r.1 id t e in
        let (_, saved) =
          save-stores J client w t (raised now reason t) r (ap (at J client w) i ∙ e) in
        let s : t.state ≡ in_progress = ground arith in
        (
          ground (arith, escalate_returns now id reason w t ok r e s),
          λ k. ground (arith, escalate_saves now id reason w t r e s, saved k, i),
        )
    | inr idle ↦
        let still : escalate J client now id reason w ≡ (some false, w) =
          escalate_refused now id reason w t r e (λ s. ground arith) in
        (ground (arith, still), λ k. ground (arith, still))
  ]
