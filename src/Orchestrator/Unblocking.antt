-- ===== src/Orchestrator/Unblocking.antt =====
-- One step of delegate_unblocked_children (src/orchestrator.cpp): what it does with a child.
use agamemnon.Base.{
  String, str_eq, str_eq_iff, if◌then◌else◌, ◌≡◌, refl, Bool, true, false, ◌&&◌, List, [], ◌∷◌,
  Option, none, some, arith, Option-cases, Bool-cases, inl, inr,
}
use agamemnon.Base.Dict.{insert, lookup-insert}
use agamemnon.HmasTypes.{HmasTask, pending, delegated, state_eq}
use agamemnon.Json.{JsonLibrary}
use agamemnon.Store.{GithubClient}
use agamemnon.Store.Lookup.{IsLoaded, task_at, get-loaded, update_found, update_returns, IsReliable}
use agamemnon.Orchestrator.{World, publish_task_state, dispatch_task}
use agamemnon.Orchestrator.Walks.{walk_to_delegated_ends}
use agamemnon.Orchestrator.Delegation.{
  save_and_publish, delegate, all_clear, consider, is_completed,
}

module _ (J : JsonLibrary) (client : GithubClient J.Json) where
  open J use {Json}
  open client use {Github}

  abbrev pub W : Type 0
  W = World Json Github

  -- The task that is stored for an id.
  abbrev pub at : W → String → Option HmasTask
  at w id = task_at J client w.store id

  abbrev pub IsReady : W → Type 0
  IsReady w = IsLoaded J client w.store × ((k : String) (t : HmasTask) → at w k ≡ some t → t.id ≡ k)

  -- Whether every id has a completed task.
  unfoldable pub clear : W → List String → Bool
  clear w [] = true
  clear w (b ∷ bs) = is_completed J client (at w b) && clear w bs

  all_clear-clear :
      (w : W) (bs : List String) → IsReady w → all_clear J client bs w ≡ (some (clear w bs), w)
  unfolding all_clear clear
  all_clear-clear w [] r = refl
  all_clear-clear w (b ∷ bs) r =
      ground (arith, get-loaded J client w.store b r.0, all_clear-clear w bs r)

  -- Whether the child is to be delegated.
  abbrev pub is_free : W → Option HmasTask → Bool
  is_free w none = false
  is_free w (some t) = state_eq t.state pending && clear w t.blocked_by

  abbrev pub freed : HmasTask → HmasTask
  freed t = record t { state = delegated }

  consider_passes_over :
      (now c : String) (w : W)
      → IsReady w
      → is_free w (at w c) ≡ false
      → consider J client now c w ≡ (some tt, w)
  unfolding consider
  consider_passes_over now c w r h = elim (Option-cases (at w c)) [
    | inl e ↦ ground (arith, get-loaded J client w.store c r.0, e)
    | inr (t, e) ↦
        ground (arith, get-loaded J client w.store c r.0, e, all_clear-clear w t.blocked_by r)
  ]

  -- What delegating a pending task writes, whether or not the call of GitHub throws.
  delegate-pending :
      (now c : String) (w : W) (t : HmasTask)
      → IsReady w
      → at w c ≡ some t
      → t.state ≡ pending
      → let s' = (delegate J client now c w).1.store in
        (s'.hmas_tasks ≡ insert c (freed t) w.store.hmas_tasks) × IsLoaded J client s'
  unfolding delegate save_and_publish publish_task_state dispatch_task
  delegate-pending now c w t r e p = ground (
    arith,
    get-loaded J client w.store c r.0,
    walk_to_delegated_ends now t,
    r.1 c t e,
    update_found J client w.store (freed t) t r.0,
  )

  consider_delegates :
      (now c : String) (w : W) (t : HmasTask)
      → IsReady w
      → at w c ≡ some t
      → is_free w (some t) ≡ true
      → (consider J client now c w).1 ≡ (delegate J client now c w).1
  unfolding consider
  consider_delegates now c w t r e h =
      ground (arith, get-loaded J client w.store c r.0, all_clear-clear w t.blocked_by r, r.1 c t e)

  -- With a client whose updates never throw, it is accepted.
  delegate_returns :
      (now c : String) (w : W) (t : HmasTask)
      → IsReliable J client
      → IsReady w
      → at w c ≡ some t
      → t.state ≡ pending
      → (delegate J client now c w).0 ≡ some true
  unfolding delegate save_and_publish publish_task_state dispatch_task
  delegate_returns now c w t ok r e p = ground (
    arith,
    get-loaded J client w.store c r.0,
    walk_to_delegated_ends now t,
    r.1 c t e,
    update_returns J client w.store (freed t) t ok r.0,
  )

  pub consider_returns :
      (now c : String) (w : W)
      → IsReliable J client
      → IsReady w
      → (consider J client now c w).0 ≡ some tt
  unfolding consider
  consider_returns now c w ok r = elim (Option-cases (at w c)) [
    | inl e ↦ ground (arith, get-loaded J client w.store c r.0, e)
    | inr (t, e) ↦ ground (
      arith,
      get-loaded J client w.store c r.0,
      e,
      all_clear-clear w t.blocked_by r,
      r.1 c t e,
      delegate_returns now c w t ok r e,
    )
  ]

  -- The task of an id, after it is freed if the test says so.
  abbrev pub freed_if : Bool → Option HmasTask → Option HmasTask
  freed_if b none = none
  freed_if b (some t) = some (if b then freed t else t)

  free_considered :
      (now c : String) (w : W) (t : HmasTask)
      → IsReady w
      → at w c ≡ some t
      → is_free w (some t) ≡ true
      → let w' = (consider J client now c w).1 in
        IsReady w' × ((k : String) → at w' k ≡ (if str_eq c k then some (freed t) else at w k))
  free_considered now c w t r e h =
      let (m, l) = delegate-pending now c w t r e (ground arith) in
      rw (consider_delegates now c w t r e h) (
        (
          l,
          λ k u f. ground (
            arith,
            m,
            lookup-insert c k (freed t) w.store.hmas_tasks,
            r.1 k u,
            r.1 c t,
            str_eq_iff c k,
          ),
        ),
        λ k. ground (arith, m, lookup-insert c k (freed t) w.store.hmas_tasks),
      )

  -- What considering one child does to the task of each id.
  pub consider_effect :
      (now c : String) (w : W)
      → IsReady w
      → let w' = (consider J client now c w).1 in
        IsReady w' × ((k : String) → at w' k ≡ freed_if (str_eq c k && is_free w (at w k)) (at w k))
  consider_effect now c w r = elim (Bool-cases (is_free w (at w c))) [
    | inr busy ↦
        rw (consider_passes_over now c w r busy) (r, λ k. ground (arith, busy, str_eq_iff c k))
    | inl idle ↦ elim (Option-cases (at w c)) [
      | inl e ↦ ground (arith, idle, e)
      | inr (t, e) ↦
          let (r', f) = free_considered now c w t r e (ground (arith, idle, e)) in
          (r', λ k. ground (arith, f k, str_eq_iff c k, idle, e))
    ]
  ]
