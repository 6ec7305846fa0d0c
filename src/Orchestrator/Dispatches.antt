-- ===== src/Orchestrator/Dispatches.antt =====
-- What delegate (src/orchestrator.cpp) does to the tasks, and what it publishes.
use mathlib.Core.List.{append-nil, append_assoc}
use agamemnon.Base.{
  String, str_eq, if◌then◌else◌, ◌≡◌, refl, ap, ◌∙◌, Bool, true, false, ◌&&◌, ◌||◌, List, [], ◌∷◌,
  ◌++◌, some, arith, Bool-cases, inl, inr,
}
use agamemnon.HmasTypes.{
  HmasTask, pending, decomposing, state_eq, mesh_role_name, mesh_dispatch_subject,
}
use agamemnon.HmasTypes.Codec.{hmas_task_to_json}
use agamemnon.Json.{JsonLibrary}
use agamemnon.Store.{GithubClient}
use agamemnon.Store.Lookup.{get-loaded, IsReliable}
use agamemnon.Orchestrator.{
  Publication, published, myrmidon_subject, task_state_subject, claim_payload, publish_task_state,
  dispatch_task,
}
use agamemnon.Orchestrator.Walks.{walk_to_delegated_ends}
use agamemnon.Orchestrator.Delegation.{delegate, save_and_publish}
use agamemnon.Orchestrator.Unblocking.{W, at, IsReady, freed}
use agamemnon.Orchestrator.Saving.{save-stores, save-returns}

module _ (J : JsonLibrary) (client : GithubClient J.Json) where
  open J use {Json, string, set, dump}
  open client use {Github}

  abbrev pub is_open : HmasTask → Bool
  is_open t = state_eq t.state pending || state_eq t.state decomposing

  -- The new state, and the task with its pointer fields on the old and on the new subject.
  abbrev pub dispatches : HmasTask → List (Publication Json)
  dispatches t =
      let payload = dump (claim_payload J t (hmas_task_to_json J t)) in
      published (task_state_subject t.state)
        (dump (set (hmas_task_to_json J t) "brief_id" (string t.brief_id)))
      ∷ published (myrmidon_subject t.layer t.id) payload
      ∷ published (mesh_dispatch_subject "pipeline" (mesh_role_name t.layer) t.id) payload
      ∷ []

  save-sent :
      (t : HmasTask) (w : W J client)
      → (save_and_publish J client t w).0 ≡ some tt
      → (save_and_publish J client t w).1.sent
        ≡ w.sent
          ++ (published
                (task_state_subject t.state)
                (dump (set (hmas_task_to_json J t) "brief_id" (string t.brief_id)))
              ∷ [])
  unfolding save_and_publish publish_task_state
  save-sent t w h = ground arith

  dispatch-sent :
      (t : HmasTask) (payload : Json) (w : W J client)
      → let out = dispatch_task J t payload w in
        let dumped = dump (claim_payload J t payload) in
        (out.0 ≡ some tt)
        × (out.1.store ≡ w.store)
        × (out.1.sent
            ≡ (w.sent ++ (published (myrmidon_subject t.layer t.id) dumped ∷ []))
              ++ (published (mesh_dispatch_subject "pipeline" (mesh_role_name t.layer) t.id) dumped
                  ∷ []))
  unfolding dispatch_task
  dispatch-sent t payload w = (refl, refl, refl)

  delegate_runs :
      (now id : String) (w : W J client) (t : HmasTask)
      → IsReady J client w
      → at J client w id ≡ some t
      → is_open t ≡ true
      → (save_and_publish J client (freed J client t) w).0 ≡ some tt
      → delegate J client now id w ≡ (
        some true,
        (dispatch_task J
            (freed J client t)
            (hmas_task_to_json J (freed J client t))
            (save_and_publish J client (freed J client t) w).1).1,
      )
  unfolding delegate dispatch_task
  delegate_runs now id w t r e h done =
      ground (arith, get-loaded J client w.store id r.0, walk_to_delegated_ends now t)

  delegate_accepted :
      (now id : String) (w : W J client) (t : HmasTask)
      → IsReady J client w
      → at J client w id ≡ some t
      → is_open t ≡ true
      → (save_and_publish J client (freed J client t) w).0 ≡ some tt
      → let saved = (save_and_publish J client (freed J client t) w).1 in
        let out = delegate J client now id w in
        (out.0 ≡ some true)
        × (out.1.store ≡ saved.store)
        × (out.1.sent ≡ w.sent ++ dispatches (freed J client t))
  delegate_accepted now id w t r e h done =
      let t' = freed J client t in
      let saved = (save_and_publish J client t' w).1 in
      let (_, kept, sent) = dispatch-sent t' (hmas_task_to_json J t') saved in
      rw (delegate_runs now id w t r e h done)
        (refl, kept, sent ∙ rw (save-sent t' w done, append_assoc, append_assoc))

  delegate_refused :
      (now id : String) (w : W J client) (t : HmasTask)
      → IsReady J client w
      → at J client w id ≡ some t
      → is_open t ≡ false
      → delegate J client now id w ≡ (some false, w)
  unfolding delegate
  delegate_refused now id w t r e h =
      ground (arith, get-loaded J client w.store id r.0, walk_to_delegated_ends now t)

  -- With a client whose updates never throw, delegate answers whether the stored task is Pending or
  -- Decomposing. If it is, the task is Delegated, with no other field of it and no other task
  -- changed, and its new state and its payload on the two subjects are published, in this order. If
  -- it is not, nothing changes and nothing is published. The store is loaded and has each task
  -- under its own id.
  pub delegate_effect :
      (now id : String) (w : W J client) (t : HmasTask)
      → IsReliable J client
      → IsReady J client w
      → at J client w id ≡ some t
      → let (answer, w') = delegate J client now id w in
        (answer ≡ some (is_open t))
        × ((k : String)
            → at J client w' k
              ≡ (if str_eq id k && is_open t then some (freed J client t) else at J client w k))
        × (w'.sent ≡ w.sent ++ (if is_open t then dispatches (freed J client t) else []))
  delegate_effect now id w t ok r e = elim (Bool-cases (is_open t)) [
    | inl open_state ↦
        let i = r.1 id t e in
        let here = ap (at J client w) i ∙ e in
        let (_, saved) = save-stores J client w t (freed J client t) r here in
        let (yes_said, kept, published_all) =
          delegate_accepted now id w t r e open_state
            (save-returns J client w t (freed J client t) ok r here) in
        (
          ground (arith, yes_said, open_state),
          λ k. ground (arith, kept, saved k, i, open_state),
          published_all ∙ rw open_state,
        )
    | inr busy ↦
        let still = delegate_refused now id w t r e busy in
        (
          ground (arith, still, busy),
          λ k. ground (arith, still, busy),
          ground (arith, still, busy, append-nil w.sent),
        )
  ]
