-- ===== src/Orchestrator/Frame.antt =====
-- The messages that on_myrmidon_completion (src/orchestrator.cpp) passes over, and what every one of
-- its calls leaves alone.
use agamemnon.Base.{
  String, str_eq, str_eq_iff, ◌≡◌, ◌≢◌, subst, sym, false, none, some, arith, Option-cases,
  Bool-cases, inl, inr,
}
use agamemnon.HmasTypes.{HmasTask}
use agamemnon.Json.{JsonLibrary}
use agamemnon.Store.{GithubClient}
use agamemnon.Store.Tasks.Keeps.{mark_task_completed-keeps}
use agamemnon.Store.Lookup.{get-loaded}
use agamemnon.Orchestrator.{walk_to_completed}
use agamemnon.Orchestrator.Unblocking.{W, at, IsReady}
use agamemnon.Orchestrator.Children.{has, children_of}
use agamemnon.Orchestrator.Messages.{message_task_id, completion, on_myrmidon_completion}
use agamemnon.Orchestrator.Completion.{Names, walk_keeps, completion_found, AfterDone}

module _ (J : JsonLibrary) (client : GithubClient J.Json) where
  open J use {Json, parse}
  open client use {Github}

  -- A call that leaves the tasks and their loading as they are.
  abbrev Passes : W J client → W J client → Type 0
  Passes w w' =
      (w'.store.hmas_tasks ≡ w.store.hmas_tasks)
      × (w'.store.hmas_tasks_loaded ≡ w.store.hmas_tasks_loaded)

  unparsed :
      (now payload : String) (w : W J client)
      → parse payload ≡ none
      → Passes w (on_myrmidon_completion J client now payload w)
  unfolding on_myrmidon_completion completion
  unparsed now payload w p = ground arith

  unnamed :
      (now payload : String) (w : W J client) (m : Json)
      → parse payload ≡ some m
      → message_task_id J m ≡ none
      → Passes w (on_myrmidon_completion J client now payload w)
  unfolding on_myrmidon_completion completion
  unnamed now payload w m p q = ground arith

  empty_name :
      (now payload : String) (w : W J client)
      → Names J client payload ""
      → Passes w (on_myrmidon_completion J client now payload w)
  unfolding on_myrmidon_completion completion
  empty_name now payload w (m, p, q) = ground arith

  not_found :
      (now payload id : String) (w : W J client)
      → Names J client payload id
      → IsReady J client w
      → at J client w id ≡ none
      → Passes w (on_myrmidon_completion J client now payload w)
  unfolding on_myrmidon_completion completion
  not_found now payload id w (m, p, q) r e =
      ground (
        arith,
        get-loaded J client w.store id r.0,
        mark_task_completed-keeps J client now id w.store,
      )

  -- The message names neither `k` nor a task that lists it as a child.
  abbrev pub Spares : String → W J client → String → Type 0
  Spares k w payload =
      (id : String)
      → Names J client payload id
      → (id ≢ k) × (has k (children_of J client (at J client w id)) ≡ false)

  abbrev pub Untouched : String → W J client → W J client → Type 0
  Untouched k w w' =
      IsReady J client w'
      × (at J client w' k ≡ at J client w k)
      × ((j : String)
          → children_of J client (at J client w' j) ≡ children_of J client (at J client w j))

  Passes-Untouched :
      (k : String) (w w' : W J client) → IsReady J client w → Passes w w' → Untouched k w w'
  Passes-Untouched k w w' r (m, l) =
      ((ground arith, λ j u g. r.1 j u (ground arith)), ground arith, λ j. ground arith)

  found-Untouched :
      (now k id : String) (w w' : W J client) (t : HmasTask)
      → id ≢ k
      → has k t.child_task_ids ≡ false
      → at J client w id ≡ some t
      → AfterDone J client w id (walk_to_completed now t) w'
      → Untouched k w w'
  found-Untouched now k id w w' t other spared e (r, f, g) =
      let (_, c, _) = walk_keeps J client now t in
      (
        r,
        (let (b, only, h) = g k (λ p. other (sym p)) in
            elim (Option-cases (at J client w k)) [
              | inl n ↦ ground (arith, n, only, h, c)
              | inr (u, n) ↦ ground (arith, n, only, h, c)
            ]),
        λ j. elim (Bool-cases (str_eq j id)) [
          | inl same ↦ ground (arith, str_eq_iff j id, e, f, c)
          | inr differs ↦
              let (b, only, h) = g j (ground (arith, str_eq_iff j id)) in
              elim (Option-cases (at J client w j)) [
                | inl n ↦ ground (arith, n, h)
                | inr (u, n) ↦ ground (arith, n, h)
              ]
        ],
      )

  named-Untouched :
      (now payload k id : String) (w : W J client)
      → IsReady J client w
      → Names J client payload id
      → (id ≢ k) × (has k (children_of J client (at J client w id)) ≡ false)
      → Untouched k w (on_myrmidon_completion J client now payload w)
  named-Untouched now payload k id w r named (other, spared) =
      let w' = on_myrmidon_completion J client now payload w in
      elim (Option-cases (at J client w id)) [
        | inl e ↦ Passes-Untouched k w w' r (not_found now payload id w named r e)
        | inr (t, e) ↦ elim (Bool-cases (str_eq id "")) [
          | inl empty ↦ Passes-Untouched k w w' r (
              empty_name now payload w
                (subst (Names J client payload) (ground (arith, str_eq_iff id "")) named))
          | inr filled ↦ found-Untouched now k id w w' t other (ground (arith, e)) e (
              completion_found J client now payload id w t named (ground (arith, str_eq_iff id ""))
                r e)
        ]
      ]

  -- Every call of on_myrmidon_completion, whatever its payload.
  pub spared-Untouched :
      (now payload k : String) (w : W J client)
      → IsReady J client w
      → Spares k w payload
      → Untouched k w (on_myrmidon_completion J client now payload w)
  spared-Untouched now payload k w r spares =
      let w' = on_myrmidon_completion J client now payload w in
      elim (Option-cases (parse payload)) [
        | inl p ↦ Passes-Untouched k w w' r (unparsed now payload w p)
        | inr (m, p) ↦ elim (Option-cases (message_task_id J m)) [
          | inl q ↦ Passes-Untouched k w w' r (unnamed now payload w m p q)
          | inr (id, q) ↦ named-Untouched now payload k id w r (m, p, q) (spares id (m, p, q))
        ]
      ]
