-- ===== src/Orchestrator/Stalls.antt =====
-- A limit of unblocking (src/orchestrator.cpp): only the completion of a task that lists a child looks
-- at that child. In the trees of src/planning_breakdown.cpp the second module of a repository, the
-- second leaf of a module, and the second slice of a split are blocked by their predecessor, which
-- does not list them.
use agamemnon.Base.{String, ◌≡◌, refl, ap, ◌∙◌, List, [], ◌∷◌, All}
use agamemnon.Json.{JsonLibrary}
use agamemnon.Store.{GithubClient}
use agamemnon.Orchestrator.Unblocking.{W, at, IsReady}
use agamemnon.Orchestrator.Children.{has}
use agamemnon.Orchestrator.Messages.{on_myrmidon_completion}
use agamemnon.Orchestrator.Frame.{Spares, Untouched, spared-Untouched}

module _ (J : JsonLibrary) (client : GithubClient J.Json) where
  open J use {Json}
  open client use {Github}

  -- Completion messages in turn, each with the time at which it is handled.
  pub completions : List (String × String) → W J client → W J client
  completions [] w = w
  completions ((now, payload) ∷ ms) w =
      completions ms (on_myrmidon_completion J client now payload w)

  Spares-later :
      (k : String) (w w' : W J client) (ms : List (String × String))
      → Untouched J client k w w'
      → All (λ (m : String × String). Spares J client k w m.1) ms
      → All (λ (m : String × String). Spares J client k w' m.1) ms
  Spares-later k w w' [] u a = tt
  Spares-later k w w' (m ∷ ms) u (first, rest) = (
    λ id named. ((first id named).0, ap (has k) (u.2 id) ∙ (first id named).1),
    Spares-later k w w' ms u rest,
  )

  -- Completion messages, however many and whatever else they say, leave a task as it is if none of
  -- them names it or a task that has it in its child list. So a Pending task is never delegated by
  -- the completion of its last blocker, unless that blocker has it in its child list. The store is
  -- loaded and has each task under its own id.
  pub chain_stalls :
      (k : String) (w : W J client) (ms : List (String × String))
      → IsReady J client w
      → All (λ (m : String × String). Spares J client k w m.1) ms
      → at J client (completions ms w) k ≡ at J client w k
  unfolding completions
  chain_stalls k w [] r a = refl
  chain_stalls k w ((now, payload) ∷ ms) r (first, rest) =
      let w' = on_myrmidon_completion J client now payload w in
      let u = spared-Untouched J client now payload k w r first in
      chain_stalls k w' ms u.0 (Spares-later k w w' ms u rest) ∙ u.1
