-- ===== src/Orchestrator/Children.antt =====
-- delegate_unblocked_children (src/orchestrator.cpp) as a whole.
use agamemnon.Base.{
  String, str_eq, ◌≡◌, refl, Bool, true, false, ◌&&◌, ◌||◌, List, [], ◌∷◌, Option, none, some,
  arith, Option-cases, inl, inr,
}
use agamemnon.Base.Exec.{for_each}
use agamemnon.HmasTypes.{HmasTask}
use agamemnon.Json.{JsonLibrary}
use agamemnon.Store.{GithubClient}
use agamemnon.Store.Lookup.{get-loaded, IsReliable}
use agamemnon.Orchestrator.Delegation.{consider, delegate_unblocked_children}
use agamemnon.Orchestrator.Unblocking.{
  W, at, IsReady, clear, is_free, freed_if, consider_effect, consider_returns,
}

-- Whether a text stands in the list.
unfoldable pub has : String → List String → Bool
has k [] = false
has k (x ∷ xs) = str_eq x k || has k xs

module _ (J : JsonLibrary) (client : GithubClient J.Json) where
  open J use {Json}
  open client use {Github}

  -- From `w` to `w'` some of the tasks `cs` were freed, each of which was Pending with all of its
  -- blockers completed, and no other task was touched.
  abbrev pub Frees : List String → W J client → W J client → Type 0
  Frees cs w w' =
      IsReady J client w'
      × ((k : String)
          → (b : Bool) × (b ≡ true
              → (is_free J client w (at J client w k) ≡ true) × (has k cs ≡ true))
            × (at J client w' k ≡ freed_if J client b (at J client w k)))

  -- Freeing tasks completes none and undoes none.
  pub clear-Frees :
      (cs bs : List String) (w w' : W J client)
      → Frees cs w w'
      → clear J client w' bs ≡ clear J client w bs
  unfolding clear
  clear-Frees cs [] w w' f = refl
  clear-Frees cs (b ∷ bs) w w' f =
      let (c, only, e) = f.1 b in
      elim (Option-cases (at J client w b)) [
        | inl e' ↦ ground (arith, clear-Frees cs bs w w' f, only, e, e')
        | inr (t, e') ↦ ground (arith, clear-Frees cs bs w w' f, only, e, e')
      ]

  consider-Frees :
      (now c : String) (w : W J client)
      → IsReady J client w
      → Frees (c ∷ []) w (consider J client now c w).1
  unfolding has
  consider-Frees now c w r =
      let (r', f) = consider_effect J client now c w r in
      (r', λ k. (str_eq c k && is_free J client w (at J client w k), ground arith, f k))

  join-Frees :
      (c : String) (cs : List String) (w w' w'' : W J client)
      → Frees (c ∷ []) w w'
      → Frees cs w' w''
      → Frees (c ∷ cs) w w''
  unfolding has
  join-Frees c cs w w' w'' f g = (
    g.0,
    λ k.
        let (b, only, e) = f.1 k in
        let (b', only', e') = g.1 k in
        elim (Option-cases (at J client w k)) [
          | inl n ↦ (false, ground arith, ground (arith, n, e, e'))
          | inr (t, n) ↦ (
            b || b',
            ground (arith, n, e, e', only, only', clear-Frees (c ∷ []) t.blocked_by w w' f),
            ground (arith, n, e, e', only, only'),
          )
        ],
  )

  for_each_thrown :
      (now c : String) (cs : List String) (w : W J client)
      → (consider J client now c w).0 ≡ none
      → (for_each (c ∷ cs) (consider J client now) w).1 ≡ (consider J client now c w).1
  unfolding for_each
  for_each_thrown now c cs w h = ground arith

  for_each_next :
      (now c : String) (cs : List String) (w : W J client) (u : Unit {0})
      → (consider J client now c w).0 ≡ some u
      → for_each (c ∷ cs) (consider J client now) w
        ≡ for_each cs (consider J client now) (consider J client now c w).1
  unfolding for_each
  for_each_next now c cs w u h = ground arith

  for_each-Frees :
      (now : String) (cs : List String) (w : W J client)
      → IsReady J client w
      → Frees cs w (for_each cs (consider J client now) w).1
  unfolding for_each
  for_each-Frees now [] w r = (r, λ k. (false, ground arith, ground arith))
  for_each-Frees now (c ∷ cs) w r =
      let w' = (consider J client now c w).1 in
      let f = consider-Frees now c w r in
      elim (Option-cases (consider J client now c w).0) [
        | inl thrown ↦
            rw (for_each_thrown now c cs w thrown)
              (join-Frees c cs w w' w' f (f.0, λ k. (false, ground arith, ground arith)))
        | inr (u, next) ↦ rw (for_each_next now c cs w u next) (
            join-Frees c cs w w' (for_each cs (consider J client now) w').1 f
              (for_each-Frees now cs w' f.0))
      ]

  -- With a client whose updates never throw, the loop frees each child that can be.
  for_each_exact :
      (now : String) (cs : List String) (w : W J client)
      → IsReliable J client
      → IsReady J client w
      → let out = for_each cs (consider J client now) w in
        (out.0 ≡ some tt)
        × ((k : String)
            → at J client out.1 k
              ≡ freed_if J client
                  (has k cs && is_free J client w (at J client w k))
                  (at J client w k))
  unfolding for_each has
  for_each_exact now [] w ok r = (refl, λ k. ground arith)
  for_each_exact now (c ∷ cs) w ok r =
      let w' = (consider J client now c w).1 in
      let (r', f) = consider_effect J client now c w r in
      let (d, g) = for_each_exact now cs w' ok r' in
      rw (for_each_next now c cs w tt (consider_returns J client now c w ok r)) (
        d,
        λ k. elim (Option-cases (at J client w k)) [
          | inl n ↦ ground (arith, n, f k, g k)
          | inr (t, n) ↦ ground (
            arith,
            n,
            f k,
            g k,
            clear-Frees (c ∷ []) t.blocked_by w w' (consider-Frees now c w r),
          )
        ],
      )

  abbrev pub children_of : Option HmasTask → List String
  children_of none = []
  children_of (some t) = t.child_task_ids

  unblocking_loops :
      (now id : String) (w : W J client)
      → IsReady J client w
      → delegate_unblocked_children J client now id w
        ≡ for_each (children_of (at J client w id)) (consider J client now) w
  unfolding delegate_unblocked_children for_each
  unblocking_loops now id w r = elim (Option-cases (at J client w id)) [
    | inl n ↦ ground (arith, n, get-loaded J client w.store id r.0)
    | inr (t, n) ↦ ground (arith, n, get-loaded J client w.store id r.0)
  ]

  -- In a loaded store that has each task under its own id, delegate_unblocked_children changes a task
  -- only from Pending to Delegated, only if it is in the child list of the given task, and only if
  -- each of its blockers is Completed. This holds also where a call of GitHub throws in between.
  pub unblocks_only_clear_children :
      (now id : String) (w : W J client)
      → IsReady J client w
      → Frees (children_of (at J client w id)) w (delegate_unblocked_children J client now id w).1
  unblocks_only_clear_children now id w r =
      rw (unblocking_loops now id w r) (for_each-Frees now (children_of (at J client w id)) w r)

  -- With a client whose updates never throw, it returns, and then each task in the child list of
  -- the given task that was Pending, with each of its blockers Completed, is Delegated, and every
  -- other task is as it was. The store is loaded and has each task under its own id.
  pub unblocks_every_clear_child :
      (now id : String) (w : W J client)
      → IsReliable J client
      → IsReady J client w
      → let out = delegate_unblocked_children J client now id w in
        let cs = children_of (at J client w id) in
        (out.0 ≡ some tt)
        × ((k : String)
            → at J client out.1 k
              ≡ freed_if J client
                  (has k cs && is_free J client w (at J client w k))
                  (at J client w k))
  unblocks_every_clear_child now id w ok r =
      rw (unblocking_loops now id w r) (for_each_exact now (children_of (at J client w id)) w ok r)
