-- ===== src/Store/ListByBrief.antt =====
-- Listing a brief's tasks through the index gives the tasks of that brief.
use agamemnon.Base.{
  ℕ, ◌<◌, String, ◌≡◌, ◌≢◌, ap, ◌∙◌, List, [], ◌∷◌, map, Option, none, some, arith, str_eq_iff,
  Option-cases, inl, inr, All,
}
use agamemnon.Base.Dict.{Dict, lookup, lookup-insert}
use agamemnon.HmasTypes.{HmasTask}
use agamemnon.HmasTypes.BriefCodec.{bucket}
use agamemnon.Json.{JsonLibrary}
use agamemnon.Store.{Store, GithubClient}
use agamemnon.Store.ByBrief.Counts.{count}
use agamemnon.Store.HmasTasks.{create_hmas_task, tasks_for, list_hmas_tasks_by_brief}
use agamemnon.Store.Lookup.{IsLoaded, task_at, ensure_loaded, create_done}
use agamemnon.Store.Index.{IsIndexed, expected, create_taken-listed}

abbrev pub ids : List HmasTask → List String
ids = map (λ (t : HmasTask). t.id)

abbrev if_some : Option HmasTask → ℕ → ℕ
if_some none n = 0
if_some (some t) n = n

-- A map that has each task under its own id.
abbrev IsKeyed : Dict HmasTask → Type 0
IsKeyed m = (k : String) (t : HmasTask) → lookup k m ≡ some t → t.id ≡ k

count-tasks_for :
    (k : String) (m : Dict HmasTask) (xs : List String)
    → IsKeyed m
    → count k (ids (tasks_for xs m)) ≡ if_some (lookup k m) (count k xs)
unfolding tasks_for
count-tasks_for k m [] keyed = ground arith
count-tasks_for k m (x ∷ xs) keyed = elim (Option-cases (lookup x m)) [
  | inl e ↦ ground (arith, e, count-tasks_for k m xs keyed, str_eq_iff x k)
  | inr (t, e) ↦ ground (arith, e, count-tasks_for k m xs keyed, keyed x t e, str_eq_iff x k)
]

-- The tasks of the ids, where every id that is listed has a task of the brief `b`.
tasks_for-All :
    (b : String) (m : Dict HmasTask) (xs : List String)
    → IsKeyed m
    → ((k : String) (t : HmasTask) → 0 < count k xs → lookup k m ≡ some t → t.brief_id ≡ b)
    → All (λ (t : HmasTask). (t.brief_id ≡ b) × (lookup t.id m ≡ some t)) (tasks_for xs m)
unfolding tasks_for
tasks_for-All b m [] keyed of_brief = tt
tasks_for-All b m (x ∷ xs) keyed of_brief =
    let rest = tasks_for-All b m xs keyed (λ k t pos e. of_brief k t (ground arith) e) in
    elim (Option-cases (lookup x m)) [
      | inl e ↦ rw (e, tasks_for) rest
      | inr (t, e) ↦
          rw (e, tasks_for)
            (
              (
                of_brief x t (ground (arith, str_eq_iff x x)) e,
                ap (λ (k : String). lookup k m) (keyed x t e) ∙ e,
              ),
              rest,
            )
    ]

module _ (J : JsonLibrary) (client : GithubClient J.Json) where
  open J use {Json}
  open client use {Github}

  -- In a store whose index agrees with its tasks, listing by a brief gives each task of that brief
  -- exactly once, and nothing else: an id is among the results as often as the brief has a task
  -- with it, and every result is the stored task under its id, of that brief. The store is left as
  -- it was. The store's HMAS tasks are loaded.
  pub list_by_brief_exact :
      (s : Store Json Github) (b : String)
      → IsLoaded J client s
      → IsIndexed J client s
      → (l : List HmasTask) × (list_hmas_tasks_by_brief J client b s ≡ (some l, s))
        × ((k : String) → count k (ids l) ≡ expected b (task_at J client s k))
        × All (λ (t : HmasTask). (t.brief_id ≡ b) × (task_at J client s t.id ≡ some t)) l
  unfolding list_hmas_tasks_by_brief
  list_by_brief_exact s b loaded v = (
    tasks_for (bucket (lookup b s.hmas_tasks_by_brief)) s.hmas_tasks,
    rw (ensure_loaded J client s loaded),
    λ k. ground (
      arith,
      count-tasks_for k s.hmas_tasks (bucket (lookup b s.hmas_tasks_by_brief)) v.keyed,
      v.indexed b k,
    ),
    tasks_for-All b s.hmas_tasks (bucket (lookup b s.hmas_tasks_by_brief)) v.keyed
        (λ k t pos e. ground (arith, v.indexed b k, str_eq_iff t.brief_id b)),
  )

  -- Creating a task under an id that is taken, for the brief of the task that has it, and which has a
  -- name, makes the listing of that brief give the id twice, if the creation does not throw. The
  -- store's HMAS tasks are loaded and its index agrees with them.
  pub create_taken_lists_twice :
      (s : Store Json Github) (t old : HmasTask)
      → IsLoaded J client s
      → task_at J client s t.id ≡ some old
      → old.brief_id ≡ t.brief_id
      → t.brief_id ≢ ""
      → (create_hmas_task J client t s).0 ≡ some tt
      → IsIndexed J client s
      → let s' = (create_hmas_task J client t s).1 in
        (l : List HmasTask) × (list_hmas_tasks_by_brief J client t.brief_id s' ≡ (some l, s'))
        × (count t.id (ids l) ≡ 2)
  unfolding list_hmas_tasks_by_brief
  create_taken_lists_twice s t old loaded found same named done v =
      let s' = (create_hmas_task J client t s).1 in
      let (tasks, _, loaded', _) = create_done J client s t loaded done in
      let bucket' = bucket (lookup t.brief_id s'.hmas_tasks_by_brief) in
      let keyed : IsKeyed s'.hmas_tasks = λ k u h.
        ground
          (arith, tasks, lookup-insert t.id k t s.hmas_tasks, v.keyed k u, str_eq_iff t.id k) in
      (
        tasks_for bucket' s'.hmas_tasks,
        rw (ensure_loaded J client s' loaded'),
        ground (
          arith,
          count-tasks_for t.id s'.hmas_tasks bucket' keyed,
          create_taken-listed J client s t old loaded found same named done v,
          tasks,
          lookup-insert t.id t.id t s.hmas_tasks,
          str_eq_iff t.id t.id,
        ),
      )
