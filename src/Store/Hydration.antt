-- ===== src/Store/Hydration.antt =====
-- What loading the HMAS tasks from GitHub (ensure_hmas_tasks_loaded_ of src/store.cpp) leaves in the
-- index of the tasks by brief.
use agamemnon.Base.{
  ◌≡◌, refl, sym, ap, ◌∙◌, subst, if◌then◌else◌, false, List, [], ◌∷◌, Option, none, some, arith,
  Option-cases, Bool-cases, inl, inr,
}
use agamemnon.Base.Dict.{Dict, lookup, insert}
use agamemnon.HmasTypes.{HmasTask}
use agamemnon.HmasTypes.Codec.{hmas_task_from_json}
use agamemnon.Json.{JsonLibrary, find}
use agamemnon.Store.{Store, GithubClient, with_gh}
use agamemnon.Store.ByBrief.{add_to_brief}
use agamemnon.Store.Issue.{parse_issue_entity}
use agamemnon.Store.HmasTasks.{
  hydrate, ensure_hmas_tasks_loaded, adopt_entity, issue_number_of, load_from, hydrate_from,
  update_hmas_task,
}
use agamemnon.Store.Lookup.{ensure_loaded, ensured-IsLoaded, update-ensured}
use agamemnon.Store.Index.{IsIndexed, put_new-IsIndexed, update_loaded-IsIndexed}

-- The ids of the tasks differ from each other and from those of the map.
abbrev pub AreNew : List HmasTask → Dict HmasTask → Type 0
AreNew [] m = Unit
AreNew (t ∷ ts) m = (lookup t.id m ≡ none) × AreNew ts (insert t.id t m)

abbrev add_task : Option HmasTask → List HmasTask → List HmasTask
add_task none ts = ts
add_task (some t) ts = t ∷ ts

module _ (J : JsonLibrary) (client : GithubClient J.Json) where
  open J use {Json}
  open client use {Github}

  -- The task of an issue: one that is malformed, or cannot be read, has none.
  abbrev task_in : Json → Option Json → Option HmasTask
  task_in issue none = none
  task_in issue (some entity) = elim (find J entity "id") [
    | none ↦ none
    | some _ ↦ elim (hmas_task_from_json J entity) [
      | none ↦ none
      | some t ↦ elim (issue_number_of J client (find J issue "number")) [
        | none ↦ none
        | some _ ↦ some t
      ]
    ]
  ]

  abbrev pub tasks_in : List Json → List HmasTask
  tasks_in [] = []
  tasks_in (issue ∷ issues) =
      add_task (task_in issue (parse_issue_entity J issue)) (tasks_in issues)

  adopt-none :
      (issue : Json) (e : Option Json) (s : Store Json Github)
      → task_in issue e ≡ none
      → adopt_entity J client issue e s ≡ s
  adopt-none issue none s h = refl
  adopt-none issue (some entity) s h = ground (arith, h)

  adopt-some :
      (issue : Json) (e : Option Json) (s : Store Json Github) (t : HmasTask)
      → task_in issue e ≡ some t
      → ((adopt_entity J client issue e s).hmas_tasks ≡ insert t.id t s.hmas_tasks)
        × ((adopt_entity J client issue e s).hmas_tasks_by_brief
            ≡ add_to_brief t.brief_id t.id s.hmas_tasks_by_brief)
  adopt-some issue none s t h = absurd (ground (arith, h))
  adopt-some issue (some entity) s t h = (ground (arith, h), ground (arith, h))

  hydrate-IsIndexed :
      (issues : List Json) (s : Store Json Github)
      → AreNew (tasks_in issues) s.hmas_tasks
      → IsIndexed J client s
      → IsIndexed J client (hydrate J client issues s)
  unfolding hydrate
  hydrate-IsIndexed [] s new v = v
  hydrate-IsIndexed (issue ∷ issues) s new v =
      let entity = parse_issue_entity J issue in
      let new_from = λ (o : Option HmasTask). AreNew (add_task o (tasks_in issues)) s.hmas_tasks in
      elim (Option-cases (task_in issue entity)) [
        | inl e ↦
            subst (λ s'. IsIndexed J client (hydrate J client issues s'))
              (sym (adopt-none issue entity s e))
              (hydrate-IsIndexed issues s (subst new_from e new) v)
        | inr (t, e) ↦
            let (tasks, index) = adopt-some issue entity s t e in
            let (fresh, rest) = subst new_from e new in
            hydrate-IsIndexed issues (adopt_entity J client issue entity s)
              (subst (AreNew (tasks_in issues)) (sym tasks) rest)
              (put_new-IsIndexed J client s _ t tasks index fresh v)
      ]

  -- If the tasks are still to be loaded, the issues that GitHub lists have tasks with new ids.
  abbrev pub IsLoadable : Store Json Github → Type 0
  IsLoadable s =
      (g : Github) (issues : List Json)
      → s.hmas_tasks_loaded ≡ false
      → s.gh ≡ some g
      → (client.list_issues "agamemnon-hmas-task" g).0 ≡ some issues
      → AreNew (tasks_in issues) s.hmas_tasks

  -- The index agrees with the tasks whatever the other fields are.
  same-IsIndexed :
      (s s' : Store Json Github)
      → s'.hmas_tasks ≡ s.hmas_tasks
      → s'.hmas_tasks_by_brief ≡ s.hmas_tasks_by_brief
      → IsIndexed J client s
      → IsIndexed J client s'
  same-IsIndexed s s' tasks index v = record {
    keyed = λ k t h. v.keyed k t (ap (λ (m : Dict HmasTask). lookup k m) (sym tasks) ∙ h);
    indexed = λ b k. rw (tasks, index) (v.indexed b k);
  }

  load_from-IsIndexed :
      (s : Store Json Github) (o : Option Github)
      → ((g : Github) (issues : List Json)
          → o ≡ some g
          → (client.list_issues "agamemnon-hmas-task" g).0 ≡ some issues
          → AreNew (tasks_in issues) s.hmas_tasks)
      → IsIndexed J client s
      → IsIndexed J client (load_from J client o s)
  load_from-IsIndexed s none new v = same-IsIndexed s _ refl refl v
  load_from-IsIndexed s (some g) new v =
      listed_as (client.list_issues "agamemnon-hmas-task" g).0 refl
    where
      listed_as :
          (o : Option (List Json))
          → (client.list_issues "agamemnon-hmas-task" g).0 ≡ o
          → IsIndexed J client
              (hydrate_from J client o (with_gh s (client.list_issues "agamemnon-hmas-task" g).1))
      listed_as none e = same-IsIndexed s _ refl refl v
      listed_as (some issues) e = same-IsIndexed _ _ refl refl (
          hydrate-IsIndexed issues (with_gh s (client.list_issues "agamemnon-hmas-task" g).1)
            (new g issues refl e) (same-IsIndexed s _ refl refl v))

  ensured-IsIndexed :
      (s : Store Json Github)
      → IsLoadable s
      → IsIndexed J client s
      → IsIndexed J client (ensure_hmas_tasks_loaded J client s)
  unfolding ensure_hmas_tasks_loaded
  ensured-IsIndexed s new v = elim (Bool-cases s.hmas_tasks_loaded) [
    | inl h ↦ subst (IsIndexed J client) (sym (ensure_loaded J client s h)) v
    | inr h ↦
        subst (λ b. IsIndexed J client (if b then s else load_from J client s.gh s)) (sym h)
          (load_from-IsIndexed s s.gh (λ g issues. new g issues h) v)
  ]

  -- If the index agrees with the tasks, it still does after a task is updated: whether the task is
  -- there or not, whether or not its brief changes, whether or not the write to GitHub throws, and
  -- whether the tasks are loaded or the update begins with loading them from GitHub. In the last case,
  -- if the issues can be listed, the tasks that are read from them have ids that differ from each other
  -- and from those in the store.
  pub update_hmas_task-IsIndexed :
      (s : Store Json Github) (t : HmasTask)
      → IsLoadable s
      → IsIndexed J client s
      → IsIndexed J client (update_hmas_task J client t s).1
  update_hmas_task-IsIndexed s t new v =
      subst (λ s'. IsIndexed J client s') (ap (λ r. r.1) (sym (update-ensured J client s t)))
        (update_loaded-IsIndexed J client (ensure_hmas_tasks_loaded J client s) t
          (ensured-IsLoaded J client s) (ensured-IsIndexed s new v))
