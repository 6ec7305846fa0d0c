-- ===== src/Store/Index.antt =====
-- The index of the tasks by brief agrees with the tasks.
use agamemnon.Base.{
  ℕ, String, ◌≡◌, ◌≢◌, sym, ap, ◌∙◌, not, ◌&&◌, Option, none, some, arith, str_eq, str_eq_iff,
  if◌then◌else◌, Option-cases, inl, inr,
}
use agamemnon.Base.Dict.{Dict, lookup, insert, lookup-insert}
use agamemnon.HmasTypes.{HmasTask}
use agamemnon.Json.{JsonLibrary}
use agamemnon.Store.{Store, GithubClient}
use agamemnon.Store.ByBrief.{is_empty, add_to_brief, move_brief}
use agamemnon.Store.ByBrief.Counts.{listed, listed-add, listed-move}
use agamemnon.Store.HmasTasks.{create_hmas_task, update_hmas_task}
use agamemnon.Store.Lookup.{
  IsLoaded, task_at, update_found, create_done, create_thrown, update_missing,
}

-- How often an id should be listed under the brief `b`: once if its task belongs to `b`.
abbrev pub expected : String → Option HmasTask → ℕ
expected b none = 0
expected b (some t) = if not (is_empty b) && str_eq t.brief_id b then 1 else 0

module _ (J : JsonLibrary) (client : GithubClient J.Json) where
  open J use {Json}
  open client use {Github}

  -- Each brief's bucket lists the id of each of its tasks once, and no other id. A task stands in
  -- the map under its own id.
  pub record IsIndexed (s : Store Json Github) : Type 0 where
    pub keyed : (k : String) (t : HmasTask) → task_at J client s k ≡ some t → t.id ≡ k
    pub indexed :
        (b k : String) → listed b k s.hmas_tasks_by_brief ≡ expected b (task_at J client s k)

  -- A task under a new id, put into the map and at the end of its brief's bucket.
  pub put_new-IsIndexed :
      (s s' : Store Json Github) (t : HmasTask)
      → s'.hmas_tasks ≡ insert t.id t s.hmas_tasks
      → s'.hmas_tasks_by_brief ≡ add_to_brief t.brief_id t.id s.hmas_tasks_by_brief
      → task_at J client s t.id ≡ none
      → IsIndexed s
      → IsIndexed s'
  put_new-IsIndexed s s' t tasks index fresh v = record {
    keyed = λ k u h.
        ground (arith, lookup-insert t.id k t s.hmas_tasks, v.keyed k u, str_eq_iff t.id k);
    indexed = λ b k. ground (
      arith,
      lookup-insert t.id k t s.hmas_tasks,
      v.indexed b k,
      str_eq_iff t.id k,
      listed-add b k t.brief_id t.id s.hmas_tasks_by_brief,
      str_eq_iff t.brief_id b,
    );
  }

  replace-IsIndexed :
      (s s' : Store Json Github) (t old : HmasTask)
      → s'.hmas_tasks ≡ insert t.id t s.hmas_tasks
      → s'.hmas_tasks_by_brief ≡ move_brief t.id old.brief_id t.brief_id s.hmas_tasks_by_brief
      → task_at J client s t.id ≡ some old
      → IsIndexed s
      → IsIndexed s'
  replace-IsIndexed s s' t old tasks index found v = record {
    keyed = λ k u h.
        ground (arith, lookup-insert t.id k t s.hmas_tasks, v.keyed k u, str_eq_iff t.id k);
    indexed = λ b k. ground (
      arith,
      lookup-insert t.id k t s.hmas_tasks,
      v.indexed b k,
      str_eq_iff t.id k,
      listed-move b k t.id old.brief_id t.brief_id s.hmas_tasks_by_brief,
      str_eq_iff t.brief_id b,
      str_eq_iff old.brief_id b,
      str_eq_iff old.brief_id t.brief_id,
    );
  }

  pub update_loaded-IsIndexed :
      (s : Store Json Github) (t : HmasTask)
      → IsLoaded J client s
      → IsIndexed s
      → IsIndexed (update_hmas_task J client t s).1
  update_loaded-IsIndexed s t loaded v = elim (Option-cases (task_at J client s t.id)) [
    | inl e ↦ rw (update_missing J client s t loaded e) v
    | inr (old, e) ↦
        let (tasks, index, _, _) = update_found J client s t old loaded e in
        replace-IsIndexed s _ t old tasks index e v
  ]

  -- Creating a task under an id that no task has keeps the index in agreement with the tasks, also
  -- where opening its GitHub issue throws. The store's HMAS tasks are loaded.
  pub create_hmas_task-IsIndexed :
      (s : Store Json Github) (t : HmasTask)
      → IsLoaded J client s
      → task_at J client s t.id ≡ none
      → IsIndexed s
      → IsIndexed (create_hmas_task J client t s).1
  create_hmas_task-IsIndexed s t loaded fresh v =
      elim (Option-cases (create_hmas_task J client t s).0) [
        | inl thrown ↦
            let (tasks, index, _, _) = create_thrown J client s t loaded thrown in
            record {
              keyed = λ k u h. v.keyed k u (ap (λ (m : Dict HmasTask). lookup k m) (sym tasks) ∙ h);
              indexed = λ b k. rw (tasks, index) (v.indexed b k);
            }
        | inr (u, done) ↦
            let (tasks, index, _, _) = create_done J client s t loaded done in
            put_new-IsIndexed s _ t tasks index fresh v
      ]

  -- Creating a task under an id that is taken, for the brief of the task that has it, lists that id
  -- twice, if it does not throw.
  pub create_taken-listed :
      (s : Store Json Github) (t old : HmasTask)
      → IsLoaded J client s
      → task_at J client s t.id ≡ some old
      → old.brief_id ≡ t.brief_id
      → t.brief_id ≢ ""
      → (create_hmas_task J client t s).0 ≡ some tt
      → IsIndexed s
      → listed t.brief_id t.id (create_hmas_task J client t s).1.hmas_tasks_by_brief ≡ 2
  create_taken-listed s t old loaded found same named done v =
      let (tasks, index, _, _) = create_done J client s t loaded done in
      ground (
        arith,
        index,
        v.indexed t.brief_id t.id,
        listed-add t.brief_id t.id t.brief_id t.id s.hmas_tasks_by_brief,
        str_eq_iff t.id t.id,
        str_eq_iff t.brief_id t.brief_id,
        str_eq_iff t.brief_id "",
      )
