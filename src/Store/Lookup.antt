-- ===== src/Store/Lookup.antt =====
-- What the operations on HMAS tasks do to the tasks that a client can look up.
use agamemnon.Base.{String, ◌≡◌, true, false, Option, none, some, arith}
use agamemnon.Base.Dict.{lookup, insert}
use agamemnon.HmasTypes.{HmasTask}
use agamemnon.Json.{JsonLibrary}
use agamemnon.Store.{Store, GithubClient}
use agamemnon.Store.ByBrief.{add_to_brief, move_brief}
use agamemnon.Store.HmasTasks.{
  ensure_hmas_tasks_loaded, create_hmas_task, get_hmas_task, update_hmas_task,
}

module _ (J : JsonLibrary) (client : GithubClient J.Json) where
  open J use {Json}
  open client use {Github}

  abbrev pub IsLoaded : Store Json Github → Type 0
  IsLoaded s = s.hmas_tasks_loaded ≡ true

  -- The task that the store has for an id.
  abbrev pub task_at : Store Json Github → String → Option HmasTask
  task_at s id = lookup id s.hmas_tasks

  pub ensure_loaded : (s : Store Json Github) → IsLoaded s → ensure_hmas_tasks_loaded J client s ≡ s
  unfolding ensure_hmas_tasks_loaded
  ensure_loaded s h = rw h

  pub ensured-IsLoaded : (s : Store Json Github) → IsLoaded (ensure_hmas_tasks_loaded J client s)
  unfolding ensure_hmas_tasks_loaded
  ensured-IsLoaded s = ground arith

  -- An update works on the store as it is once it is loaded.
  pub update-ensured :
      (s : Store Json Github) (t : HmasTask)
      → update_hmas_task J client t s
        ≡ update_hmas_task J client t (ensure_hmas_tasks_loaded J client s)
  unfolding update_hmas_task
  update-ensured s t = rw (ensure_loaded (ensure_hmas_tasks_loaded J client s) (ensured-IsLoaded s))

  -- Reading a task changes nothing in a loaded store, and gives the task at that id.
  pub get-loaded :
      (s : Store Json Github) (id : String)
      → IsLoaded s
      → get_hmas_task J client id s ≡ (some (task_at s id), s)
  unfolding get_hmas_task
  get-loaded s id h = rw (ensure_loaded s h)

  -- An update of a task that is not there reports so and changes nothing.
  pub update_missing :
      (s : Store Json Github) (t : HmasTask)
      → IsLoaded s
      → task_at s t.id ≡ none
      → update_hmas_task J client t s ≡ (some false, s)
  unfolding update_hmas_task
  update_missing s t h e = rw (ensure_loaded s h) (rw e)

  -- An update of a task that is there puts the new value in its place and moves its id between
  -- the briefs' buckets, whether or not writing it back to GitHub throws.
  pub update_found :
      (s : Store Json Github) (t old : HmasTask)
      → IsLoaded s
      → task_at s t.id ≡ some old
      → let s' = (update_hmas_task J client t s).1 in
        (s'.hmas_tasks ≡ insert t.id t s.hmas_tasks)
        × (s'.hmas_tasks_by_brief ≡ move_brief t.id old.brief_id t.brief_id s.hmas_tasks_by_brief)
        × IsLoaded s'
        × (s'.task_briefs ≡ s.task_briefs)
  unfolding update_hmas_task
  update_found s t old h e = ground (arith, ensure_loaded s h)

  -- The client's updates never throw.
  abbrev pub IsReliable : Type 0
  IsReliable =
      (number body : String) (g : Github) → (client.update_issue_body number body g).0 ≡ some tt

  pub update_returns :
      (s : Store Json Github) (t old : HmasTask)
      → IsReliable
      → IsLoaded s
      → task_at s t.id ≡ some old
      → (update_hmas_task J client t s).0 ≡ some true
  unfolding update_hmas_task
  update_returns s t old ok h e = grind (arith, ensure_loaded s h, ok)

  -- A creation that does not throw puts the task into the map and its brief's bucket.
  pub create_done :
      (s : Store Json Github) (t : HmasTask)
      → IsLoaded s
      → (create_hmas_task J client t s).0 ≡ some tt
      → let s' = (create_hmas_task J client t s).1 in
        (s'.hmas_tasks ≡ insert t.id t s.hmas_tasks)
        × (s'.hmas_tasks_by_brief ≡ add_to_brief t.brief_id t.id s.hmas_tasks_by_brief)
        × IsLoaded s'
        × (s'.task_briefs ≡ s.task_briefs)
  unfolding create_hmas_task
  create_done s t h e = ground (arith, ensure_loaded s h)

  -- One that throws leaves both as they were.
  pub create_thrown :
      (s : Store Json Github) (t : HmasTask)
      → IsLoaded s
      → (create_hmas_task J client t s).0 ≡ none
      → let s' = (create_hmas_task J client t s).1 in
        (s'.hmas_tasks ≡ s.hmas_tasks)
        × (s'.hmas_tasks_by_brief ≡ s.hmas_tasks_by_brief)
        × IsLoaded s'
        × (s'.task_briefs ≡ s.task_briefs)
  unfolding create_hmas_task
  create_thrown s t h e = ground (arith, ensure_loaded s h)
