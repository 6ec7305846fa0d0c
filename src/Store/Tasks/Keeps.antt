-- ===== src/Store/Tasks/Keeps.antt =====
-- The plain tasks are another map than the HMAS tasks (src/store.cpp).
use agamemnon.Base.{String, ◌≡◌, refl, Bool, arith}
use agamemnon.Base.Dict.{Dict}
use agamemnon.HmasTypes.{HmasTask}
use agamemnon.Json.{JsonLibrary}
use agamemnon.Store.{Store, GithubClient}
use agamemnon.Store.Collections.{tasks}
use agamemnon.Store.Collections.Frame.{IsFrame, ensure_loaded-keeps}
use agamemnon.Store.Tasks.{mark_task_completed}

module _ (J : JsonLibrary) (client : GithubClient J.Json) where
  open J use {Json}
  open client use {Github}

  abbrev view : Store Json Github → Dict HmasTask × Bool
  view s = (s.hmas_tasks, s.hmas_tasks_loaded)

  view-IsFrame : IsFrame J client tasks view
  view-IsFrame = record { written = λ m s. refl; flagged = λ s. refl; called = λ s g. refl }

  -- mark_task_completed changes no HMAS task.
  pub mark_task_completed-keeps :
      (now id : String) (s : Store Json Github)
      → view (mark_task_completed J client now id s).1 ≡ view s
  unfolding mark_task_completed
  mark_task_completed-keeps now id s =
      ground (arith, ensure_loaded-keeps J client tasks view view-IsFrame s)
