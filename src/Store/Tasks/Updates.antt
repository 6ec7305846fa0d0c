-- ===== src/Store/Tasks/Updates.antt =====
-- What an update does to a task.
use agamemnon.Base.{
  String, ◌≡◌, ◌⊎◌, true, false, none, some, arith, if◌then◌else◌, str_eq, str_eq_iff, ◌&&◌,
}
use agamemnon.Base.Dict.{Dict, lookup, lookup-insert}
use agamemnon.Base.Sorting.{HasDistinctKeys}
use agamemnon.Json.{JsonLibrary, IsObject, find, value_string}
use agamemnon.Store.{Store, GithubClient}
use agamemnon.Store.ByBrief.{is_empty}
use agamemnon.Store.Entities.{updated_task}
use agamemnon.Store.Entities.Patch.{patched, first_completion, find-updated_task}
use agamemnon.Store.Tasks.{update_task, get_task}

module _ (J : JsonLibrary) (client : GithubClient J.Json) where
  open J use {Json}

  abbrev S : Type 0
  S = Store Json client.Github

  -- What an update does to a loaded task of the team, whatever GitHub and the metrics answer.
  pub update_task_effect :
      (now team_id id : String) (body : Json) (fields : Dict Json) (task : Json) (s : S)
      → s.tasks_loaded ≡ true
      → is_empty team_id ≡ false
      → J.members body ≡ some fields
      → HasDistinctKeys fields
      → lookup id s.tasks ≡ some task
      → IsObject J task
      → value_string J task "teamId" "" ≡ some team_id
      → (task' : Json) × (lookup id (update_task J client now team_id id body s).1.tasks
          ≡ some task')
        × (((update_task J client now team_id id body s).0 ≡ some task')
            ⊎ ((update_task J client now team_id id body s).0 ≡ none))
        × ((k : String)
            → find J task' k ≡ (
                if str_eq "updatedAt" k
                then some (J.string now)
                else if first_completion J body fields task && str_eq "completedAt" k
                then some (J.string now)
                else patched J fields task k))
  unfolding update_task
  update_task_effect now team_id id body fields task s loaded team object distinct held is_object
        own =
      (
        updated_task J now body fields task,
        ground (
          arith,
          str_eq_iff team_id team_id,
          str_eq_iff id id,
          lookup-insert id id (updated_task J now body fields task) s.tasks,
        ),
        ground (arith, str_eq_iff team_id team_id),
        λ k. find-updated_task J now body fields task k is_object distinct,
      )

  -- A task of another team is neither shown nor changed.
  pub update_task_of_other_team :
      (now team_id id : String) (body task : Json) (held : String) (s : S)
      → s.tasks_loaded ≡ true
      → lookup id s.tasks ≡ some task
      → value_string J task "teamId" "" ≡ some held
      → str_eq held team_id ≡ false
      → (update_task J client now team_id id body s ≡ (some J.null, s))
        × (get_task J client team_id id s ≡ (some J.null, s))
  unfolding update_task get_task
  update_task_of_other_team now team_id id body task held s loaded found own other =
      (ground arith, ground arith)
