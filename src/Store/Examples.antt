-- ===== src/Store/Examples.antt =====
-- The theorems on the store at the tasks of Store.Sample.
use agamemnon.Base.{String, ◌≡◌, refl, false, List, [], ◌∷◌, some, arith, str_eq, str_eq_iff, All}
use agamemnon.Base.Dict.{lookup}
use agamemnon.HmasTypes.{HmasTask, l3_task_agent, pending}
use agamemnon.Json.Sample.{sample, Value}
use agamemnon.Store.Sample.{quiet, task, leaf, store, store_keyed}
use agamemnon.Store.{Store}
use agamemnon.Store.HmasTasks.{create_hmas_task, update_hmas_task, list_hmas_tasks_by_brief}
use agamemnon.Store.ByBrief.Counts.{count}
use agamemnon.Store.Lookup.{task_at}
use agamemnon.Store.Index.{IsIndexed, expected, create_hmas_task-IsIndexed}
use agamemnon.Store.Hydration.{IsLoadable, update_hmas_task-IsIndexed}
use agamemnon.Store.ListByBrief.{ids, list_by_brief_exact, create_taken_lists_twice}

p_is_not_c : str_eq "p" "c" ≡ false
p_is_not_c = refl

b_is_not_empty : str_eq "b" "" ≡ false
b_is_not_empty = refl

store_IsIndexed : IsIndexed sample quiet store
unfolding lookup
store_IsIndexed = record {
  keyed = store_keyed;
  indexed = λ b k. grind (
    arith,
    str_eq_iff "b" b,
    str_eq_iff "p" k,
    str_eq_iff "c" k,
    str_eq_iff b "",
    str_eq_iff "b" "",
    str_eq_iff "p" "c",
    p_is_not_c,
    b_is_not_empty,
  );
}

-- The leaf moves to another brief.
abbrev moved : HmasTask
moved = record leaf { brief_id = "b2" }

-- The store before its tasks are loaded from the client, which lists no issue.
abbrev unloaded : Store Value Unit
unloaded = record store { hmas_tasks_loaded = false }

unloaded-IsIndexed : IsIndexed sample quiet unloaded
unloaded-IsIndexed = record { keyed = store_IsIndexed.keyed; indexed = store_IsIndexed.indexed }

unloaded-IsLoadable : IsLoadable sample quiet unloaded
unloaded-IsLoadable g [] unread gh issues = tt
unloaded-IsLoadable g (i ∷ is) unread gh issues = absurd (ground (arith, issues))

update_hmas_task-IsIndexed_example :
    IsIndexed sample quiet (update_hmas_task sample quiet moved unloaded).1
update_hmas_task-IsIndexed_example =
    update_hmas_task-IsIndexed sample quiet unloaded moved unloaded-IsLoadable unloaded-IsIndexed

abbrev second : HmasTask
second = task "e" "p" l3_task_agent pending [] []

create_hmas_task-IsIndexed_example :
    IsIndexed sample quiet (create_hmas_task sample quiet second store).1
unfolding lookup
create_hmas_task-IsIndexed_example =
    create_hmas_task-IsIndexed sample quiet store second refl refl store_IsIndexed

create_taken_lists_twice_example :
    (l : List HmasTask) × (list_hmas_tasks_by_brief sample quiet "b"
        (create_hmas_task sample quiet leaf store).1
      ≡ (some l, (create_hmas_task sample quiet leaf store).1))
    × (count "c" (ids l) ≡ 2)
unfolding create_hmas_task lookup
create_taken_lists_twice_example =
    create_taken_lists_twice sample quiet store leaf leaf refl refl refl
      (λ p. ground (arith, p, str_eq_iff "b" "")) refl store_IsIndexed

list_by_brief_exact_example :
    (l : List HmasTask) × (list_hmas_tasks_by_brief sample quiet "b" store ≡ (some l, store))
    × ((k : String) → count k (ids l) ≡ expected "b" (task_at sample quiet store k))
    × All (λ (t : HmasTask). (t.brief_id ≡ "b") × (task_at sample quiet store t.id ≡ some t)) l
list_by_brief_exact_example = list_by_brief_exact sample quiet store "b" refl store_IsIndexed
