-- ===== src/Store/SyncExamples.antt =====
-- The pages of listings and the events of GitHub at a small store.
use agamemnon.Base.{ℕ, String, ◌≡◌, refl, [], ◌∷◌, ◌++◌, some, arith, length, ◌-◌}
use agamemnon.Base.Dict.{Dict, lookup}
use agamemnon.Base.Sorting.{IsAscending, sort_by_key}
use agamemnon.Json.{find, value_string}
use agamemnon.Json.Sample.{Value, sample, obj, text, field, end}
use agamemnon.Store.Sample.{quiet}
use agamemnon.Store.Collections.{agents, entities}
use agamemnon.Store.Listing.{page}
use agamemnon.Store.Listing.Pages.{length-page, pages, pages_cover, values, min}
use agamemnon.Store.Issue.{parse_issue_entity}
use agamemnon.Store.Sync.{is_stale, read_event}
use agamemnon.Store.Sync.Order.{apply_edits, newest_wins}
use agamemnon.Store.Sync.Outcome.{Edit}
use agamemnon.Store.EntityExamples.{store}

length-page_example : length (page 2 1 store.agents) ≡ min 2 (length store.agents - 1)
length-page_example = length-page 2 1 store.agents

abbrev two : Dict ℕ
two = ("b", 2) ∷ ("a", 1) ∷ []

page_runs : page 2 1 two ≡ 2 ∷ []
unfolding page sort_by_key
page_runs = refl

pages_cover_example :
    (sorted : Dict ℕ) × IsAscending sorted
    × ((k : String) → lookup k sorted ≡ lookup k two)
    × (pages 1 2 0 two ≡ values sorted)
unfolding lookup
pages_cover_example = pages_cover 1 2 two (refl, (refl, tt)) (omega arith)

abbrev issue : Value
issue = obj (field "body" (text "```json\na\n```") end)

abbrev edit_at : String → Edit Value
edit_at t = record { action = "edited"; issue = issue; updated_at = t }

abbrev read_agent : Value
read_agent = obj (field "task_id" (text "a") (field "id" (text "a") end))

newest_wins_example :
    lookup "a" (
      entities agents (
        apply_edits sample quiet agents
          ((edit_at "t1" ∷ []) ++ (edit_at "t9" ∷ edit_at "t5" ∷ []))
          store))
    ≡ some (sample.set read_agent "updatedAt" (text "t9"))
unfolding lookup find value_string is_stale read_event parse_issue_entity
newest_wins_example =
    newest_wins sample quiet agents "a" read_agent (edit_at "t1" ∷ []) (edit_at "t5" ∷ [])
      (edit_at "t9") store refl (refl, refl) refl
      (record { edits = (refl, refl); older = λ e h. (refl, refl) }, tt)
      (record { edits = (refl, refl); older = λ e h. (refl, refl) }, tt) refl ("t0", refl, refl)
