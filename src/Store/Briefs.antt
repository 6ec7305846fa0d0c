-- ===== src/Store/Briefs.antt =====
-- The task briefs of the store (src/store.cpp).
use Prim.Native.String.{◌++◌ as append_text}
use agamemnon.Base.{
  ℕ, zero, suc, String, true, List, [], ◌∷◌, map, Option, none, some, if◌then◌else◌,
}
use agamemnon.Base.Dict.{Dict, lookup, insert}
use agamemnon.Base.Exec.{Exec, gets, modify, ◌>>◌}
use agamemnon.Base.Decimal.{to_string}
use agamemnon.HmasTypes.{TaskBrief}
use agamemnon.HmasTypes.BriefCodec.{task_brief_to_json, task_brief_from_json}
use agamemnon.Json.{JsonLibrary, find}
use agamemnon.Store.{Store, GithubClient, with_gh}
use agamemnon.Store.ByBrief.{is_empty}
use agamemnon.Store.Issue.{make_issue_body, parse_issue_entity}

-- The first `n` code points of a text.
unfoldable pub take_chars : ℕ → String → String
take_chars zero s = ""
take_chars (suc n) String.[] = ""
take_chars (suc n) (String.◌∷◌ c s) = String.◌∷◌ c (take_chars n s)

module _ (J : JsonLibrary) (client : GithubClient J.Json) where
  open J use {Json, as_integer}
  open client use {Github, list_issues, create_issue}

  abbrev S : Type 0
  S = Store Json Github

  abbrev put : TaskBrief → S → S
  put b s = record s { task_briefs = insert b.id b s.task_briefs }

  abbrev note_number : String → Option Json → S → Option S
  note_number id none s = some s
  note_number id (some n) s = elim (as_integer n) [
    | none ↦ none
    | some i ↦
        some (record s { brief_issue_numbers = insert id (to_string i) s.brief_issue_numbers })
  ]

  abbrev adopt_entity : Json → Option Json → S → S
  adopt_entity issue none s = s
  adopt_entity issue (some entity) s = elim (find J entity "id") [
    | none ↦ s
    | some _ ↦ elim (task_brief_from_json J entity) [
      | none ↦ s
      | some b ↦ elim (note_number b.id (find J issue "number") s) [ none ↦ s | some s' ↦ put b s' ]
    ]
  ]

  unfoldable pub hydrate : List Json → S → S
  hydrate [] s = s
  hydrate (issue ∷ issues) s = hydrate issues (adopt_entity issue (parse_issue_entity J issue) s)

  abbrev hydrate_from : Option (List Json) → S → S
  hydrate_from none s = record s { briefs_loaded = true }
  hydrate_from (some issues) s = let s' = hydrate issues s in record s' { briefs_loaded = true }

  abbrev load_from : Option Github → S → S
  load_from none s = record s { briefs_loaded = true }
  load_from (some g) s =
      let (issues, g') = list_issues "agamemnon-brief" g in hydrate_from issues (with_gh s g')

  unfoldable pub ensure_briefs_loaded : S → S
  unfolding hydrate
  ensure_briefs_loaded s = if s.briefs_loaded then s else load_from s.gh s

  abbrev keep_number : String → String → Dict String → Dict String
  keep_number id number numbers = if is_empty number then numbers else insert id number numbers

  -- The GitHub part of create_task_brief.
  abbrev open_issue : TaskBrief → Option Github → Exec S (Unit {0})
  open_issue brief none s = (some tt, s)
  open_issue brief (some g) s =
      let (number, g') =
        create_issue (append_text "brief: " (take_chars 80 brief.title))
          (make_issue_body J (append_text "briefs/" brief.id) (task_brief_to_json J brief))
          "agamemnon-brief" g in
      elim number [
        | none ↦ (none, with_gh s g')
        | some n ↦ (
          some tt,
          record (with_gh s g') {
            brief_issue_numbers = keep_number brief.id n s.brief_issue_numbers;
          },
        )
      ]

  unfoldable pub create_task_brief : TaskBrief → Exec S (Unit {0})
  unfolding ensure_briefs_loaded take_chars
  create_task_brief brief = do
    modify ensure_briefs_loaded
    (λ s. open_issue brief s.gh s)
    modify (put brief)

  unfoldable pub get_task_brief : String → Exec S (Option TaskBrief)
  unfolding ensure_briefs_loaded
  get_task_brief id = do modify ensure_briefs_loaded; gets (λ s. lookup id s.task_briefs)

  unfoldable pub list_task_briefs : Exec S (List TaskBrief)
  unfolding ensure_briefs_loaded
  list_task_briefs = do
    modify ensure_briefs_loaded
    gets (λ s. map (λ (p : String × TaskBrief). p.1) s.task_briefs)
