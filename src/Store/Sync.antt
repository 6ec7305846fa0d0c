-- ===== src/Store/Sync.antt =====
-- What GitHub tells the store (src/store.cpp): apply_github_event for one issue, where an edit wins
-- over the held entity if its time stamp is later, and reconcile_from_github for all issues.
pub mod Names
pub mod Outcome
pub mod Order
use agamemnon.Base.{
  ℕ, ◌+◌, String, Bool, true, false, List, [], ◌∷◌, Option, none, some, if◌then◌else◌, str_eq, ◌&&◌,
  not,
}
use agamemnon.Base.Dict.{Dict, lookup}
use agamemnon.Base.Exec.{Exec, pure, lift, modify, ◌>>=◌, ◌>>◌}
use agamemnon.Base.Order.{text_ltb}
use agamemnon.Json.{JsonLibrary, find, value_string}
use agamemnon.Store.{Store, GithubClient, with_gh, inbound_sync, record_metric}
use agamemnon.Store.ByBrief.{is_empty}
use agamemnon.Store.Collections.{
  Collection, agents, teams, tasks, faults, label, entities, put, ensure_loaded, numbered,
  pick_collection,
}
use agamemnon.Store.Issue.{parse_issue_entity}

-- An edit at `updated_at` is stale if the held time stamp is at least as late: local >= remote, both
-- not empty.
unfoldable pub is_stale : String → String → Bool
is_stale local remote = not (is_empty local) && not (text_ltb local remote)

module _ (J : JsonLibrary) (client : GithubClient J.Json) where
  open J use {Json, string, set, as_string}
  open client use {Github, list_issues}

  abbrev S : Type 0
  S = Store Json Github

  abbrev pub identified : Json → Option String → Option Json → Option (Option (String × Json))
  identified entity none numbered = none
  identified entity (some id) none = none
  identified entity (some id) (some entity') = some (some (id, entity'))

  abbrev pub read_entity : Json → Option Json → Option (Option (String × Json))
  read_entity issue none = some none
  read_entity issue (some entity) = elim (find J entity "id") [
    | none ↦ some none
    | some id ↦ identified entity (as_string id) (numbered J client entity (find J issue "number"))
  ]

  -- The id and the entity of an issue: no result where the entity is malformed, and an exception
  -- where its id or its number has the wrong type.
  unfoldable pub read_event : Json → Option (Option (String × Json))
  read_event issue = read_entity issue (parse_issue_entity J issue)

  -- metrics_->record_inbound_sync(outcome), and the answer.
  abbrev pub answer : String → Bool → Exec S Bool
  answer outcome applied = do modify (record_metric (inbound_sync outcome)); pure applied

  abbrev pub close_held : Collection → String → String → Option Json → Exec S Bool
  close_held c id updated_at none = pure false
  close_held c id updated_at (some held) = do
    modify (
        put c id (
          set (set (set held "status" (string "closed")) "closedAt" (string updated_at)) "updatedAt"
            (string updated_at)))
    answer "closed" true

  abbrev pub reopened : String → Json → Option Json → Json
  reopened updated_at entity none = entity
  reopened updated_at entity (some held) =
      set (set held "status" (string "active")) "updatedAt" (string updated_at)

  -- Whether the held entity makes the edit stale; a time stamp that is no text throws.
  abbrev pub skips : String → Option Json → Option Bool
  skips updated_at none = some false
  skips updated_at (some held) =
      if is_empty updated_at then some false else (elim (value_string J held "updatedAt" "") [
        | none ↦ none
        | some local ↦ some (is_stale local updated_at)
      ])

  -- The answer, and the write if the edit is not stale.
  abbrev pub settle : Collection → String → String → Json → Bool → Exec S Bool
  settle c updated_at id entity true = answer "skipped_stale" false
  settle c updated_at id entity false = do
    modify (put c id (set entity "updatedAt" (string updated_at)))
    answer "applied" true

  abbrev pub edit : Collection → String → String → Json → Option Json → Exec S Bool
  edit c updated_at id entity held = do
    stale ← lift (skips updated_at held)
    settle c updated_at id entity stale

  abbrev pub apply_held : Collection → String → String → String → Json → Option Json → Exec S Bool
  apply_held c action updated_at id entity held =
      if str_eq action "closed"
      then close_held c id updated_at held
      else if str_eq action "reopened"
      then (do modify (put c id (reopened updated_at entity held)); answer "reopened" true)
      else edit c updated_at id entity held

  abbrev pub apply_read : Collection → String → String → Option (String × Json) → Exec S Bool
  apply_read c action updated_at none s = (some false, s)
  apply_read c action updated_at (some (id, entity)) s =
      apply_held c action updated_at id entity (lookup id (entities c s)) s

  abbrev pub apply_to : Option Collection → String → Json → String → Exec S Bool
  apply_to none action issue updated_at = pure false
  apply_to (some c) action issue updated_at = do
    ensure_loaded J client c
    event ← lift (read_event issue)
    apply_read c action updated_at event

  unfoldable pub apply_github_event : String → String → Json → String → Exec S Bool
  unfolding ensure_loaded read_event pick_collection is_stale
  apply_github_event entity_label action issue updated_at =
      apply_to (pick_collection entity_label) action issue updated_at

  -- The loop over the issues of a label, with the number of changes so far.
  unfoldable pub apply_all : String → List Json → ℕ → Exec S ℕ
  apply_all name [] changed = pure changed
  apply_all name (issue ∷ issues) changed = do
    updated_at ← lift (value_string J issue "updated_at" "")
    applied ← apply_github_event name "edited" issue updated_at
    apply_all name issues (if applied then changed + 1 else changed)

  abbrev pub fetched : String → ℕ → Option (List Json) → Exec S ℕ
  fetched name changed none = pure changed
  fetched name changed (some issues) = apply_all name issues changed

  -- One label; a fetch that throws is passed over.
  abbrev pub reconcile_label : String → ℕ → Option Github → Exec S ℕ
  reconcile_label name changed none s = (some changed, s)
  reconcile_label name changed (some g) s =
      let (issues, g') = list_issues name g in fetched name changed issues (with_gh s g')

  abbrev pub reconcile_all : List Collection → ℕ → Exec S ℕ
  reconcile_all [] changed = pure changed
  reconcile_all (c ∷ cs) changed = do
    changed' ← (λ s. reconcile_label (label c) changed s.gh s)
    reconcile_all cs changed'

  abbrev pub reconcile_with : Option Github → Exec S ℕ
  reconcile_with none = pure 0
  reconcile_with (some _) = reconcile_all (agents ∷ teams ∷ tasks ∷ faults ∷ []) 0

  -- The number of entities that changed.
  unfoldable pub reconcile_from_github : Exec S ℕ
  unfolding apply_all
  reconcile_from_github s = reconcile_with s.gh s
