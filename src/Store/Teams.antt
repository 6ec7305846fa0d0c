-- ===== src/Store/Teams.antt =====
-- The teams of the store (src/store.cpp). A team is a JSON object; `id` is what generate_uuid
-- gives, and `now` what now_iso8601 gives.
use Prim.Native.String.{◌++◌ as append_text}
use agamemnon.Base.{String, Bool, [], ◌∷◌}
use agamemnon.Base.Exec.{Exec, pure, lift, modify, ◌>>=◌, ◌>>◌}
use agamemnon.Json.{JsonLibrary}
use agamemnon.Store.{Store, GithubClient}
use agamemnon.Store.Collections.{
  teams, put, ensure_loaded, open_issue, or_null, find_entity, change_entity, remove_entity,
}
use agamemnon.Store.Entities.{new_team, updated_team}

module _ (J : JsonLibrary) (client : GithubClient J.Json) where
  open J use {Json, object}

  abbrev S : Type 0
  S = Store Json client.Github

  unfoldable pub create_team : String → String → Json → Exec S Json
  unfolding ensure_loaded open_issue
  create_team id now body = do
    ensure_loaded J client teams
    (name, team) ← lift (new_team J id now body)
    team' ← open_issue J client teams (append_text "team: " name) id team
    modify (put teams id team')
    pure (object (("team", team') ∷ []))

  unfoldable pub get_team : String → Exec S Json
  unfolding find_entity
  get_team id = find_entity J client teams id

  unfoldable pub update_team : String → String → Json → Exec S Json
  unfolding change_entity
  update_team now id body = do
    changed ← change_entity J client teams id (updated_team J now body)
    pure (or_null J client changed)

  unfoldable pub delete_team : String → Exec S Bool
  unfolding remove_entity
  delete_team id = remove_entity J client teams id
