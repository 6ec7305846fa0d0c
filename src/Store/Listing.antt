-- ===== src/Store/Listing.antt =====
-- The paginated listings of src/store.cpp: the entries sorted by key, and of these a page.
pub mod Pages
use agamemnon.Base.{
  ℕ, String, List, [], ◌∷◌, ◌++◌, Option, none, some, ltb, if◌then◌else◌, length, drop,
}
use agamemnon.Base.Dict.{Dict}
use agamemnon.Base.Exec.{Exec, gets, lift, ◌>>=◌, ◌>>◌}
use agamemnon.Base.Int.{pos}
use agamemnon.Base.Sorting.{sort_by_key}
use agamemnon.Json.{JsonLibrary}
use agamemnon.Store.{Store, GithubClient}
use agamemnon.Store.Collections.{Collection, agents, teams, faults, entities, ensure_loaded}

module _ {V : Type 0} where
  -- The loop: what is left from `offset` on, and what has been pushed.
  unfoldable pub page_loop : ℕ → Dict V → List V → List V
  page_loop limit [] arr = arr
  page_loop limit ((key, value) ∷ rest) arr =
      let more = page_loop limit rest (arr ++ (value ∷ [])) in
      if ltb (length arr) limit then more else arr

  unfoldable pub page : ℕ → ℕ → Dict V → List V
  unfolding page_loop
  page limit offset m = page_loop limit (drop offset (sort_by_key m)) []

module _ (J : JsonLibrary) (client : GithubClient J.Json) where
  open J use {Json, array, integer, object}

  abbrev S : Type 0
  S = Store Json client.Github

  -- The answer of a listing, whose entries are at `key`.
  unfoldable pub listing : String → ℕ → ℕ → Dict Json → Json
  unfolding page
  listing key limit offset m = object (
      (key, array (page limit offset m))
      ∷ ("total", integer (pos (length m)))
      ∷ ("limit", integer (pos limit))
      ∷ ("offset", integer (pos offset))
      ∷ [])

  unfoldable pub list_agents : ℕ → ℕ → Exec S Json
  unfolding ensure_loaded
  list_agents limit offset = do
    ensure_loaded J client agents
    gets (λ s. listing "agents" limit offset s.agents)

  unfoldable pub list_teams : ℕ → ℕ → Exec S Json
  unfolding ensure_loaded
  list_teams limit offset = do
    ensure_loaded J client teams
    gets (λ s. listing "teams" limit offset s.teams)

  unfoldable pub list_faults : ℕ → ℕ → Exec S Json
  unfolding ensure_loaded
  list_faults limit offset = do
    ensure_loaded J client faults
    gets (λ s. listing "faults" limit offset s.faults)
