-- ===== src/Store/Faults.antt =====
-- The chaos faults of the store (src/store.cpp). `id` is what generate_uuid gives, and `now` what
-- now_iso8601 gives.
use Prim.Native.String.{◌++◌ as append_text}
use agamemnon.Base.{String, Bool, [], ◌∷◌}
use agamemnon.Base.Exec.{Exec, pure, modify, ◌>>=◌, ◌>>◌}
use agamemnon.Json.{JsonLibrary}
use agamemnon.Store.{Store, GithubClient}
use agamemnon.Store.Collections.{faults, put, ensure_loaded, open_issue, remove_entity}
use agamemnon.Store.Entities.{new_fault}

module _ (J : JsonLibrary) (client : GithubClient J.Json) where
  open J use {Json, object}

  abbrev S : Type 0
  S = Store Json client.Github

  unfoldable pub create_fault : String → String → String → Exec S Json
  unfolding ensure_loaded open_issue
  create_fault id now type = do
    ensure_loaded J client faults
    fault ← open_issue J client faults (append_text "fault: " type) id (new_fault J id now type)
    modify (put faults id fault)
    pure (object (("fault", fault) ∷ []))

  unfoldable pub remove_fault : String → Exec S Bool
  unfolding remove_entity
  remove_fault id = remove_entity J client faults id
