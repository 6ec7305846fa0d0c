-- ===== src/Store/Requests/Steps.antt =====
-- Steps of the store's operations that keep every collection keyed.
use agamemnon.Base.{String, Option}
use agamemnon.Base.Dict.{lookup}
use agamemnon.Base.Exec
use agamemnon.Base.Exec.{Exec}
use agamemnon.Base.Triples.{Each, then-Triple, state-Triple, Each-of}
use agamemnon.Json.{JsonLibrary}
use agamemnon.Store.{Store, GithubClient}
use agamemnon.Store.Collections.{Collection, entities, ensure_loaded}
use agamemnon.Store.Collections.Keyed.{Names, AllKeyed-lookup}
use agamemnon.Store.Collections.Writes.{Keyed, KeepsKeyed, ensure_loaded-Triple}

module _ (J : JsonLibrary) (client : GithubClient J.Json) where
  open J use {Json, string}

  abbrev S : Type 0
  S = Store Json client.Github

  abbrev pub Keeps : {A : Type 0} → Exec S A → Type 0
  Keeps m = KeepsKeyed J client m

  -- A step that only reads the store.
  pub reads-Keeps : {A : Type 0} (f : S → Option A) → Keeps (λ s. (f s, s))
  reads-Keeps f = state-Triple (λ s h. h)

  pub loads-Keeps :
      {A : Type 0} (c : Collection) (f : S → Option A)
      → Keeps (Exec.◌>>◌ (ensure_loaded J client c) (λ s. (f s, s)))
  loads-Keeps c f = then-Triple (ensure_loaded-Triple J client c) (reads-Keeps f)

  -- An entity that is looked up names its key.
  pub lookup-Each :
      (c : Collection) (id : String) (s : S)
      → Keyed J client s
      → Each (Names J id) (lookup id (entities c s))
  lookup-Each c id s h =
      Each-of (lookup id (entities c s)) (λ e found. AllKeyed-lookup J client c s id h found)
