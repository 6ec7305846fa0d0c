-- ===== src/HmasTypes/BriefCodec.antt =====
-- The JSON form of briefs (src/hmas_types.cpp).
use agamemnon.Base.{String, List, [], ◌∷◌, ◌++◌, map, Option, none, some}
use agamemnon.Base.Dict.{Dict, lookup, insert}
use agamemnon.Json.{JsonLibrary, find, value_string, ◌>>=◌}
use agamemnon.HmasTypes.{TaskBrief}
use agamemnon.HmasTypes.Codec.{strings, read_array}

-- d[k], which a missing key makes empty.
abbrev pub bucket {ℓ} : {A : Type ℓ} → Option (List A) → List A
bucket none = []
bucket (some xs) = xs

-- d[k].push_back(x)
unfoldable pub push_entry {ℓ} : {A : Type ℓ} → String → A → Dict (List A) → Dict (List A)
push_entry k x d = insert k (bucket (lookup k d) ++ (x ∷ [])) d

-- d[k], which a missing key makes an empty dictionary.
abbrev inner {ℓ} : {A : Type ℓ} → Option (Dict A) → Dict A
inner none = []
inner (some m) = m

module _ (J : JsonLibrary) where
  open J use {Json, string, object, members, elements, as_string}

  abbrev entries_to_json : {A : Type 0} → (A → Json) → Dict A → Dict Json
  entries_to_json {A} write d = map (λ (p : String × A). (p.0, write p.1)) d

  unfoldable pub task_brief_to_json : TaskBrief → Json
  task_brief_to_json brief = object (
      ("id", string brief.id)
      ∷ ("title", string brief.title)
      ∷ ("description", string brief.description)
      ∷ ("repos", strings J brief.repos)
      ∷ ("modules", object (entries_to_json (strings J) brief.modules))
      ∷ (
        "impls",
        object (entries_to_json (λ mods. object (entries_to_json (strings J) mods)) brief.impls),
      )
      ∷ [])

  -- The texts of an array, each pushed to `d[k]`; an element that is no text throws.
  push_texts : String → List Json → Dict (List String) → Option (Dict (List String))
  push_texts k [] d = some d
  push_texts k (x ∷ xs) d = as_string x >>= λ s. push_texts k xs (push_entry k s d)

  -- The loop over the members of an object of arrays; members that are no array are passed over.
  read_modules : Dict Json → Dict (List String) → Option (Dict (List String))
  read_modules [] d = some d
  read_modules ((repo, mods) ∷ rest) d = elim (elements mods) [
    | none ↦ read_modules rest d
    | some xs ↦ push_texts repo xs d >>= λ d'. read_modules rest d'
  ]

  -- brief.impls[repo][mod].push_back(t) for the texts of an array.
  push_impls :
      String → String → List Json → Dict (Dict (List String)) → Option (Dict (Dict (List String)))
  push_impls repo m [] d = some d
  push_impls repo m (x ∷ xs) d = as_string x >>= λ s.
      push_impls repo m xs (insert repo (push_entry m s (inner (lookup repo d))) d)

  read_repo_impls :
      String → Dict Json → Dict (Dict (List String)) → Option (Dict (Dict (List String)))
  read_repo_impls repo [] d = some d
  read_repo_impls repo ((m, tasks) ∷ rest) d = elim (elements tasks) [
    | none ↦ read_repo_impls repo rest d
    | some xs ↦ push_impls repo m xs d >>= λ d'. read_repo_impls repo rest d'
  ]

  read_impls : Dict Json → Dict (Dict (List String)) → Option (Dict (Dict (List String)))
  read_impls [] d = some d
  read_impls ((repo, mod_map) ∷ rest) d = elim (members mod_map) [
    | none ↦ read_impls rest d
    | some ms ↦ read_repo_impls repo ms d >>= λ d'. read_impls rest d'
  ]

  -- A member that is missing or no object leaves the dictionary empty.
  abbrev read_object :
      {A : Type 0} → (Dict Json → Dict A → Option (Dict A)) → Option Json → Option (Dict A)
  read_object read none = some []
  read_object read (some v) = elim (members v) [ none ↦ some [] | some ms ↦ read ms [] ]

  unfoldable pub task_brief_from_json : Json → Option TaskBrief
  unfolding push_texts read_modules push_impls read_repo_impls read_impls push_entry
  task_brief_from_json j = do
    id ← value_string J j "id" ""
    title ← value_string J j "title" ""
    description ← value_string J j "description" ""
    repos ← read_array J as_string (find J j "repos")
    modules ← read_object read_modules (find J j "modules")
    impls ← read_object read_impls (find J j "impls")
    some (record {
      id = id;
      title = title;
      description = description;
      repos = repos;
      modules = modules;
      impls = impls;
    })
