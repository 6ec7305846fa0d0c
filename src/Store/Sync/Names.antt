-- ===== src/Store/Sync/Names.antt =====
-- What the store reads from an issue names its id.
use agamemnon.Base.{◌≡◌, String, inl, inr, Option, none, some, Option-cases, subst}
use agamemnon.Base.Triples.{Each}
use agamemnon.Json.{JsonLibrary, find}
use agamemnon.Store.{GithubClient}
use agamemnon.Store.Issue.{parse_issue_entity}
use agamemnon.Store.Collections.{numbered}
use agamemnon.Store.Collections.Keyed.{Names, numbered-Names}
use agamemnon.Store.Sync
use agamemnon.Store.Sync.{read_event}

module _ (J : JsonLibrary) (client : GithubClient J.Json) where
  open J use {Json}

  unfoldable pub IsNamed : String × Json → Type 0
  IsNamed p = Names J p.0 p.1

  identified-IsNamed :
      (e : Json) (number : Option Json) {held : Json}
      → find J e "id" ≡ some held
      → Each
          (Each IsNamed)
          (Sync.identified J client e (J.as_string held) (numbered J client e number))
  unfolding IsNamed
  identified-IsNamed e number {held} found = elim (Option-cases (J.as_string held)) [
    | inl absent ↦ rw (absent, Sync.identified) tt
    | inr (key, is_key) ↦ elim (Option-cases (numbered J client e number)) [
      | inl absent ↦ rw (is_key, absent, Sync.identified) tt
      | inr (e', done) ↦
          rw (is_key, done, Sync.identified)
            (numbered-Names J client key e number found is_key done)
    ]
  ]

  pub read_entity-IsNamed :
      (issue : Json) (o : Option Json) → Each (Each IsNamed) (Sync.read_entity J client issue o)
  unfolding IsNamed
  read_entity-IsNamed issue none = tt
  read_entity-IsNamed issue (some e) = elim (Option-cases (find J e "id")) [
    | inl absent ↦ rw (absent, Sync.read_entity) tt
    | inr (held, found) ↦
        rw (found, Sync.read_entity) (identified-IsNamed e (find J issue "number") found)
  ]

  pub read_event-Names :
      (issue : Json) {id : String} {e : Json}
      → read_event J client issue ≡ some (some (id, e))
      → Names J id e
  unfolding read_event IsNamed
  read_event-Names issue h =
      subst (Each (Each IsNamed)) h (read_entity-IsNamed issue (parse_issue_entity J issue))
