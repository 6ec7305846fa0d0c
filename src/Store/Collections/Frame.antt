-- ===== src/Store/Collections/Frame.antt =====
-- What loading a collection and writing to it leave alone: every view of the store that a write to
-- the collection's map, to its flag and to GitHub leaves alone.
use agamemnon.Base.{String, ◌≡◌, refl, ◌∙◌, List, Option, none, some, arith}
use agamemnon.Base.Exec.{for_each-keeps}
use agamemnon.Base.Dict.{Dict}
use agamemnon.Json.{JsonLibrary}
use agamemnon.Store.{Store, GithubClient, with_gh}
use agamemnon.Store.Issue.{parse_issue_entity}
use agamemnon.Store.Collections
use agamemnon.Store.Collections.{
  Collection, with_entities, set_loaded, adopt_entity, adopt_all, load_from, ensure_loaded,
  call_numbered, open_issue,
}

module _ (J : JsonLibrary) (client : GithubClient J.Json) (c : Collection) where
  open J use {Json}
  open client use {Github}

  pub record IsFrame {V : Type 0} (view : Store Json Github → V) : Type 0 where
    pub written : (m : Dict Json) (s : Store Json Github) → view (with_entities c m s) ≡ view s
    pub flagged : (s : Store Json Github) → view (set_loaded c s) ≡ view s
    pub called : (s : Store Json Github) (g : Github) → view (with_gh s g) ≡ view s

  module _ {V : Type 0} (view : Store Json Github → V) (frame : IsFrame view) where
    adopt_entity-keeps :
        (issue : Json) (o : Option Json) (s : Store Json Github)
        → view (adopt_entity J client c issue o s).1 ≡ view s
    adopt_entity-keeps issue o s = grind (arith, frame.written)

    adopt_all-keeps :
        (o : Option (List Json)) (s : Store Json Github)
        → view (adopt_all J client c o s).1 ≡ view s
    adopt_all-keeps none s = refl
    adopt_all-keeps (some issues) s =
        for_each-keeps view issues
          (λ issue. adopt_entity J client c issue (parse_issue_entity J issue)) s
          (λ issue. adopt_entity-keeps issue (parse_issue_entity J issue))

    load_from-keeps :
        (o : Option Github) (s : Store Json Github) → view (load_from J client c o s).1 ≡ view s
    load_from-keeps none s = refl
    load_from-keeps (some g) s =
        let (issues, g') = client.list_issues (Collections.label c) g in
        adopt_all-keeps issues (with_gh s g') ∙ frame.called s g'

    pub ensure_loaded-keeps : (s : Store Json Github) → view (ensure_loaded J client c s).1 ≡ view s
    unfolding ensure_loaded
    ensure_loaded-keeps s = grind (arith, load_from-keeps s.gh s, frame.flagged)

    pub call_numbered-keeps :
        (call : String → Github → Option (Unit {0}) × Github) (e : Json) (s : Store Json Github)
        → view (call_numbered J client call e s).1 ≡ view s
    unfolding call_numbered
    call_numbered-keeps call e s = grind (arith, frame.called)

    pub open_issue-keeps :
        (title id : String) (e : Json) (s : Store Json Github)
        → view (open_issue J client c title id e s).1 ≡ view s
    unfolding open_issue
    open_issue-keeps title id e s = grind (arith, frame.called)
