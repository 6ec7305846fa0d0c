-- ===== src/Store/Collections/Writes.antt =====
-- The shared steps of the operations keep every collection keyed, also where they throw.
use Prim.Native.String.{◌++◌ as append_text}
use agamemnon.Base.{String, ◌≡◌, refl, true, false, ◌∷◌, Option, none, some, arith}
use agamemnon.Base.Dict.{Dict, lookup}
use agamemnon.Base.Exec
use agamemnon.Base.Exec.{Exec}
use agamemnon.Base.Triples.{
  Each, Triple, Any, then-Triple, modify-Triple, pure-Triple, state-Triple, read-Triple,
}
use agamemnon.Json.{JsonLibrary, text_at, find-object, object-IsObject}
use agamemnon.Store.{Store, GithubClient, MetricCall, record_metric}
use agamemnon.Store.Issue.{make_issue_body}
use agamemnon.Store.Collections
use agamemnon.Store.Collections.{
  Collection, entities, put, remove, with_number, ensure_loaded, open_issue, call_numbered,
  change_entity, remove_entity, find_entity,
}
use agamemnon.Store.Collections.Keyed.{
  Names, AllKeyed, set-Names, put-AllKeyed, remove-AllKeyed, with_gh-AllKeyed, AllKeyed-lookup,
  ensure_loaded-AllKeyed,
}

module _ (J : JsonLibrary) where
  open J use {Json, string, object}

  -- An object whose first member is this id.
  pub object-Names :
      (id : String) (rest : Dict Json) → Names J id (object (("id", string id) ∷ rest))
  unfolding text_at lookup
  object-Names id rest = record {
    object = object-IsObject J (("id", string id) ∷ rest);
    named = ground (arith, find-object J (("id", string id) ∷ rest) "id", J.as_string_string id);
  }

module _ (J : JsonLibrary) (client : GithubClient J.Json) where
  open J use {Json, set, as_string}
  open client use {Github}

  abbrev S : Type 0
  S = Store Json Github

  abbrev pub Keyed : S → Type 0
  Keyed = AllKeyed J client

  abbrev pub KeepsKeyed : {A : Type 0} → Exec S A → Type 0
  KeepsKeyed m = Triple Keyed m Any

  pub record_metric-AllKeyed : (call : MetricCall) (s : S) → Keyed s → Keyed (record_metric call s)
  record_metric-AllKeyed call s h = ground arith

  pub ensure_loaded-Triple : (c : Collection) → KeepsKeyed (ensure_loaded J client c)
  ensure_loaded-Triple c = state-Triple (ensure_loaded-AllKeyed J client c)

  pub call_numbered-Triple :
      (call : String → Exec Github (Unit {0})) (e : Json)
      → KeepsKeyed (call_numbered J client call e)
  unfolding call_numbered
  call_numbered-Triple call e = state-Triple (λ s h. ground arith)

  pub write_back-Triple :
      (c : Collection) (id : String) (e : Json)
      → KeepsKeyed (Collections.write_back J client c id e)
  write_back-Triple c id e =
      call_numbered-Triple
        (λ n.
          client.update_issue_body n (make_issue_body J (append_text (Collections.folder c) id) e))
        e

  with_number-Names :
      (n id : String) (e : Json) → Names J id e → Names J id (with_number J client n e)
  with_number-Names n id e h = ground (arith, set-Names J id e "_github_issue" (J.string n) refl h)

  numbered_entity-Names :
      (id : String) (e : Json) (number : Option String)
      → Names J id e
      → Each (Names J id) (Collections.numbered_entity J client e number)
  numbered_entity-Names id e none n = tt
  numbered_entity-Names id e (some number) n = with_number-Names number id e n

  opened_in-holds :
      (c : Collection) (title id : String) (e : Json) (o : Option Github) (s : S)
      → Names J id e
      → Keyed s
      → Keyed (Collections.opened_in J client c title id e o s).1
        × Each (Names J id) (Collections.opened_in J client c title id e o s).0
  opened_in-holds c title id e none s n h = (h, n)
  opened_in-holds c title id e (some g) s n h =
      let (number, g') =
        client.create_issue title (make_issue_body J (append_text (Collections.folder c) id) e)
          (Collections.label c) g in
      (with_gh-AllKeyed J client s g' h, numbered_entity-Names id e number n)

  pub open_issue-Triple :
      (c : Collection) (title id : String) (e : Json)
      → Names J id e
      → Triple Keyed (open_issue J client c title id e) (Names J id)
  unfolding open_issue
  open_issue-Triple c title id e n = record {
    holds = λ s h. opened_in-holds c title id e s.gh s n h;
  }

  pub put-Triple :
      (c : Collection) (id : String) (e : Json)
      → Names J id e
      → KeepsKeyed (Exec.modify (put {Json = Json} {Github = Github} c id e))
  put-Triple c id e n = modify-Triple (λ s h. put-AllKeyed J client c id e s n h)

  changed_in-Triple :
      (c : Collection) (id : String) (change : Json → Json) (o : Option Json)
      → ((e : Json) → o ≡ some e → Names J id (change e))
      → KeepsKeyed (Collections.changed_in J client c id change o)
  unfolding call_numbered
  changed_in-Triple c id change none keeps = pure-Triple none (record {})
  changed_in-Triple c id change (some e) keeps =
      then-Triple (put-Triple c id (change e) (keeps e refl)) (
        then-Triple (write_back-Triple c id (change e)) (pure-Triple (some (change e)) (record {})))

  pub change_entity-Triple :
      (c : Collection) (id : String) (change : Json → Json)
      → ((e : Json) → Names J id e → Names J id (change e))
      → KeepsKeyed (change_entity J client c id change)
  unfolding change_entity
  change_entity-Triple c id change keeps = then-Triple (ensure_loaded-Triple c) (
      read-Triple (λ s h.
        changed_in-Triple c id change (lookup id (entities c s))
          (λ e found. keeps e (AllKeyed-lookup J client c s id h found))))

  removed_in-Triple :
      (c : Collection) (id : String) (o : Option Json)
      → KeepsKeyed (Collections.removed_in J client c id o)
  unfolding call_numbered
  removed_in-Triple c id none = pure-Triple false (record {})
  removed_in-Triple c id (some e) = then-Triple (call_numbered-Triple client.close_issue e) (
      then-Triple (modify-Triple (λ s h. remove-AllKeyed J client c id s h))
        (pure-Triple true (record {})))

  pub remove_entity-Triple :
      (c : Collection) (id : String) → KeepsKeyed (remove_entity J client c id)
  unfolding remove_entity
  remove_entity-Triple c id =
      then-Triple (ensure_loaded-Triple c)
        (read-Triple (λ s h. removed_in-Triple c id (lookup id (entities c s))))
