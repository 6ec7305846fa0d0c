-- ===== src/Store/Collections/Keyed.antt =====
-- Each entity of a collection is an object that names its own key under "id", and no key occurs
-- twice: what loading and writing need to keep that.
use agamemnon.Base.{
  String, ◌≡◌, refl, inl, inr, false, List, [], Option, none, some, arith, str_eq, str_eq_iff,
  Bool-cases, Option-cases, subst,
}
use agamemnon.Base.Dict.{Dict, lookup, insert, erase, lookup-insert, lookup-erase}
use agamemnon.Base.Decimal.{to_string}
use agamemnon.Base.Exec.{for_each-invariant}
use agamemnon.Base.Sorting.{HasDistinctKeys, insert-HasDistinctKeys, erase-HasDistinctKeys}
use agamemnon.Json.{JsonLibrary, find, text_at, IsObject, find-set, set-IsObject, find-IsObject}
use agamemnon.Store.{Store, GithubClient, with_gh}
use agamemnon.Store.Issue.{parse_issue_entity}
use agamemnon.Store.Collections
use agamemnon.Store.Collections.{
  Collection, agents, teams, tasks, faults, entities, put, remove, set_loaded, with_number,
  adopt_entity, adopt_all, load_from, ensure_loaded,
}

module _ (J : JsonLibrary) where
  open J use {Json, set}

  -- The entity names this id.
  pub record Names (id : String) (entity : Json) : Type 0 where
    pub object : IsObject J entity
    pub named : text_at J entity "id" ≡ some id

  pub record IsKeyed (m : Dict Json) : Type 0 where
    pub distinct : HasDistinctKeys m
    pub keyed : (id : String) (e : Json) → lookup id m ≡ some e → Names id e

  pub nothing_IsKeyed : IsKeyed []
  unfolding lookup
  nothing_IsKeyed = record { distinct = tt; keyed = λ id e found. absurd (cc) }

  -- Writing another member keeps the name.
  pub set-Names :
      (id : String) (e : Json) (k : String) (v : Json)
      → str_eq k "id" ≡ false
      → Names id e
      → Names id (set e k v)
  unfolding text_at
  set-Names id e k v other n = record {
    object = set-IsObject J e k v n.object;
    named = ground (arith, n.named, find-set J e k v "id" n.object);
  }

  insert-keyed :
      (id : String) (e : Json) (m : Dict Json) (k : String) (held : Json)
      → Names id e
      → IsKeyed m
      → lookup k (insert id e m) ≡ some held
      → Names k held
  insert-keyed id e m k held n h found = elim (Bool-cases (str_eq id k)) [
    | inl same ↦
        let keys : id ≡ k = (str_eq_iff id k).0 same in
        let values : e ≡ held = ground (arith, same, found, lookup-insert id k e m) in
        subst (λ x. Names x held) keys (subst (λ x. Names id x) values n)
    | inr other ↦ h.keyed k held (ground (arith, other, found, lookup-insert id k e m))
  ]

  pub insert-IsKeyed :
      (id : String) (e : Json) (m : Dict Json) → Names id e → IsKeyed m → IsKeyed (insert id e m)
  insert-IsKeyed id e m n h = record {
    distinct = insert-HasDistinctKeys id e m h.distinct;
    keyed = λ k held. insert-keyed id e m k held n h;
  }

  pub erase-IsKeyed : (id : String) (m : Dict Json) → IsKeyed m → IsKeyed (erase id m)
  erase-IsKeyed id m h = record {
    distinct = erase-HasDistinctKeys id m h.distinct;
    keyed = λ k held found. h.keyed k held (ground (arith, found, lookup-erase id k m));
  }

module _ (J : JsonLibrary) (client : GithubClient J.Json) where
  open J use {Json, set, as_string}
  open client use {Github}

  abbrev S : Type 0
  S = Store Json Github

  -- Every collection is keyed.
  pub record AllKeyed (s : S) : Type 0 where
    pub of_agents : IsKeyed J s.agents
    pub of_teams : IsKeyed J s.teams
    pub of_tasks : IsKeyed J s.tasks
    pub of_faults : IsKeyed J s.faults

  pub put-AllKeyed :
      (c : Collection) (id : String) (e : Json) (s : S)
      → Names J id e
      → AllKeyed s
      → AllKeyed (put c id e s)
  put-AllKeyed agents id e s n h = ground (arith, insert-IsKeyed J id e s.agents n h.of_agents)
  put-AllKeyed teams id e s n h = ground (arith, insert-IsKeyed J id e s.teams n h.of_teams)
  put-AllKeyed tasks id e s n h = ground (arith, insert-IsKeyed J id e s.tasks n h.of_tasks)
  put-AllKeyed faults id e s n h = ground (arith, insert-IsKeyed J id e s.faults n h.of_faults)

  pub remove-AllKeyed :
      (c : Collection) (id : String) (s : S) → AllKeyed s → AllKeyed (remove c id s)
  remove-AllKeyed agents id s h = ground (arith, erase-IsKeyed J id s.agents h.of_agents)
  remove-AllKeyed teams id s h = ground (arith, erase-IsKeyed J id s.teams h.of_teams)
  remove-AllKeyed tasks id s h = ground (arith, erase-IsKeyed J id s.tasks h.of_tasks)
  remove-AllKeyed faults id s h = ground (arith, erase-IsKeyed J id s.faults h.of_faults)

  set_loaded-AllKeyed : (c : Collection) (s : S) → AllKeyed s → AllKeyed (set_loaded c s)
  set_loaded-AllKeyed agents s h = ground arith
  set_loaded-AllKeyed teams s h = ground arith
  set_loaded-AllKeyed tasks s h = ground arith
  set_loaded-AllKeyed faults s h = ground arith

  pub with_gh-AllKeyed : (s : S) (g : Github) → AllKeyed s → AllKeyed (with_gh s g)
  with_gh-AllKeyed s g h = ground arith

  pub AllKeyed-lookup :
      (c : Collection) (s : S) (id : String) {e : Json}
      → AllKeyed s
      → lookup id (entities c s) ≡ some e
      → Names J id e
  AllKeyed-lookup agents s id {e} h found = h.of_agents.keyed id e found
  AllKeyed-lookup teams s id {e} h found = h.of_teams.keyed id e found
  AllKeyed-lookup tasks s id {e} h found = h.of_tasks.keyed id e found
  AllKeyed-lookup faults s id {e} h found = h.of_faults.keyed id e found

  found-Names :
      (key : String) (e : Json) {id : Json}
      → find J e "id" ≡ some id
      → as_string id ≡ some key
      → Names J key e
  unfolding text_at
  found-Names key e found is_key = record {
    object = find-IsObject J e "id" found;
    named = ground (arith, found, is_key);
  }

  -- An entity that was read names the key under which it is stored.
  pub numbered-Names :
      (key : String) (e : Json) (number : Option Json) {id e' : Json}
      → find J e "id" ≡ some id
      → as_string id ≡ some key
      → Collections.numbered J client e number ≡ some e'
      → Names J key e'
  numbered-Names key e none found is_key h =
      subst (Names J key) (ground (arith, h)) (found-Names key e found is_key)
  numbered-Names key e (some number) found is_key h = elim (Option-cases (J.as_integer number)) [
    | inl absent ↦ absurd (ground (arith, absent, h))
    | inr (i, there) ↦ subst (Names J key) (ground (arith, there, h)) (
        set-Names J key e "_github_issue" (J.string (to_string i)) refl
          (found-Names key e found is_key))
  ]

  store_entity-AllKeyed :
      (c : Collection) (id : Json) (o : Option Json) (s : S)
      → ((key : String) (e : Json) → as_string id ≡ some key → o ≡ some e → Names J key e)
      → AllKeyed s
      → AllKeyed (Collections.store_entity J client c id o s).1
  store_entity-AllKeyed c id none s names h = h
  store_entity-AllKeyed c id (some e) s names h = elim (Option-cases (as_string id)) [
    | inl absent ↦ rw (absent, Collections.store_entity) h
    | inr (key, is_key) ↦
        rw (is_key, Collections.store_entity) (put-AllKeyed c key e s (names key e is_key refl) h)
  ]

  adopt_entity-AllKeyed :
      (c : Collection) (issue : Json) (o : Option Json) (s : S)
      → AllKeyed s
      → AllKeyed (adopt_entity J client c issue o s).1
  adopt_entity-AllKeyed c issue none s h = h
  adopt_entity-AllKeyed c issue (some e) s h = elim (Option-cases (find J e "id")) [
    | inl absent ↦ rw (absent, adopt_entity) h
    | inr (id, found) ↦
        rw (found, adopt_entity)
          (store_entity-AllKeyed c id (Collections.numbered J client e (find J issue "number")) s
            (λ key e' is_key. numbered-Names key e (find J issue "number") found is_key) h)
  ]

  adopt_all-AllKeyed :
      (c : Collection) (o : Option (List Json)) (s : S)
      → AllKeyed s
      → AllKeyed (adopt_all J client c o s).1
  adopt_all-AllKeyed c none s h = h
  adopt_all-AllKeyed c (some issues) s h =
      for_each-invariant AllKeyed issues
        (λ issue. adopt_entity J client c issue (parse_issue_entity J issue)) s
        (λ issue. adopt_entity-AllKeyed c issue (parse_issue_entity J issue)) h

  load_from-AllKeyed :
      (c : Collection) (o : Option Github) (s : S)
      → AllKeyed s
      → AllKeyed (load_from J client c o s).1
  load_from-AllKeyed c none s h = h
  load_from-AllKeyed c (some g) s h =
      let (issues, g') = client.list_issues (Collections.label c) g in
      adopt_all-AllKeyed c issues (with_gh s g') (with_gh-AllKeyed s g' h)

  pub ensure_loaded-AllKeyed :
      (c : Collection) (s : S) → AllKeyed s → AllKeyed (ensure_loaded J client c s).1
  unfolding ensure_loaded
  ensure_loaded-AllKeyed c s h =
      ground (
        arith,
        load_from-AllKeyed c s.gh s h,
        set_loaded-AllKeyed c (load_from J client c s.gh s).1,
      )
