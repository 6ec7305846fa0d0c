-- ===== src/Store/Requests/EventWrites.antt =====
-- The events of GitHub keep every collection keyed.
use agamemnon.Base.{
  ◌≡◌, str_eq, String, ℕ, Bool, true, false, List, [], ◌∷◌, Option, none, some, refl,
}
use agamemnon.Base.Triples.{
  Each, bind-Triple, then-Triple, modify-Triple, pure-Triple, lift-Triple, state-Triple,
  read-Triple, if_Triple,
}
use agamemnon.Json.{JsonLibrary, value_string}
use agamemnon.Store.Issue.{parse_issue_entity}
use agamemnon.Store.{Store, GithubClient, with_gh}
use agamemnon.Store.Collections.{Collection, agents, teams, tasks, faults, pick_collection}
use agamemnon.Store.Collections.Keyed.{Names, with_gh-AllKeyed, set-Names}
use agamemnon.Store.Collections.Writes.{
  Keyed, record_metric-AllKeyed, ensure_loaded-Triple, put-Triple,
}
use agamemnon.Store.Sync
use agamemnon.Store.Requests.Steps.{Keeps, reads-Keeps, lookup-Each}
use agamemnon.Store.Sync.Names.{IsNamed, read_entity-IsNamed}

module _ (J : JsonLibrary) (client : GithubClient J.Json) where
  open J use {Json, string}

  abbrev S : Type 0
  S = Store Json client.Github

  open client use {Github}

  answer-Keeps :
      (outcome : String) (applied : Bool) → Keeps J client (Sync.answer J client outcome applied)
  answer-Keeps outcome applied =
      then-Triple (modify-Triple (record_metric-AllKeyed J client _)) (pure-Triple _ (record {}))

  set_text-Names :
      (id : String) (e : Json) (k t : String)
      → str_eq k "id" ≡ false
      → Names J id e
      → Names J id (J.set e k (string t))
  set_text-Names id e k t other n = set-Names J id e k (string t) other n

  close_held-Keeps :
      (c : Collection) (id updated_at : String) (o : Option Json)
      → Each (Names J id) o
      → Keeps J client (Sync.close_held J client c id updated_at o)
  close_held-Keeps c id updated_at none n = pure-Triple _ (record {})
  close_held-Keeps c id updated_at (some e) n =
      then-Triple
        (put-Triple J client c id _ (
          set_text-Names id _ "updatedAt" updated_at refl (
            set_text-Names id _ "closedAt" updated_at refl
              (set_text-Names id e "status" "closed" refl n))))
        (answer-Keeps _ _)

  reopened-Names :
      (id updated_at : String) (e : Json) (o : Option Json)
      → Names J id e
      → Each (Names J id) o
      → Names J id (Sync.reopened J client updated_at e o)
  reopened-Names id updated_at e none n n' = n
  reopened-Names id updated_at e (some held) n n' =
      set_text-Names id _ "updatedAt" updated_at refl
        (set_text-Names id held "status" "active" refl n')

  settle-Keeps :
      (c : Collection) (id updated_at : String) (e : Json) (stale : Bool)
      → Names J id e
      → Keeps J client (Sync.settle J client c updated_at id e stale)
  settle-Keeps c id updated_at e true n = answer-Keeps _ _
  settle-Keeps c id updated_at e false n =
      then-Triple (put-Triple J client c id _ (set_text-Names id e "updatedAt" updated_at refl n))
        (answer-Keeps _ _)

  apply_held-Keeps :
      (c : Collection) (action updated_at id : String) (e : Json) (o : Option Json)
      → Names J id e
      → Each (Names J id) o
      → Keeps J client (Sync.apply_held J client c action updated_at id e o)
  apply_held-Keeps c action updated_at id e o n n' =
      if_Triple (str_eq action "closed") (close_held-Keeps c id updated_at o n') (
        if_Triple (str_eq action "reopened")
          (then-Triple (put-Triple J client c id _ (reopened-Names id updated_at e o n n'))
            (answer-Keeps _ _))
          (bind-Triple (reads-Keeps J client (λ s. Sync.skips J client updated_at o))
            (λ stale a. settle-Keeps c id updated_at e stale n)))

  apply_read-Keeps :
      (c : Collection) (action updated_at : String) (o : Option (String × Json))
      → Each (IsNamed J client) o
      → Keeps J client (Sync.apply_read J client c action updated_at o)
  unfolding IsNamed
  apply_read-Keeps c action updated_at none n = reads-Keeps J client (λ s. some false)
  apply_read-Keeps c action updated_at (some (id, e)) n =
      read-Triple
        (λ s h. apply_held-Keeps c action updated_at id e _ n (lookup-Each J client c id s h))

  apply_to-Keeps :
      (o : Option Collection) (action : String) (issue : Json) (updated_at : String)
      → Keeps J client (Sync.apply_to J client o action issue updated_at)
  unfolding Sync.read_event
  apply_to-Keeps none action issue updated_at = pure-Triple _ (record {})
  apply_to-Keeps (some c) action issue updated_at = then-Triple (ensure_loaded-Triple J client c) (
      bind-Triple
        (lift-Triple _ _ (read_entity-IsNamed J client issue (parse_issue_entity J issue)))
        (apply_read-Keeps c action updated_at))

  pub apply_github_event-Keeps :
      (label action : String) (issue : Json) (updated_at : String)
      → Keeps J client (Sync.apply_github_event J client label action issue updated_at)
  unfolding Sync.apply_github_event
  apply_github_event-Keeps label action issue updated_at =
      apply_to-Keeps (pick_collection label) action issue updated_at

  apply_all-Keeps :
      (name : String) (issues : List Json) (changed : ℕ)
      → Keeps J client (Sync.apply_all J client name issues changed)
  unfolding Sync.apply_all
  apply_all-Keeps name [] changed = pure-Triple _ (record {})
  apply_all-Keeps name (issue ∷ issues) changed =
      bind-Triple (reads-Keeps J client (λ s. value_string J issue "updated_at" ""))
        (λ updated_at a.
          bind-Triple (apply_github_event-Keeps name "edited" issue updated_at)
            (λ applied b. apply_all-Keeps name issues _))

  fetched-Keeps :
      (name : String) (changed : ℕ) (o : Option (List Json))
      → Keeps J client (Sync.fetched J client name changed o)
  fetched-Keeps name changed none = pure-Triple _ (record {})
  fetched-Keeps name changed (some issues) = apply_all-Keeps name issues changed

  reconcile_label-Keyed :
      (name : String) (changed : ℕ) (o : Option Github) (s : S)
      → Keyed J client s
      → Keyed J client (Sync.reconcile_label J client name changed o s).1
  reconcile_label-Keyed name changed none s h = h
  reconcile_label-Keyed name changed (some g) s h =
      let (issues, g') = client.list_issues name g in
      ((fetched-Keeps name changed issues).holds (with_gh s g')
        (with_gh-AllKeyed J client s g' h)).0

  reconcile_all-Keeps :
      (cs : List Collection) (changed : ℕ) → Keeps J client (Sync.reconcile_all J client cs changed)
  reconcile_all-Keeps [] changed = pure-Triple _ (record {})
  reconcile_all-Keeps (c ∷ cs) changed =
      bind-Triple (state-Triple (λ s h. reconcile_label-Keyed _ changed s.gh s h))
        (λ changed' a. reconcile_all-Keeps cs changed')

  reconcile_with-Keeps : (o : Option Github) → Keeps J client (Sync.reconcile_with J client o)
  reconcile_with-Keeps none = pure-Triple _ (record {})
  reconcile_with-Keeps (some g) = reconcile_all-Keeps (agents ∷ teams ∷ tasks ∷ faults ∷ []) 0

  pub reconcile_from_github-Keeps : Keeps J client (Sync.reconcile_from_github J client)
  unfolding Sync.reconcile_from_github
  reconcile_from_github-Keeps = read-Triple (λ s h. reconcile_with-Keeps s.gh)
