-- ===== src/Store/Agents/Lifecycle.antt =====
-- What a client sees of an agent that it creates, changes and deletes.
use Prim.Native.String.{◌++◌ as append_text}
use agamemnon.Base.{
  String, ◌≡◌, true, false, [], ◌∷◌, none, some, arith, if◌then◌else◌, str_eq, str_eq_iff, ◌⊎◌,
}
use agamemnon.Base.Dict.{Dict, lookup, lookup-insert, erase, lookup-erase}
use agamemnon.Base.Exec.{lift, modify, pure, ◌>>◌, >>=-eq-some}
use agamemnon.Base.Int.{pos}
use agamemnon.Base.Sorting.{HasDistinctKeys}
use agamemnon.Json.{JsonLibrary, IsObject, find, find-object}
use agamemnon.Store.Entities.{new_agent, updated_agent, is_one_of}
use agamemnon.Store.Entities.Patch.{or_else, find-updated_agent}
use agamemnon.Store.{Store, GithubClient, agent_count, record_metric}
use agamemnon.Store.Collections.{agents, put, ensure_loaded, open_issue}
use agamemnon.Store.Agents.{create_agent, get_agent, update_agent, delete_agent}

module _ (J : JsonLibrary) (client : GithubClient J.Json) where
  open J use {Json, null}

  abbrev S : Type 0
  S = Store Json client.Github

  ensure_loaded-loads :
      (s s' : S) (u : Unit {0})
      → ensure_loaded J client agents s ≡ (some u, s')
      → s'.agents_loaded ≡ true
  unfolding ensure_loaded
  ensure_loaded-loads s s' u h = ground arith

  open_issue-flag :
      (title id : String) (e : Json) (s : S)
      → (open_issue J client agents title id e s).1.agents_loaded ≡ s.agents_loaded
  unfolding open_issue
  open_issue-flag title id e s = ground arith

  created-found :
      (id : String) (agent answer : Json) (s s' : S)
      → s.agents_loaded ≡ true
      → (modify (put agents id agent)
            >> (modify (record_metric (agent_count (pos 1)))
                >> pure (J.object (("id", J.string id) ∷ ("agent", agent) ∷ []))))
          s
        ≡ (some answer, s')
      → (find J answer "agent" ≡ some agent) × (get_agent J client id s' ≡ (some agent, s'))
  unfolding get_agent lookup
  created-found id agent answer s s' loaded h = ground (
    arith,
    loaded,
    lookup-insert id id agent s.agents,
    str_eq_iff id id,
    find-object J (("id", J.string id) ∷ ("agent", agent) ∷ []) "agent",
  )

  -- An agent that was created is found, as the answer shows it.
  pub create_agent-get_agent :
      (id now : String) (body answer : Json) (s s' : S)
      → create_agent J client id now body s ≡ (some answer, s')
      → (agent : Json) × (find J answer "agent" ≡ some agent)
        × (get_agent J client id s' ≡ (some agent, s'))
  unfolding create_agent get_agent
  create_agent-get_agent id now body answer s s' h =
      let (u, s1, loads, rest) = >>=-eq-some (ensure_loaded J client agents) _ s h in
      let (p, s2, reads, rest2) = >>=-eq-some (lift (new_agent J id now body)) _ s1 rest in
      let (agent, s3, opens, rest3) =
        >>=-eq-some (open_issue J client agents _ id p.1) _ s2 rest2 in
      let loaded = ensure_loaded-loads s s1 u loads in
      let kept = open_issue-flag (append_text "agent: " p.0) id p.1 s2 in
      let (shown, found) =
        created-found id agent answer s3 s' (ground (arith, loaded, kept, reads, opens)) rest3 in
      (agent, shown, found)

  -- What a deletion does to the loaded agents, whatever GitHub answers: the agent is erased exactly
  -- where the answer is true, and where closing its issue throws nothing is.
  pub delete_agent_effect :
      (id : String) (s : S)
      → s.agents_loaded ≡ true
      → (((delete_agent J client id s).0 ≡ some true)
          × ((delete_agent J client id s).1.agents ≡ erase id s.agents)
          × (lookup id (delete_agent J client id s).1.agents ≡ none))
        ⊎ (((delete_agent J client id s).0 ≡ some false)
            × ((delete_agent J client id s).1.agents ≡ s.agents)
            × (lookup id s.agents ≡ none))
        ⊎ (((delete_agent J client id s).0 ≡ none)
            × ((delete_agent J client id s).1.agents ≡ s.agents))
  unfolding delete_agent
  delete_agent_effect id s loaded = ground (arith, str_eq_iff id id, lookup-erase id id s.agents)

  -- What an update does to a loaded agent, whatever GitHub answers: the kept fields are as they were,
  -- the others as the request says, and the answer is the agent or, where GitHub throws, an exception.
  pub update_agent_effect :
      (now id : String) (fields : Json) (fs : Dict Json) (agent : Json) (s : S)
      → s.agents_loaded ≡ true
      → J.members fields ≡ some fs
      → HasDistinctKeys fs
      → lookup id s.agents ≡ some agent
      → IsObject J agent
      → (agent' : Json) × (lookup id (update_agent J client now id fields s).1.agents ≡ some agent')
        × (((update_agent J client now id fields s).0 ≡ some agent')
            ⊎ ((update_agent J client now id fields s).0 ≡ none))
        × ((k : String)
            → find J agent' k ≡ (
                if str_eq "updatedAt" k
                then some (J.string now)
                else if is_one_of k ("id" ∷ "createdAt" ∷ "_github_issue" ∷ "updatedAt" ∷ [])
                then find J agent k
                else or_else (lookup k fs) (find J agent k)))
  unfolding update_agent
  update_agent_effect now id fields fs agent s loaded is_object distinct held object = (
    updated_agent J now fs agent,
    ground (
      arith,
      loaded,
      is_object,
      held,
      str_eq_iff id id,
      lookup-insert id id (updated_agent J now fs agent) s.agents,
    ),
    ground (arith, loaded, is_object, held),
    λ k. find-updated_agent J now fs agent k object distinct,
  )
