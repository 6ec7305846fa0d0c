-- ===== src/Store/Entities/Names.antt =====
-- What the create and update operations build names its id.
use agamemnon.Base.{
  String, ◌≡◌, refl, true, false, List, [], ◌∷◌, Option, none, some, arith, if◌then◌else◌, str_eq,
  str_eq_iff, subst, Bool-cases, inl, inr,
}
use agamemnon.Base.Dict.{Dict}
use agamemnon.Base.Triples.{Each}
use agamemnon.Json.{JsonLibrary, find, ◌>>=◌}
use agamemnon.Store.Collections.Keyed.{Names, set-Names}
use agamemnon.Store.Collections.Writes.{object-Names}
use agamemnon.Store.Entities
use agamemnon.Store.Entities.{
  new_agent, new_team, new_task, new_fault, merge, is_one_of, updated_agent, updated_team,
  updated_task,
}

>>=-Each {κ} :
    {A B : Type 0} (Q : B → Type κ) (o : Option A) (f : A → Option B)
    → ((a : A) → Each Q (f a))
    → Each Q (o >>= f)
>>=-Each Q none f h = tt
>>=-Each Q (some a) f h = h a

not_kept :
    (key : String) (kept : List String)
    → is_one_of "id" kept ≡ true
    → is_one_of key kept ≡ false
    → str_eq key "id" ≡ false
not_kept key kept k other = elim (Bool-cases (str_eq key "id")) [
  | inl same ↦
      absurd
        (ground (arith, subst (λ x. is_one_of x kept ≡ false) ((str_eq_iff key "id").0 same) other))
  | inr differs ↦ differs
]

module _ (J : JsonLibrary) (id : String) where
  open J use {Json}

  abbrev NamesSecond : String × Json → Type 0
  NamesSecond p = Names J id p.1

  pub new_agent-Names : (now : String) (body : Json) → Each NamesSecond (new_agent J id now body)
  unfolding new_agent
  new_agent-Names now body = search (>>=-Each, object-Names) depth 14

  pub new_team-Names : (now : String) (body : Json) → Each NamesSecond (new_team J id now body)
  unfolding new_team
  new_team-Names now body = search (>>=-Each, object-Names)

  pub new_task-Names :
      (now team_id : String) (body : Json) → Each NamesSecond (new_task J id now team_id body)
  unfolding new_task
  new_task-Names now team_id body = search (>>=-Each, object-Names) depth 14

  pub new_fault-Names : (now type : String) → Names J id (new_fault J id now type)
  unfolding new_fault
  new_fault-Names now type = object-Names J id _

  kept-Names :
      (key : String) (kept : List String) (value e : Json)
      → is_one_of "id" kept ≡ true
      → Names J id e
      → Names J id (if is_one_of key kept then e else J.set e key value)
  kept-Names key kept value e k n = elim (Bool-cases (is_one_of key kept)) [
    | inl yes' ↦ rw yes' n
    | inr other ↦ rw other (set-Names J id e key value (not_kept key kept k other) n)
  ]

  -- A field that is not kept has another key than "id".
  pub merge-Names :
      (kept : List String) (fields : Dict Json) (e : Json)
      → is_one_of "id" kept ≡ true
      → Names J id e
      → Names J id (merge J kept fields e)
  unfolding merge
  merge-Names kept [] e k n = n
  merge-Names kept ((key, value) ∷ fields) e k n =
      merge-Names kept fields (if is_one_of key kept then e else J.set e key value) k
        (kept-Names key kept value e k n)

  pub updated_agent-Names :
      (now : String) (fields : Dict Json) (e : Json)
      → Names J id e
      → Names J id (updated_agent J now fields e)
  updated_agent-Names now fields e n =
      set-Names J id (merge J _ fields e) "updatedAt" (J.string now) refl
        (merge-Names _ fields e refl n)

  with_ids-Names :
      (o o' : Option Json) (e : Json) → Names J id e → Names J id (Entities.with_ids J o o' e)
  with_ids-Names (some ids) o' e n = set-Names J id e "agentIds" ids refl n
  with_ids-Names none (some ids) e n = set-Names J id e "agentIds" ids refl n
  with_ids-Names none none e n = n

  with_name-Names :
      (o : Option Json) (e : Json) → Names J id e → Names J id (Entities.with_name J o e)
  with_name-Names none e n = n
  with_name-Names (some name) e n = set-Names J id e "name" name refl n

  pub updated_team-Names :
      (now : String) (body e : Json) → Names J id e → Names J id (updated_team J now body e)
  unfolding updated_team
  updated_team-Names now body e n = set-Names J id _ "updatedAt" (J.string now) refl (
      with_name-Names (find J body "name") _
        (with_ids-Names (find J body "agentIds") (find J body "agent_ids") e n))

  stamped-Names :
      (now : String) (body e : Json) → Names J id e → Names J id (Entities.stamped J now body e)
  stamped-Names now body e n = ground (arith, set-Names J id e "completedAt" (J.string now) refl n)

  pub updated_task-Names :
      (now : String) (body : Json) (fields : Dict Json) (e : Json)
      → Names J id e
      → Names J id (updated_task J now body fields e)
  unfolding updated_task
  updated_task-Names now body fields e n = set-Names J id _ "updatedAt" (J.string now) refl (
      stamped-Names now body _ (
        merge-Names ("id" ∷ "teamId" ∷ "createdAt" ∷ "_github_issue" ∷ "updatedAt" ∷ []) fields e
          refl n))
