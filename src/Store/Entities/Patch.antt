-- ===== src/Store/Entities/Patch.antt =====
-- An update writes the fields it is given, but for the kept ones.
use agamemnon.Base.{
  String, ◌≡◌, inl, inr, Bool, List, [], ◌∷◌, Option, none, some, arith, if◌then◌else◌, str_eq,
  str_eq_iff, Bool-cases, ◌&&◌,
}
use agamemnon.Base.Dict.{Dict, lookup}
use agamemnon.Base.Sorting.{HasDistinctKeys}
use agamemnon.Json.{JsonLibrary, find, find-set, IsObject, set-IsObject}
use agamemnon.Store.Entities.{merge, is_one_of, updated_agent, updated_task}
use agamemnon.Store.Entities

-- The first of the two.
abbrev pub or_else {ℓ} : {A : Type ℓ} → Option A → Option A → Option A
or_else none second = second
or_else (some a) second = some a

module _ (J : JsonLibrary) where
  open J use {Json, set, string}

  pub merge-IsObject :
      (kept : List String) (fields : Dict Json) (e : Json)
      → IsObject J e
      → IsObject J (merge J kept fields e)
  unfolding merge
  merge-IsObject kept [] e o = o
  merge-IsObject kept ((key, value) ∷ fields) e o = elim (Bool-cases (is_one_of key kept)) [
    | inl yes' ↦ rw yes' (merge-IsObject kept fields e o)
    | inr other ↦
        rw other (merge-IsObject kept fields (set e key value) (set-IsObject J e key value o))
  ]

  -- A kept field is as it was; of the others, those of the update are as it says.
  pub find-merge :
      (kept : List String) (fields : Dict Json) (e : Json) (k : String)
      → IsObject J e
      → HasDistinctKeys fields
      → find J (merge J kept fields e) k
        ≡ (if is_one_of k kept then find J e k else or_else (lookup k fields) (find J e k))
  unfolding merge lookup
  find-merge kept [] e k o h = ground arith
  find-merge kept ((key, value) ∷ fields) e k o (fresh, h) = ground (
    arith,
    find-merge kept fields e k o h,
    find-merge kept fields (set e key value) k (set-IsObject J e key value o) h,
    find-set J e key value k o,
    str_eq_iff key k,
  )

  abbrev agent_kept : List String
  agent_kept = "id" ∷ "createdAt" ∷ "_github_issue" ∷ "updatedAt" ∷ []

  -- What an updated agent holds under each key.
  pub find-updated_agent :
      (now : String) (fields : Dict Json) (e : Json) (k : String)
      → IsObject J e
      → HasDistinctKeys fields
      → find J (updated_agent J now fields e) k ≡ (
          if str_eq "updatedAt" k
          then some (string now)
          else if is_one_of k agent_kept
          then find J e k
          else or_else (lookup k fields) (find J e k))
  find-updated_agent now fields e k o h = ground (
    arith,
    find-set J (merge J agent_kept fields e) "updatedAt" (string now) k
        (merge-IsObject agent_kept fields e o),
    find-merge agent_kept fields e k o h,
  )

  abbrev task_kept : List String
  task_kept = "id" ∷ "teamId" ∷ "createdAt" ∷ "_github_issue" ∷ "updatedAt" ∷ []

  -- What the merge of a task update gives for the key, before the stamps.
  abbrev pub patched : Dict Json → Json → String → Option Json
  patched fields e k =
      if is_one_of k task_kept then find J e k else or_else (lookup k fields) (find J e k)

  -- The update asks for completion, and the task, after the merge, has no time of completion.
  abbrev pub first_completion : Json → Dict Json → Json → Bool
  first_completion body fields e =
      Entities.completes J (find J body "status")
      && Entities.never_completed J (patched fields e "completedAt")

  stamped-IsObject :
      (now : String) (body e : Json) → IsObject J e → IsObject J (Entities.stamped J now body e)
  stamped-IsObject now body e o =
      elim (Bool-cases (
        Entities.completes J (find J body "status")
        && Entities.never_completed J (find J e "completedAt"))) [
          | inl first ↦ rw first (set-IsObject J e "completedAt" (string now) o)
          | inr other ↦ rw other o
        ]

  -- What an updated task holds under each key.
  pub find-updated_task :
      (now : String) (body : Json) (fields : Dict Json) (e : Json) (k : String)
      → IsObject J e
      → HasDistinctKeys fields
      → find J (updated_task J now body fields e) k ≡ (
          if str_eq "updatedAt" k
          then some (string now)
          else if first_completion body fields e && str_eq "completedAt" k
          then some (string now)
          else patched fields e k)
  unfolding updated_task
  find-updated_task now body fields e k o h = ground (
    arith,
    find-set J (Entities.stamped J now body (merge J task_kept fields e)) "updatedAt" (string now) k
        (stamped-IsObject now body _ (merge-IsObject task_kept fields e o)),
    find-set J (merge J task_kept fields e) "completedAt" (string now) k
        (merge-IsObject task_kept fields e o),
    find-merge task_kept fields e k o h,
    find-merge task_kept fields e "completedAt" o h,
  )
