-- ===== src/PlanningBreakdown/Examples.antt =====
-- The breakdown of a concrete brief: one repository, one module, two leaves, the second of which
-- depends on the first by its issue number.
use agamemnon.Base.{
  get_elem?, ℕ, zero, suc, String, ◌≡◌, refl, List, [], ◌∷◌, Option, none, some, length,
}
use agamemnon.HmasTypes.{HmasTask, TaskBrief}
use agamemnon.PlanningBreakdown.ImplRef.{parse_impl_ref}
use agamemnon.PlanningBreakdown.Tree.{Tree, preorder, IsPlan}
use agamemnon.Base.Dict.{lookup}
use agamemnon.PlanningBreakdown.Wiring.Extension.{AllExtended}
use agamemnon.PlanningBreakdown.Ids.{drawn}
use agamemnon.PlanningBreakdown.Decomposition.{decompose-IsPlan}
use agamemnon.PlanningBreakdown.{decompose, ids}

abbrev uuid : ℕ → String
uuid zero = "u0"
uuid (suc zero) = "u1"
uuid (suc (suc zero)) = "u2"
uuid (suc (suc (suc zero))) = "u3"
uuid _ = "u4"

abbrev brief : TaskBrief
brief = record {
  id = "b";
  title = "T";
  description = "D";
  repos = "r" ∷ [];
  modules = ("r", "m" ∷ []) ∷ [];
  impls = ("r", ("m", "#1 parse" ∷ "#2 print (depends on: #1)" ∷ []) ∷ []) ∷ [];
}

abbrev at_place : ℕ → Option (List HmasTask) → Option HmasTask
at_place n none = none
at_place n (some ts) = get_elem? ts n

abbrev children : Option HmasTask → List String
children none = []
children (some t) = t.child_task_ids

abbrev blockers : Option HmasTask → List String
blockers none = []
blockers (some t) = t.blocked_by

abbrev match_leaves : Option (List HmasTask) → List String × List String
match_leaves o = (children (at_place 3 o), blockers (at_place 4 o))

-- The second leaf is among the first one's children, and blocked by it.
dependency_is_wired : (match_leaves (decompose uuid "t0" brief 0)) ≡ ("u4" ∷ [], "u2" ∷ "u3" ∷ [])
unfolding decompose parse_impl_ref lookup
dependency_is_wired = refl

abbrev unwrap : Option (List HmasTask) → List HmasTask
unwrap none = []
unwrap (some ts) = ts

abbrev made : List HmasTask
made = unwrap (decompose uuid "t0" brief 0)

decompose-IsPlan_example :
    (t : Tree) × IsPlan brief t
    × AllExtended (preorder t) made
    × (ids made ≡ drawn uuid 0 (length made))
unfolding decompose parse_impl_ref lookup
decompose-IsPlan_example = decompose-IsPlan uuid "t0" brief 0 made refl
