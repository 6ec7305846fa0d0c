-- ===== src/PlanningBreakdown/Decomposition.antt =====
-- decompose (src/planning_breakdown.cpp) as a whole: what it returns.
use agamemnon.Base.{
  ℕ, String, ◌≡◌, refl, subst, List, [], ◌∷◌, some, arith, length, Option-cases, inl, inr,
}
use agamemnon.HmasTypes.{HmasTask, TaskBrief}
use agamemnon.PlanningBreakdown.Wiring.{wire_all}
use agamemnon.PlanningBreakdown.Wiring.Extension.{AllExtended, wire_all-AllExtended}
use agamemnon.PlanningBreakdown.Tree.{Tree, preorder, IsPlan}
use agamemnon.PlanningBreakdown.Tree.Made.{tree-IsPlan}
use agamemnon.PlanningBreakdown.Ids.{drawn, tree-drawn}
use agamemnon.PlanningBreakdown.{tree, ids, decompose}

ids-Extended :
    (xs ys : List HmasTask) → AllExtended xs ys → (ids xs ≡ ids ys) × (length xs ≡ length ys)
ids-Extended [] [] e = (refl, refl)
ids-Extended [] (y ∷ ys) e = absurd e
ids-Extended (x ∷ xs) [] e = absurd e
ids-Extended (x ∷ xs) (y ∷ ys) ((bs, cs, e), es) =
    let (same, l) = ids-Extended xs ys es in (ground (arith, e, same), ground (arith, l))

module _ (uuid : ℕ → String) (ts : String) (brief : TaskBrief) where
  -- What decompose returns is the tree of the brief in preorder, up to its explicit dependencies.
  -- The root has layer 0, no parent and no blocker. Below it is one task of layer 1 for each repository
  -- of the brief, blocked by the root; below each of these one task of layer 2 for each module that the
  -- brief lists for the repository, or for "core" if it lists none, blocked by the task above and by
  -- the module before; below each of these one task of layer 3 for each implementation text, or for the
  -- one default text, with the issue of its annotation, blocked by the task above and, unless the
  -- annotation names dependencies, by the leaf before. Each task is Pending, of the brief, names its
  -- parent and lists exactly the tasks right below it as its children. A task before that has the empty
  -- text as its id is not put among the blockers. The explicit dependencies only put further blockers
  -- and children at the ends of these lists. The ids are the draws of generate_uuid in the order of the
  -- list.
  pub decompose-IsPlan :
      (n : ℕ) (made : List HmasTask)
      → decompose uuid ts brief n ≡ some made
      → (t : Tree) × IsPlan brief t
        × AllExtended (preorder t) made
        × (ids made ≡ drawn uuid n (length made))
  unfolding decompose
  decompose-IsPlan n made h = elim (Option-cases (tree uuid ts brief n)) [
    | inl e ↦ absurd (ground (arith, e))
    | inr (before, e) ↦
        let (t, p, plan) = tree-IsPlan brief uuid ts n before e in
        let d = tree-drawn uuid ts brief n before e in
        let x = wire_all-AllExtended before in
        let (same, l) = ids-Extended before (wire_all before) x in
        let w : wire_all before ≡ made = ground (arith, e) in
        (t, plan, rw p (subst (AllExtended before) w x), ground (arith, w, same, l, d))
  ]
