-- ===== src/PlanningBreakdown/Tree/Made.antt =====
-- What decompose (src/planning_breakdown.cpp) makes before its post-pass is the tree of the brief.
use Prim.Native.String.{◌++◌ as append_text}
use agamemnon.Base.{
  ℕ, ◌+◌, String, ◌≡◌, refl, sym, ap, subst, List, [], ◌∷◌, Option, none, some, arith, length,
  Option-cases, inl, inr,
}
use agamemnon.Base.Dict.{Dict, lookup}
use agamemnon.HmasTypes.{HmasTask, TaskBrief, pending, layer_code}
use agamemnon.HmasTypes.BriefCodec.{bucket}
use agamemnon.PlanningBreakdown.ImplRef.{parse_impl_ref}
use agamemnon.PlanningBreakdown.{
  l3_tasks, l2_tasks, l1_tasks, tree, ids, l3_task, l2_task, l1_task, root_task, with_children,
  modules_of, impls_of, impls_in, or_default,
}
use agamemnon.PlanningBreakdown.Tree.{
  Tree, Forest, node, nil, cons, roots, preorder, preorder_all, or_one, listed_in, IsTask,
  AreLeaves, AreModules, AreRepos, IsPlan,
}

or_default-eq : (name : String) (xs : List String) → or_default name xs ≡ or_one name xs
or_default-eq name [] = refl
or_default-eq name (x ∷ xs) = refl

module _ (brief : TaskBrief) (uuid : ℕ → String) (ts : String) where
  impls_in-listed :
      (o : Option (Dict (List String))) (name mod_name : String)
      → or_default name (impls_in uuid ts brief o mod_name) ≡ or_one name (listed_in o mod_name)
  impls_in-listed none name mod_name = refl
  impls_in-listed (some mods) name mod_name = or_default-eq name (bucket (lookup mod_name mods))

  made-IsTask :
      (d : ℕ) (t : HmasTask) (made : List HmasTask) (f : Forest)
      → layer_code t.layer ≡ d
      → t.state ≡ pending
      → t.brief_id ≡ brief.id
      → roots f ≡ made
      → IsTask brief d t.parent_task_id t.blocked_by t.repo t.module_name (with_children t made) f
  made-IsTask d t made f l s b q = record {
    layer = l;
    waits = s;
    of_brief = b;
    under = refl;
    blocked = refl;
    in_repo = refl;
    in_module = refl;
    children = ap ids (sym q);
  }

  -- What a chain of steps that may throw gave, when it gave something.
  leaves-AreLeaves :
      (repo mod_name l2_id prev : String) (impls : List String) (n : ℕ) (made : List HmasTask)
      → l3_tasks uuid ts brief repo mod_name l2_id prev impls n ≡ some made
      → (f : Forest) × (preorder_all f ≡ made)
        × (roots f ≡ made)
        × AreLeaves brief repo mod_name l2_id prev impls f
  unfolding l3_tasks preorder_all preorder AreLeaves
  leaves-AreLeaves repo mod_name l2_id prev [] n made h = (nil, ground arith, ground arith, tt)
  leaves-AreLeaves repo mod_name l2_id prev (impl ∷ impls) n made h =
      elim (Option-cases (parse_impl_ref impl)) [
        | inl e ↦ absurd (ground (arith, e))
        | inr (ref, e) ↦
            elim (Option-cases
              (l3_tasks uuid ts brief repo mod_name l2_id (uuid n) impls (n + 1))) [
                | inl e' ↦ absurd (ground (arith, e, e'))
                | inr (rest, e') ↦
                    let (f, p, q, a) =
                      leaves-AreLeaves repo mod_name l2_id (uuid n) impls (n + 1) rest e' in
                    let t = l3_task uuid ts brief repo mod_name l2_id prev ref impl n in
                    (
                      cons (node t nil) f,
                      ground (arith, e, e', p),
                      ground (arith, e, e', q),
                      ((ref, e, refl, refl, made-IsTask 3 t [] nil refl refl refl refl), a),
                    )
              ]
      ]

  modules-AreModules :
      (repo l1_id prev : String) (mods : List String) (n : ℕ) (made : List HmasTask × List HmasTask)
      → l2_tasks uuid ts brief repo l1_id prev mods n ≡ some made
      → (f : Forest) × (preorder_all f ≡ made.1)
        × (roots f ≡ made.0)
        × AreModules brief repo l1_id prev mods f
  unfolding l2_tasks preorder_all preorder AreModules
  modules-AreModules repo l1_id prev [] n made h = (nil, ground arith, ground arith, tt)
  modules-AreModules repo l1_id prev (mod_name ∷ mods) n made h =
      let impls = impls_of uuid ts brief repo mod_name in
      let m = n + 1 + length impls in
      elim (Option-cases (l3_tasks uuid ts brief repo mod_name (uuid n) "" impls (n + 1))) [
        | inl e ↦ absurd (ground (arith, e))
        | inr (leaves, e) ↦
            elim (Option-cases (l2_tasks uuid ts brief repo l1_id (uuid n) mods m)) [
              | inl e' ↦ absurd (ground (arith, e, e'))
              | inr (rest, e') ↦
                  let (g, p, q, b) =
                    leaves-AreLeaves repo mod_name (uuid n) "" impls (n + 1) leaves e in
                  let (f, p', q', a) = modules-AreModules repo l1_id (uuid n) mods m rest e' in
                  let t = l2_task uuid ts brief repo l1_id prev mod_name n in
                  (
                    cons (node (with_children t leaves) g) f,
                    ground (arith, e, e', p, p'),
                    ground (arith, e, e', q'),
                    (
                      made-IsTask 2 t leaves g refl refl refl q,
                      subst (λ l. AreLeaves brief repo mod_name (uuid n) "" l g)
                          (impls_in-listed (lookup repo brief.impls)
                            (append_text "Implement " mod_name) mod_name)
                          b,
                      a,
                    ),
                  )
            ]
      ]

  repos-AreRepos :
      (root_id : String) (repos : List String) (n : ℕ) (made : List HmasTask × List HmasTask)
      → l1_tasks uuid ts brief root_id repos n ≡ some made
      → (f : Forest) × (preorder_all f ≡ made.1)
        × (roots f ≡ made.0)
        × AreRepos brief root_id repos f
  unfolding l1_tasks preorder_all preorder AreRepos
  repos-AreRepos root_id [] n made h = (nil, ground arith, ground arith, tt)
  repos-AreRepos root_id (repo ∷ repos) n made h =
      elim (Option-cases
        (l2_tasks uuid ts brief repo (uuid n) "" (modules_of uuid ts brief repo) (n + 1))) [
          | inl e ↦ absurd (ground (arith, e))
          | inr (below, e) ↦
              elim (Option-cases (l1_tasks uuid ts brief root_id repos (n + 1 + length below.1))) [
                | inl e' ↦ absurd (ground (arith, e, e'))
                | inr (rest, e') ↦
                    let (g, p, q, b) =
                      modules-AreModules repo (uuid n) "" (modules_of uuid ts brief repo) (n + 1)
                        below e in
                    let (f, p', q', a) =
                      repos-AreRepos root_id repos (n + 1 + length below.1) rest e' in
                    let t = l1_task uuid ts brief root_id repo n in
                    (
                      cons (node (with_children t below.0) g) f,
                      ground (arith, e, e', p, p'),
                      ground (arith, e, e', q'),
                      (
                        made-IsTask 1 t below.0 g refl refl refl q,
                        subst (λ l. AreModules brief repo (uuid n) "" l g)
                            (or_default-eq "core" (bucket (lookup repo brief.modules))) b,
                        a,
                      ),
                    )
              ]
        ]

  -- What is made before the explicit dependencies are wired is a plan.
  pub tree-IsPlan :
      (n : ℕ) (made : List HmasTask)
      → tree uuid ts brief n ≡ some made
      → (t : Tree) × (preorder t ≡ made) × IsPlan brief t
  unfolding tree preorder IsPlan
  tree-IsPlan n made h = elim (Option-cases (l1_tasks uuid ts brief (uuid n) brief.repos (n + 1))) [
    | inl e ↦ absurd (ground (arith, e))
    | inr (below, e) ↦
        let (f, p, q, a) = repos-AreRepos (uuid n) brief.repos (n + 1) below e in
        let t = root_task uuid ts brief n in
        (
          node (with_children t below.0) f,
          ground (arith, e, p),
          (made-IsTask 0 t below.0 f refl refl refl q, a),
        )
  ]
