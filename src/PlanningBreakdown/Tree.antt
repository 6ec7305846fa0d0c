-- ===== src/PlanningBreakdown/Tree.antt =====
-- The list that decompose (src/planning_breakdown.cpp) makes is a tree, written parent first.
pub mod Made
use Prim.Native.String.{◌++◌ as append_text}
use agamemnon.Base.{
  ℕ, ◌+◌, String, ◌≡◌, refl, sym, ap, subst, List, [], ◌∷◌, ◌++◌, Option, none, some, arith, length,
  Option-cases, inl, inr, if◌then◌else◌,
}
use agamemnon.Base.Dict.{Dict, lookup}
use agamemnon.HmasTypes.{HmasTask, TaskBrief, pending, layer_code}
use agamemnon.HmasTypes.BriefCodec.{bucket}
use agamemnon.PlanningBreakdown.ImplRef.{Ref, parse_impl_ref}
use agamemnon.PlanningBreakdown.{
  l3_tasks, l2_tasks, l1_tasks, tree, ids, l3_task, l2_task, l1_task, root_task, with_children,
  modules_of, impls_of, impls_in, after_prev, or_default,
}

mutual
  -- A task with the tasks below it.
  pub data Tree : Type 0 where
    node : HmasTask → Forest → Tree

  pub data Forest : Type 0 where
    nil : Forest
    cons : Tree → Forest → Forest

abbrev pub root : Tree → HmasTask
root (node t f) = t

abbrev pub roots : Forest → List HmasTask
roots nil = []
roots (cons t f) = root t ∷ roots f

mutual
  -- Each task before those below it, and siblings in order.
  pub preorder : Tree → List HmasTask
  preorder (node t f) = t ∷ preorder_all f

  pub preorder_all : Forest → List HmasTask
  preorder_all nil = []
  preorder_all (cons t f) = preorder t ++ preorder_all f

pub preorder-root : (t : Tree) → (below : List HmasTask) × (preorder t ≡ root t ∷ below)
unfolding preorder
preorder-root (node t f) = (preorder_all f, refl)

-- The one default stands in for no names.
abbrev pub or_one : String → List String → List String
or_one name [] = name ∷ []
or_one name (x ∷ xs) = x ∷ xs

-- The texts that the brief has for a module, if it has the repository.
abbrev pub listed_in : Option (Dict (List String)) → String → List String
listed_in none mod_name = []
listed_in (some mods) mod_name = bucket (lookup mod_name mods)

module _ (brief : TaskBrief) where
  -- A waiting task of the brief, `d` layers below the root, with its parent, blockers and place, and
  -- with exactly the tasks right below it in its child list.
  pub record IsTask (d : ℕ) (parent : String) (blockers : List String) (repo mod_name : String)
      (t : HmasTask) (below : Forest) : Type 0 where
    pub layer : layer_code t.layer ≡ d
    pub waits : t.state ≡ pending
    pub of_brief : t.brief_id ≡ brief.id
    pub under : t.parent_task_id ≡ parent
    pub blocked : t.blocked_by ≡ blockers
    pub in_repo : t.repo ≡ repo
    pub in_module : t.module_name ≡ mod_name
    pub children : t.child_task_ids ≡ ids (roots below)

  -- A leaf for the text: its issue is that of the annotation, and it waits for the leaf before, unless
  -- the annotation names its dependencies.
  abbrev pub IsLeaf : String → String → String → String → String → HmasTask → Type 0
  IsLeaf repo mod_name parent prev impl t =
      (ref : Ref) × (parse_impl_ref impl ≡ some ref)
      × (t.issue ≡ ref.issue)
      × (t.subject ≡ impl)
      × IsTask 3 parent (parent ∷ (if ref.has_explicit_deps then [] else after_prev prev)) repo
          mod_name t nil

  -- One leaf for each text, in order; `prev` is the id of the leaf before.
  pub AreLeaves : String → String → String → String → List String → Forest → Type 0
  AreLeaves repo mod_name parent prev [] nil = Unit
  AreLeaves repo mod_name parent prev [] (cons t f) = ⊥
  AreLeaves repo mod_name parent prev (impl ∷ impls) nil = ⊥
  AreLeaves repo mod_name parent prev (impl ∷ impls) (cons (node t (cons u g)) f) = ⊥
  AreLeaves repo mod_name parent prev (impl ∷ impls) (cons (node t nil) f) =
      IsLeaf repo mod_name parent prev impl t × AreLeaves repo mod_name parent t.id impls f

  abbrev pub impls_for : String → String → List String
  impls_for repo mod_name =
      or_one (append_text "Implement " mod_name) (listed_in (lookup repo brief.impls) mod_name)

  -- One task for each module, in order, that waits for the module before, and its leaves.
  pub AreModules : String → String → String → List String → Forest → Type 0
  AreModules repo parent prev [] nil = Unit
  AreModules repo parent prev [] (cons t f) = ⊥
  AreModules repo parent prev (mod_name ∷ mods) nil = ⊥
  AreModules repo parent prev (mod_name ∷ mods) (cons (node t g) f) =
      IsTask 2 parent (parent ∷ after_prev prev) repo mod_name t g
      × AreLeaves repo mod_name t.id "" (impls_for repo mod_name) g
      × AreModules repo parent t.id mods f

  -- One task for each repository, in order, and its modules.
  pub AreRepos : String → List String → Forest → Type 0
  AreRepos parent [] nil = Unit
  AreRepos parent [] (cons t f) = ⊥
  AreRepos parent (repo ∷ repos) nil = ⊥
  AreRepos parent (repo ∷ repos) (cons (node t g) f) =
      IsTask 1 parent (parent ∷ []) repo "" t g
      × AreModules repo t.id "" (or_one "core" (bucket (lookup repo brief.modules))) g
      × AreRepos parent repos f

  pub IsPlan : Tree → Type 0
  IsPlan (node t f) = IsTask 0 "" [] "" "" t f × AreRepos t.id brief.repos f

  pub IsPlan-root : (t : Tree) → IsPlan t → (root t).state ≡ pending
  unfolding IsPlan
  IsPlan-root (node t f) (task, _) = task.waits
