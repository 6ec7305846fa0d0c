-- ===== src/PlanningBreakdown.antt =====
-- include/agamemnon/planning_breakdown.hpp and src/planning_breakdown.cpp: the tree of tasks that a
-- brief is broken down into. The ids that generate_uuid gives are a function `uuid` of the number of
-- the call, and `ts` is the time that now_iso8601 gives.
pub mod ImplRef
pub mod Wiring
pub mod Tree
pub mod Ids
pub mod Decomposition
pub mod Examples
use Prim.Native.String.{◌++◌ as append_text}
use agamemnon.Base.{
  ℕ, suc, ◌+◌, String, Bool, List, [], ◌∷◌, ◌++◌, map, Option, none, some, length, str_eq,
  if◌then◌else◌, not, ◌||◌,
}
use agamemnon.Base.Dict.{Dict, lookup}
use agamemnon.Base.Int.{ℤ, pos}
use agamemnon.HmasTypes.{
  HmasLayer, HmasTask, TaskBrief, l0_chief_architect, l1_component_lead, l2_module_lead,
  l3_task_agent, pending,
}
use agamemnon.HmasTypes.BriefCodec.{bucket}
use agamemnon.Json.{◌>>=◌}
use ImplRef.{Ref, parse_impl_ref}
use Wiring.{wire_all}

abbrev is_empty : String → Bool
is_empty s = str_eq s ""

-- What the three kinds of task below the root have in common.
abbrev blank : TaskBrief → String → String → HmasTask
blank brief ts id = record {
  id = id;
  brief_id = brief.id;
  parent_task_id = "";
  layer = l0_chief_architect;
  state = pending;
  subject = "";
  description = "";
  repo = "";
  module_name = "";
  issue = pos 0;
  assigned_lead_id = "";
  blocked_by = [];
  child_task_ids = [];
  escalations = [];
  created_at = ts;
  completed_at = "";
}

-- blocked_by gets the id of the task before, if there is one.
abbrev after_prev : String → List String
after_prev prev = if is_empty prev then [] else prev ∷ []

-- `[]` becomes the one default.
abbrev or_default : String → List String → List String
or_default d [] = d ∷ []
or_default d (x ∷ xs) = x ∷ xs

abbrev ids : List HmasTask → List String
ids = map (λ (t : HmasTask). t.id)

abbrev title_of : TaskBrief → String → String
title_of brief place = append_text brief.title (append_text " [" (append_text place "]"))

-- The tasks right below it are its child list.
abbrev with_children : HmasTask → List HmasTask → HmasTask
with_children t children = record t { child_task_ids = ids children }

module _ (uuid : ℕ → String) (ts : String) (brief : TaskBrief) where
  abbrev l3_task : String → String → String → String → Ref → String → ℕ → HmasTask
  l3_task repo mod_name l2_id prev ref impl_desc n = record (blank brief ts (uuid n)) {
    parent_task_id = l2_id;
    layer = l3_task_agent;
    repo = repo;
    module_name = mod_name;
    subject = impl_desc;
    description = impl_desc;
    blocked_by = l2_id ∷ (if ref.has_explicit_deps then [] else after_prev prev);
    issue = ref.issue;
  }

  -- The leaves of a module, from the `n`-th id on; `prev` is the id of the leaf before.
  l3_tasks : String → String → String → String → List String → ℕ → Option (List HmasTask)
  l3_tasks repo mod_name l2_id prev [] n = some []
  l3_tasks repo mod_name l2_id prev (impl_desc ∷ impls) n =
      let rest = l3_tasks repo mod_name l2_id (uuid n) impls (n + 1) in
      parse_impl_ref impl_desc >>= λ ref.
      rest >>= λ ts'. some (l3_task repo mod_name l2_id prev ref impl_desc n ∷ ts')

  abbrev impls_in : Option (Dict (List String)) → String → List String
  impls_in none mod_name = []
  impls_in (some mods) mod_name = bucket (lookup mod_name mods)

  abbrev impls_of : String → String → List String
  impls_of repo mod_name =
      or_default (append_text "Implement " mod_name) (impls_in (lookup repo brief.impls) mod_name)

  abbrev l2_task : String → String → String → String → ℕ → HmasTask
  l2_task repo l1_id prev mod_name n = record (blank brief ts (uuid n)) {
    parent_task_id = l1_id;
    layer = l2_module_lead;
    repo = repo;
    module_name = mod_name;
    subject = title_of brief (append_text repo (append_text "/" mod_name));
    description =
        append_text "Lead module implementation: " (append_text mod_name (append_text " in " repo));
    blocked_by = l1_id ∷ after_prev prev;
  }

  -- The modules of a repository, from the `n`-th id on: the L2 tasks, and all tasks in order.
  l2_tasks : String → String → String → List String → ℕ → Option (List HmasTask × List HmasTask)
  l2_tasks repo l1_id prev [] n = some ([], [])
  l2_tasks repo l1_id prev (mod_name ∷ mods) n =
      let impls = impls_of repo mod_name in
      let rest = l2_tasks repo l1_id (uuid n) mods (n + 1 + length impls) in
      l3_tasks repo mod_name (uuid n) "" impls (n + 1) >>= λ leaves. rest >>= λ r.
      let l2 = with_children (l2_task repo l1_id prev mod_name n) leaves in
      some (l2 ∷ r.0, (l2 ∷ leaves) ++ r.1)

  abbrev modules_of : String → List String
  modules_of repo = or_default "core" (bucket (lookup repo brief.modules))

  abbrev l1_task : String → String → ℕ → HmasTask
  l1_task root_id repo n = record (blank brief ts (uuid n)) {
    parent_task_id = root_id;
    layer = l1_component_lead;
    repo = repo;
    subject = title_of brief repo;
    description = append_text "Coordinate implementation for repo: " repo;
    blocked_by = root_id ∷ [];
  }

  l1_tasks : String → List String → ℕ → Option (List HmasTask × List HmasTask)
  l1_tasks root_id [] n = some ([], [])
  l1_tasks root_id (repo ∷ repos) n =
      l2_tasks repo (uuid n) "" (modules_of repo) (n + 1) >>= λ below.
      let l1 = with_children (l1_task root_id repo n) below.0 in
      l1_tasks root_id repos (n + 1 + length below.1) >>= λ r.
      some (l1 ∷ r.0, (l1 ∷ below.1) ++ r.1)

  abbrev root_task : ℕ → HmasTask
  root_task n = record (blank brief ts (uuid n)) {
    subject = brief.title;
    description = brief.description;
  }

  -- The tree before the explicit dependencies are wired.
  unfoldable pub tree : ℕ → Option (List HmasTask)
  unfolding l3_tasks l2_tasks l1_tasks
  tree n =
      l1_tasks (uuid n) brief.repos (n + 1) >>= λ r. some (with_children (root_task n) r.0 ∷ r.1)

  -- decompose, where the first id is the `n`-th; `none` is the exception of parse_impl_ref.
  unfoldable pub decompose : ℕ → Option (List HmasTask)
  unfolding tree wire_all
  decompose n = tree n >>= λ ts'. some (wire_all ts')
