-- ===== src/Store/Sample.antt =====
-- A store with two tasks, for the examples: a module lead that is working, and a leaf that it blocks.
use agamemnon.Base.{String, ◌≡◌, true, List, [], ◌∷◌, none, some, arith, str_eq_iff}
use agamemnon.Base.Int.{pos}
use agamemnon.Base.Dict.{lookup}
use agamemnon.HmasTypes.{
  HmasTask, HmasLayer, TaskState, l2_module_lead, l3_task_agent, pending, in_progress,
}
use agamemnon.Json.Sample.{Value}
use agamemnon.Store.{Store, GithubClient, init}

-- A service with no issues, which accepts every call and forgets it.
abbrev pub quiet : GithubClient Value
quiet = record {
  Github = Unit;
  list_issues = λ label g. (some [], g);
  create_issue = λ title body label g. (some "7", g);
  update_issue_body = λ number body g. (some tt, g);
  close_issue = λ number g. (some tt, g);
}

abbrev pub task : String → String → HmasLayer → TaskState → List String → List String → HmasTask
task id parent layer state blocked_by children = record {
  id = id;
  brief_id = "b";
  parent_task_id = parent;
  layer = layer;
  state = state;
  subject = "s";
  description = "d";
  repo = "r";
  module_name = "m";
  issue = pos 3;
  assigned_lead_id = "";
  blocked_by = blocked_by;
  child_task_ids = children;
  escalations = [];
  created_at = "t0";
  completed_at = "";
}

abbrev pub lead : HmasTask
lead = task "p" "" l2_module_lead in_progress [] ("c" ∷ [])

abbrev pub leaf : HmasTask
leaf = task "c" "p" l3_task_agent pending ("p" ∷ []) []

abbrev pub store : Store Value Unit
store = record (init none) {
  hmas_tasks = ("p", lead) ∷ ("c", leaf) ∷ [];
  hmas_tasks_by_brief = ("b", "p" ∷ "c" ∷ []) ∷ [];
  hmas_tasks_loaded = true;
}

pub store_keyed : (k : String) (t : HmasTask) → lookup k store.hmas_tasks ≡ some t → t.id ≡ k
unfolding lookup
store_keyed k t h = ground (arith, str_eq_iff "p" k, str_eq_iff "c" k)
