-- ===== src/PlanningBreakdown/Wiring.antt =====
-- The post-pass of decompose: the explicit issue dependencies. Tasks are named by their places in
-- the list, as in the code.
pub mod Extension
use agamemnon.Base.{
  get_elem?, ℕ, zero, suc, ◌+◌, String, Bool, true, false, not, ◌&&◌, ◌||◌, List, [], ◌∷◌, ◌++◌,
  Option, none, some, length, str_eq, if◌then◌else◌,
}
use agamemnon.Base.Int.{ℤ, pos, negsuc, is_zero, leb_ℤ}
use agamemnon.HmasTypes.{HmasTask, l3_task_agent, layer_eq}
use agamemnon.PlanningBreakdown.ImplRef.{Ref, parse_impl_ref, plain_ref}

unfoldable pub contains : String → List String → Bool
contains x [] = false
contains x (y ∷ ys) = str_eq y x || contains x ys

-- push_back, unless it is there.
unfoldable pub add_once : String → List String → List String
unfolding contains
add_once x xs = if contains x xs then xs else xs ++ (x ∷ [])

-- tasks[i] = f(tasks[i])
abbrev pub modify_at {ℓ} : {A : Type ℓ} → ℕ → (A → A) → List A → List A
modify_at i f [] = []
modify_at zero f (x ∷ xs) = f x ∷ xs
modify_at (suc i) f (x ∷ xs) = x ∷ modify_at i f xs

abbrev pub block_by : String → HmasTask → HmasTask
block_by id t = record t { blocked_by = add_once id t.blocked_by }

abbrev pub adopt_child : String → HmasTask → HmasTask
adopt_child id t = record t { child_task_ids = add_once id t.child_task_ids }

abbrev pub int_eq : ℤ → ℤ → Bool
int_eq a b = leb_ℤ a b && leb_ℤ b a

abbrev pub has_issue : HmasTask → Bool
has_issue t = layer_eq t.layer l3_task_agent && not (is_zero t.issue)

-- issue_to_idx: the place of the first leaf with that issue, `i` being the place of the list's head.
unfoldable pub find_issue : ℤ → ℕ → List HmasTask → Option ℕ
find_issue n i [] = none
find_issue n i (t ∷ ts) =
    let later = find_issue n (i + 1) ts in if has_issue t && int_eq t.issue n then some i else later

-- The blocker at place `b` gets the task at place `i` as a child, and the task the blocker.
abbrev link_ids : ℕ → ℕ → Option HmasTask → Option HmasTask → List HmasTask → List HmasTask
link_ids i b none blocker ts = ts
link_ids i b (some t) none ts = ts
link_ids i b (some t) (some blocker) ts =
    if str_eq blocker.id t.id
    then ts
    else modify_at b (adopt_child t.id) (modify_at i (block_by blocker.id) ts)

unfoldable pub link : ℕ → ℕ → List HmasTask → List HmasTask
unfolding add_once
link i b ts = link_ids i b (get_elem? ts i) (get_elem? ts b) ts

abbrev link_found : ℕ → Option ℕ → List HmasTask → List HmasTask
link_found i none ts = ts
link_found i (some b) ts = link i b ts

unfoldable pub wire_deps : ℕ → List ℤ → List HmasTask → List HmasTask
unfolding find_issue link
wire_deps i [] ts = ts
wire_deps i (dep ∷ deps) ts = wire_deps i deps (link_found i (find_issue dep 0 ts) ts)

abbrev deps_of : HmasTask → Option Ref → List ℤ
deps_of t none = []
deps_of t (some ref) = if has_issue t then ref.depends_on else []

-- The annotation was parsed once before, without an exception.
abbrev deps_at : Option HmasTask → List ℤ
deps_at none = []
deps_at (some t) = deps_of t (parse_impl_ref t.subject)

-- The loop over the tasks, with the number of tasks left.
unfoldable pub wire_from : ℕ → ℕ → List HmasTask → List HmasTask
unfolding wire_deps
wire_from zero i ts = ts
wire_from (suc left) i ts = wire_from left (i + 1) (wire_deps i (deps_at (get_elem? ts i)) ts)

unfoldable pub wire_all : List HmasTask → List HmasTask
unfolding wire_from
wire_all ts = wire_from (length ts) 0 ts
