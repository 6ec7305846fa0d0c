-- ===== src/PlanningBreakdown/Wiring/Extension.antt =====
-- What the post-pass of decompose (src/planning_breakdown.cpp) leaves as it was.
use mathlib.Core.List.{append-nil, append_assoc}
use agamemnon.Base.{
  get_elem?, ℕ, zero, suc, ◌+◌, String, ◌≡◌, List, [], ◌∷◌, ◌++◌, Option, none, some, arith,
  Bool-cases, inl, inr, str_eq, length,
}
use agamemnon.Base.Int.{ℤ}
use agamemnon.HmasTypes.{HmasTask}
use agamemnon.PlanningBreakdown.Wiring.{
  contains, add_once, modify_at, block_by, adopt_child, link, link_ids, link_found, wire_deps,
  wire_from, wire_all, find_issue, deps_at,
}

-- Further blockers and children at the ends of the two lists, and nothing else.
abbrev pub Extended : HmasTask → HmasTask → Type 0
Extended t t' =
    (bs : List String) × (cs : List String) × (t'
      ≡ record t { blocked_by = t.blocked_by ++ bs; child_task_ids = t.child_task_ids ++ cs })

-- The same number of tasks, each extended.
abbrev pub AllExtended : List HmasTask → List HmasTask → Type 0
AllExtended [] [] = Unit
AllExtended [] (t ∷ ts) = ⊥
AllExtended (t ∷ ts) [] = ⊥
AllExtended (t ∷ ts) (u ∷ us) = Extended t u × AllExtended ts us

add_once-appends :
    (x : String) (xs : List String) → (more : List String) × (add_once x xs ≡ xs ++ more)
unfolding add_once
add_once-appends x xs = elim (Bool-cases (contains x xs)) [
  | inl there ↦ ([], ground (arith, append-nil xs))
  | inr absent ↦ (x ∷ [], ground arith)
]

Extended-refl : (t : HmasTask) → Extended t t
Extended-refl t = ([], [], ground (arith, append-nil t.blocked_by, append-nil t.child_task_ids))

Extended-trans : (t u v : HmasTask) → Extended t u → Extended u v → Extended t v
Extended-trans t u v (bs, cs, e) (bs', cs', e') = (
  bs ++ bs',
  cs ++ cs',
  ground (arith, append_assoc t.blocked_by bs bs', append_assoc t.child_task_ids cs cs'),
)

block_by-Extended : (id : String) (t : HmasTask) → Extended t (block_by id t)
block_by-Extended id t =
    let (more, e) = add_once-appends id t.blocked_by in
    (more, [], ground (arith, append-nil t.child_task_ids))

adopt_child-Extended : (id : String) (t : HmasTask) → Extended t (adopt_child id t)
adopt_child-Extended id t =
    let (more, e) = add_once-appends id t.child_task_ids in
    ([], more, ground (arith, append-nil t.blocked_by))

AllExtended-refl : (ts : List HmasTask) → AllExtended ts ts
AllExtended-refl [] = tt
AllExtended-refl (t ∷ ts) = (Extended-refl t, AllExtended-refl ts)

AllExtended-trans :
    (ts us vs : List HmasTask) → AllExtended ts us → AllExtended us vs → AllExtended ts vs
AllExtended-trans [] [] [] e f = tt
AllExtended-trans [] [] (v ∷ vs) e f = f
AllExtended-trans [] (u ∷ us) vs e f = absurd e
AllExtended-trans (t ∷ ts) [] vs e f = absurd e
AllExtended-trans (t ∷ ts) (u ∷ us) [] e f = f
AllExtended-trans (t ∷ ts) (u ∷ us) (v ∷ vs) (e, e') (f, f') =
    (Extended-trans t u v e f, AllExtended-trans ts us vs e' f')

modify_at-AllExtended :
    (i : ℕ) (f : HmasTask → HmasTask) (ts : List HmasTask)
    → ((t : HmasTask) → Extended t (f t))
    → AllExtended ts (modify_at i f ts)
modify_at-AllExtended i f [] h = tt
modify_at-AllExtended zero f (t ∷ ts) h = (h t, AllExtended-refl ts)
modify_at-AllExtended (suc i) f (t ∷ ts) h = (Extended-refl t, modify_at-AllExtended i f ts h)

link_ids-AllExtended :
    (i b : ℕ) (o p : Option HmasTask) (ts : List HmasTask) → AllExtended ts (link_ids i b o p ts)
link_ids-AllExtended i b none p ts = AllExtended-refl ts
link_ids-AllExtended i b (some t) none ts = AllExtended-refl ts
link_ids-AllExtended i b (some t) (some blocker) ts = elim (Bool-cases (str_eq blocker.id t.id)) [
  | inl same ↦ rw same (AllExtended-refl ts)
  | inr differs ↦ rw differs (
      AllExtended-trans ts (modify_at i (block_by blocker.id) ts)
        (modify_at b (adopt_child t.id) (modify_at i (block_by blocker.id) ts))
        (modify_at-AllExtended i (block_by blocker.id) ts (block_by-Extended blocker.id))
        (modify_at-AllExtended b (adopt_child t.id) (modify_at i (block_by blocker.id) ts)
          (adopt_child-Extended t.id)))
]

link_found-AllExtended :
    (i : ℕ) (o : Option ℕ) (ts : List HmasTask) → AllExtended ts (link_found i o ts)
unfolding link
link_found-AllExtended i none ts = AllExtended-refl ts
link_found-AllExtended i (some b) ts = link_ids-AllExtended i b (get_elem? ts i) (get_elem? ts b) ts

wire_deps-AllExtended :
    (i : ℕ) (deps : List ℤ) (ts : List HmasTask) → AllExtended ts (wire_deps i deps ts)
unfolding wire_deps
wire_deps-AllExtended i [] ts = AllExtended-refl ts
wire_deps-AllExtended i (dep ∷ deps) ts =
    let us = link_found i (find_issue dep 0 ts) ts in
    AllExtended-trans ts us (wire_deps i deps us)
      (link_found-AllExtended i (find_issue dep 0 ts) ts) (wire_deps-AllExtended i deps us)

wire_from-AllExtended : (left i : ℕ) (ts : List HmasTask) → AllExtended ts (wire_from left i ts)
unfolding wire_from
wire_from-AllExtended zero i ts = AllExtended-refl ts
wire_from-AllExtended (suc left) i ts =
    let us = wire_deps i (deps_at (get_elem? ts i)) ts in
    AllExtended-trans ts us (wire_from left (i + 1) us)
      (wire_deps-AllExtended i (deps_at (get_elem? ts i)) ts)
      (wire_from-AllExtended left (i + 1) us)

pub wire_all-AllExtended : (ts : List HmasTask) → AllExtended ts (wire_all ts)
unfolding wire_all
wire_all-AllExtended ts = wire_from-AllExtended (length ts) 0 ts
