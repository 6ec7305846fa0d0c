-- ===== src/PlanningBreakdown/Ids.antt =====
-- The ids of the tasks that decompose (src/planning_breakdown.cpp) makes.
use agamemnon.Base.{
  ℕ, zero, suc, ◌+◌, String, ◌≡◌, refl, ap, ◌∙◌, List, [], ◌∷◌, ◌++◌, some, arith, length,
  length-append, Option-cases, inl, inr,
}
use agamemnon.HmasTypes.{HmasTask, TaskBrief}
use agamemnon.PlanningBreakdown.ImplRef.{parse_impl_ref}
use agamemnon.PlanningBreakdown.{l3_tasks, l2_tasks, l1_tasks, tree, ids, impls_of, modules_of}

-- What `k` calls of generate_uuid give from the `n`-th on.
abbrev pub drawn : (ℕ → String) → ℕ → ℕ → List String
drawn uuid n zero = []
drawn uuid n (suc k) = uuid n ∷ drawn uuid (n + 1) k

module _ (uuid : ℕ → String) where
  drawn-append : (n k l : ℕ) → drawn uuid n k ++ drawn uuid (n + k) l ≡ drawn uuid n (k + l)
  drawn-append n zero l = ground arith
  drawn-append n (suc k) l =
      let shift : n + suc k ≡ n + 1 + k = omega arith in
      let count : suc k + l ≡ suc (k + l) = omega arith in
      rw (shift, count) (ap (λ (us : List String). uuid n ∷ us) (drawn-append (n + 1) k l))

  ids-append : (xs ys : List HmasTask) → ids (xs ++ ys) ≡ ids xs ++ ids ys
  ids-append [] ys = refl
  ids-append (x ∷ xs) ys = cc (ids-append xs ys)

  AreDrawn : ℕ → List HmasTask → Type 0
  AreDrawn n ts = ids ts ≡ drawn uuid n (length ts)

  drawn_parts :
      (n : ℕ) (xs ys : List HmasTask)
      → AreDrawn n xs
      → AreDrawn (n + length xs) ys
      → AreDrawn n (xs ++ ys)
  unfolding AreDrawn
  drawn_parts n xs ys h g =
      ids-append xs ys ∙ ground (arith, drawn-append n (length xs) (length ys), length-append xs ys)

  module _ (ts : String) (brief : TaskBrief) where
    leaves-AreDrawn :
        (repo mod_name l2_id prev : String) (impls : List String) (n : ℕ) (made : List HmasTask)
        → l3_tasks uuid ts brief repo mod_name l2_id prev impls n ≡ some made
        → AreDrawn n made × (length made ≡ length impls)
    unfolding l3_tasks AreDrawn
    leaves-AreDrawn repo mod_name l2_id prev [] n made h = (ground arith, ground arith)
    leaves-AreDrawn repo mod_name l2_id prev (impl ∷ impls) n made h =
        elim (Option-cases (parse_impl_ref impl)) [
          | inl e ↦ absurd (ground (arith, e))
          | inr (ref, e) ↦
              elim (Option-cases
                (l3_tasks uuid ts brief repo mod_name l2_id (uuid n) impls (n + 1))) [
                  | inl e' ↦ absurd (ground (arith, e, e'))
                  | inr (rest, e') ↦
                      let (d, l) =
                        leaves-AreDrawn repo mod_name l2_id (uuid n) impls (n + 1) rest e' in
                      (ground (arith, e, e', d), ground (arith, e, e', l))
                ]
        ]

    modules-AreDrawn :
        (repo l1_id prev : String) (mods : List String) (n : ℕ)
        (made : List HmasTask × List HmasTask)
        → l2_tasks uuid ts brief repo l1_id prev mods n ≡ some made
        → AreDrawn n made.1
    unfolding l2_tasks AreDrawn
    modules-AreDrawn repo l1_id prev [] n made h = ground arith
    modules-AreDrawn repo l1_id prev (mod_name ∷ mods) n made h =
        let impls = impls_of uuid ts brief repo mod_name in
        let m = n + 1 + length impls in
        elim (Option-cases (l3_tasks uuid ts brief repo mod_name (uuid n) "" impls (n + 1))) [
          | inl e ↦ absurd (ground (arith, e))
          | inr (leaves, e) ↦
              elim (Option-cases (l2_tasks uuid ts brief repo l1_id (uuid n) mods m)) [
                | inl e' ↦ absurd (ground (arith, e, e'))
                | inr (rest, e') ↦
                    let (d, l) = leaves-AreDrawn repo mod_name (uuid n) "" impls (n + 1) leaves e in
                    ground (
                      arith,
                      e,
                      e',
                      d,
                      l,
                      modules-AreDrawn repo l1_id (uuid n) mods m rest e',
                      drawn_parts (n + 1) leaves rest.1,
                    )
              ]
        ]

    repos-AreDrawn :
        (root_id : String) (repos : List String) (n : ℕ) (made : List HmasTask × List HmasTask)
        → l1_tasks uuid ts brief root_id repos n ≡ some made
        → AreDrawn n made.1
    unfolding l1_tasks AreDrawn
    repos-AreDrawn root_id [] n made h = ground arith
    repos-AreDrawn root_id (repo ∷ repos) n made h =
        let mods = modules_of uuid ts brief repo in
        elim (Option-cases (l2_tasks uuid ts brief repo (uuid n) "" mods (n + 1))) [
          | inl e ↦ absurd (ground (arith, e))
          | inr (below, e) ↦
              let m = n + 1 + length below.1 in
              elim (Option-cases (l1_tasks uuid ts brief root_id repos m)) [
                | inl e' ↦ absurd (ground (arith, e, e'))
                | inr (rest, e') ↦ ground (
                  arith,
                  e,
                  e',
                  modules-AreDrawn repo (uuid n) "" mods (n + 1) below e,
                  repos-AreDrawn root_id repos m rest e',
                  drawn_parts (n + 1) below.1 rest.1,
                )
              ]
        ]

    -- The ids of the tree are the draws from the `n`-th on, in the order of the list.
    pub tree-drawn :
        (n : ℕ) (made : List HmasTask)
        → tree uuid ts brief n ≡ some made
        → ids made ≡ drawn uuid n (length made)
    unfolding tree AreDrawn
    tree-drawn n made h =
        elim (Option-cases (l1_tasks uuid ts brief (uuid n) brief.repos (n + 1))) [
          | inl e ↦ absurd (ground (arith, e))
          | inr (below, e) ↦ ground (arith, e, repos-AreDrawn (uuid n) brief.repos (n + 1) below e)
        ]
