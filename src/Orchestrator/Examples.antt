-- ===== src/Orchestrator/Examples.antt =====
-- The theorems on the orchestrator at messages about the tasks of Store.Sample.
use agamemnon.Base.{
  String, ◌≡◌, ◌≢◌, ◌↔◌, ◌⊎◌, refl, sym, subst, true, false, ◌&&◌, [], ◌∷◌, some, arith, str_eq,
  str_eq_iff, if◌then◌else◌,
}
use agamemnon.Base.Dict.{lookup, insert}
use agamemnon.HmasTypes.{
  HmasTask, l3_task_agent, pending, decomposing, delegated, in_progress, completed, failed,
}
use agamemnon.Json.{find, value_string}
use agamemnon.Json.Sample.{sample, Value, text, obj, field, end}
use agamemnon.Store.HmasTasks.{get_hmas_task, update_hmas_task}
use agamemnon.Store.Lookup.{IsReliable}
use agamemnon.Store.Sample.{quiet, task, lead, leaf, store, store_keyed}
use agamemnon.StateMachine.{try_transition}
use agamemnon.Orchestrator.{
  World, walk_to_completed, walk_to_started, walk_to_failed, walk_to_delegated, publish_task_state,
  dispatch_task,
}
use agamemnon.Orchestrator.Walks.{ended, walks_end}
use agamemnon.Orchestrator.Delegation.{
  delegate, escalate, save_and_publish, delegate_unblocked_children,
}
use agamemnon.Orchestrator.Unblocking.{at, freed, freed_if, is_free, IsReady}
use agamemnon.Orchestrator.Children.{has, children_of}
use agamemnon.Orchestrator.Messages.{
  message_task_id, on_myrmidon_completion, on_myrmidon_started, on_myrmidon_failed,
}
use agamemnon.Orchestrator.Completion.{Names, AfterDone}
use agamemnon.Orchestrator.Effects.{completion_effect, completion_unblocks}
use agamemnon.Orchestrator.Reports.{Replaces, failure_effect, start_effect}
use agamemnon.Orchestrator.Escalations.{raised, escalate_effect}
use agamemnon.Orchestrator.Frame.{Spares}
use agamemnon.Orchestrator.Stalls.{completions, chain_stalls}

abbrev world : World Value Unit
world = record { store = store; sent = []; draws = λ n i. 0; uuids_used = 0 }

world-IsReady : IsReady sample quiet world
world-IsReady = (refl, store_keyed)

quiet_IsReliable : IsReliable sample quiet
quiet_IsReliable number body g = refl

-- A run of the whole handler: the lead is completed, and the leaf that it blocked delegated.
completion_delegates_leaf :
    at sample quiet (on_myrmidon_completion sample quiet "t1" "p" world) "c"
    ≡ some (freed sample quiet leaf)
unfolding on_myrmidon_completion lookup find get_hmas_task save_and_publish update_hmas_task
    walk_to_completed try_transition publish_task_state delegate_unblocked_children insert delegate
    walk_to_delegated dispatch_task
completion_delegates_leaf = refl

abbrev message : String → Value
message id = obj (field "task_id" (text id) (field "id" (text id) end))

names : (id : String) → Names sample quiet id id
unfolding message_task_id find lookup
names id = (message id, refl, refl)

named_id : (payload id : String) → Names sample quiet payload id → id ≡ payload
unfolding message_task_id find lookup
named_id payload id (m, p, q) = ground (arith, p, q)

p_is_named : ◌≢◌ {A = String} "p" ""
p_is_named e = ground (arith, str_eq_iff "p" "")

completion_effect_example :
    AfterDone sample quiet world "p"
      (ended completed "t1" lead)
      (on_myrmidon_completion sample quiet "t1" "p" world)
unfolding lookup
completion_effect_example =
    completion_effect sample quiet "t1" "p" "p" world lead (names "p") p_is_named world-IsReady refl
      refl

completion_unblocks_example :
    let w' = on_myrmidon_completion sample quiet "t1" "p" world in
    at sample quiet w' "c"
    ≡ freed_if sample quiet
        (has "c" lead.child_task_ids && is_free sample quiet w' (some leaf))
        (some leaf)
unfolding lookup
completion_unblocks_example =
    completion_unblocks sample quiet "t1" "p" "p" world lead quiet_IsReliable (names "p") p_is_named
      world-IsReady refl refl "c" (λ e. ground (arith, str_eq_iff "c" "p"))

failure_effect_example :
    Replaces sample quiet world "p"
      (ended failed "t1" lead)
      (on_myrmidon_failed sample quiet "t1" "p" world)
unfolding lookup value_string
failure_effect_example =
    failure_effect sample quiet "t1" "p" "p" world lead (message "p", refl, refl) p_is_named
      world-IsReady refl

start_effect_example :
    Replaces sample quiet world "c"
      (record leaf { state = in_progress })
      (on_myrmidon_started sample quiet "t1" "c" world)
unfolding lookup value_string
start_effect_example =
    start_effect sample quiet "t1" "c" "c" "" "" world leaf (message "c") refl refl refl refl
      (λ e. ground (arith, str_eq_iff "c" "")) world-IsReady refl

escalate_effect_example :
    let (answer, w') = escalate sample quiet "t1" "p" "stuck" world in
    (answer ≡ some true)
    × ((k : String)
        → at sample quiet w' k ≡ (
            if str_eq "p" k && true
            then some (raised sample quiet "t1" "stuck" lead)
            else at sample quiet world k))
unfolding lookup
escalate_effect_example =
    escalate_effect sample quiet "t1" "p" "stuck" world lead quiet_IsReliable world-IsReady refl

walks_end_example :
    (walk_to_completed "t1" leaf ≡ ended completed "t1" leaf)
    × (walk_to_failed "t1" leaf ≡ ended failed "t1" leaf)
    × (walk_to_started "t1" leaf ≡ record leaf { state = in_progress })
    × (((walk_to_delegated "t1" leaf).1 ≡ true)
        ↔ ((leaf.state ≡ pending) ⊎ (leaf.state ≡ decomposing)))
    × ((walk_to_delegated "t1" leaf).1 ≡ true
        → (walk_to_delegated "t1" leaf).0 ≡ record leaf { state = delegated })
walks_end_example = walks_end "t1" leaf

-- Two leaves of one module, the second blocked by the first; the lead is completed, the first leaf
-- is being worked on.
abbrev first_leaf : HmasTask
first_leaf = record leaf { state = in_progress }

abbrev second_leaf : HmasTask
second_leaf = task "d" "p" l3_task_agent pending ("p" ∷ "c" ∷ []) []

abbrev chain_lead : HmasTask
chain_lead = record lead { state = completed; child_task_ids = "c" ∷ "d" ∷ [] }

abbrev chain_world : World Value Unit
chain_world = record world {
  store = record store {
    hmas_tasks = ("p", chain_lead) ∷ ("c", first_leaf) ∷ ("d", second_leaf) ∷ [];
  };
}

chain_world_keyed : (k : String) (t : HmasTask) → at sample quiet chain_world k ≡ some t → t.id ≡ k
unfolding lookup
chain_world_keyed k t h = ground (arith, str_eq_iff "p" k, str_eq_iff "c" k, str_eq_iff "d" k)

first_leaf-Spares : Spares sample quiet "d" chain_world "c"
unfolding lookup has
first_leaf-Spares id n =
    subst
      (λ (i : String).
        (i ≢ "d") × (has "d" (children_of sample quiet (at sample quiet chain_world i)) ≡ false))
      (sym (named_id "c" id n)) (λ e. ground (arith, str_eq_iff "c" "d"), refl)

chain_stalls_example :
    at sample quiet (completions sample quiet (("t1", "c") ∷ []) chain_world) "d" ≡ some second_leaf
unfolding lookup
chain_stalls_example =
    chain_stalls sample quiet "d" chain_world (("t1", "c") ∷ []) (refl, chain_world_keyed)
      (first_leaf-Spares, tt)
