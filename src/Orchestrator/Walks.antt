-- ===== src/Orchestrator/Walks.antt =====
-- Where the walks through the state machine (src/orchestrator.cpp) end.
use agamemnon.Base.{if◌then◌else◌, ◌||◌, Bool, String, ◌≡◌, ◌↔◌, ◌⊎◌, true, arith}
use agamemnon.HmasTypes.{
  HmasTask, TaskState, state_eq, pending, decomposing, delegated, in_progress, completed, failed,
}
use agamemnon.StateMachine.{try_transition}
use agamemnon.Orchestrator.{walk_to_completed, walk_to_started, walk_to_failed, walk_to_delegated}

-- A state that no event leaves.
abbrev pub is_terminal : TaskState → Bool
is_terminal s = state_eq s completed || state_eq s failed

abbrev pub ended : TaskState → String → HmasTask → HmasTask
ended s now t = record t { state = s; completed_at = now }

-- From every state that is not terminal, and at every layer, the walk of a completion message ends in
-- Completed and stamps the time; no other field changes. A terminal task is left as it is.
pub walk_to_completed_ends :
    (now : String) (t : HmasTask)
    → walk_to_completed now t ≡ (if is_terminal t.state then t else ended completed now t)
unfolding walk_to_completed try_transition
walk_to_completed_ends now t = ground arith

-- From every state that is not terminal, and at every layer, the walk of a failure message ends in
-- Failed and stamps the time; no other field changes. A terminal task is left as it is.
pub walk_to_failed_ends :
    (now : String) (t : HmasTask)
    → walk_to_failed now t ≡ (if is_terminal t.state then t else ended failed now t)
unfolding walk_to_failed try_transition
walk_to_failed_ends now t = ground arith

-- From every state that is not terminal, and at every layer, the walk of a start message ends in
-- InProgress, and no other field changes. A terminal task is left as it is.
pub walk_to_started_ends :
    (now : String) (t : HmasTask)
    → walk_to_started now t ≡ (if is_terminal t.state then t else record t { state = in_progress })
unfolding walk_to_started try_transition
walk_to_started_ends now t = ground arith

-- A delegation is accepted exactly from Pending and Decomposing, at every layer. It
-- ends in Delegated and changes no other field.
pub walk_to_delegated_ends :
    (now : String) (t : HmasTask)
    → (((walk_to_delegated now t).1 ≡ true) ↔ ((t.state ≡ pending) ⊎ (t.state ≡ decomposing)))
      × ((walk_to_delegated now t).1 ≡ true
          → (walk_to_delegated now t).0 ≡ record t { state = delegated })
unfolding walk_to_delegated try_transition
walk_to_delegated_ends now t = ground arith

-- From every state that is not terminal, and at every layer, the walk of a completion message ends in
-- Completed, that of a failure message in Failed, each with the time stamped, and that of a start
-- message in InProgress; a terminal task is left as it is. A delegation is accepted exactly from
-- Pending and Decomposing, and ends in Delegated. No walk changes another field.
pub walks_end :
    (now : String) (t : HmasTask)
    → (walk_to_completed now t ≡ (if is_terminal t.state then t else ended completed now t))
      × (walk_to_failed now t ≡ (if is_terminal t.state then t else ended failed now t))
      × (walk_to_started now t
          ≡ (if is_terminal t.state then t else record t { state = in_progress }))
      × (((walk_to_delegated now t).1 ≡ true) ↔ ((t.state ≡ pending) ⊎ (t.state ≡ decomposing)))
      × ((walk_to_delegated now t).1 ≡ true
          → (walk_to_delegated now t).0 ≡ record t { state = delegated })
walks_end now t =
    let (accepted, changed) = walk_to_delegated_ends now t in
    (
      walk_to_completed_ends now t,
      walk_to_failed_ends now t,
      walk_to_started_ends now t,
      accepted,
      changed,
    )
