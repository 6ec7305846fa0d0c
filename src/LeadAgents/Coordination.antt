-- ===== src/LeadAgents/Coordination.antt =====
-- CoordinationState (include/agamemnon_agents/agents/coordination_state.hpp), without its connections
-- over gRPC, which are compiled in only with ENABLE_GRPC. Each operation holds its mutex throughout.
use agamemnon.Base.{ℕ, ◌+◌, ◌%◌, ◌^◌, String, Bool, List, [], ◌∷◌, ◌++◌, ltb, leb}
use agamemnon.Base.Dict.{Dict, insert}

pub record CoordinationState (State : Type 0) : Type 0 where
  pub current_state : State
  pub execution_trace : List String
  pub expected_results : ℕ
  pub received_results : ℕ
  pub failed_results : ℕ
  pub results : List String
  pub failure_messages : List String
  pub pending_subordinates : Dict String
  pub current_goal : String
  pub requester_id : String

-- ++ on a size_t
abbrev pub increment : ℕ → ℕ
increment n = (n + 1) % 2 ^ 64

module _ {State : Type 0} where
  abbrev pub init : State → CoordinationState State
  init idle = record {
    current_state = idle;
    execution_trace = [];
    expected_results = 0;
    received_results = 0;
    failed_results = 0;
    results = [];
    failure_messages = [];
    pending_subordinates = [];
    current_goal = "";
    requester_id = "";
  }

  unfoldable pub transition_to : State → String → CoordinationState State → CoordinationState State
  transition_to state name c = record c {
    current_state = state;
    execution_trace = c.execution_trace ++ (name ∷ []);
  }

  unfoldable pub initialize_coordination : ℕ → CoordinationState State → CoordinationState State
  initialize_coordination expected c = record c {
    expected_results = expected;
    received_results = 0;
    failed_results = 0;
    results = [];
    failure_messages = [];
    pending_subordinates = [];
  }

  unfoldable pub is_complete : CoordinationState State → Bool
  is_complete c = leb c.expected_results c.received_results

  -- The answer is whether all results have been received.
  unfoldable pub record_result : String → CoordinationState State → CoordinationState State × Bool
  unfolding is_complete
  record_result result c =
      let c' = record c {
        results = c.results ++ (result ∷ []);
        received_results = increment c.received_results;
      } in
      (c', is_complete c')

  unfoldable pub record_failure : String → CoordinationState State → CoordinationState State × Bool
  unfolding is_complete
  record_failure text c =
      let c' = record c {
        failure_messages = c.failure_messages ++ (text ∷ []);
        failed_results = increment c.failed_results;
        received_results = increment c.received_results;
      } in
      (c', is_complete c')

  unfoldable pub has_failures : CoordinationState State → Bool
  has_failures c = ltb 0 c.failed_results

  unfoldable pub track_pending_subordinate :
      String → String → CoordinationState State → CoordinationState State
  track_pending_subordinate msg_id subordinate c = record c {
    pending_subordinates = insert msg_id subordinate c.pending_subordinates;
  }
