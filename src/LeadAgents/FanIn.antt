-- ===== src/LeadAgents/FanIn.antt =====
-- What the reports of the subordinates leave in the coordination of a lead, for any lead whose
-- processSubordinateResult takes a state off the coordination at the last report.
use agamemnon.Base.{
  ℕ, ◌+◌, ◌≤◌, ◌<◌, ◌^◌, ◌≡◌, refl, sym, ap, ◌∙◌, subst, String, Bool, true, false, ◌||◌, List, [],
  ◌∷◌, some, if◌then◌else◌, ltb, dec_lt, length, All, arith,
}
use agamemnon.LeadAgents.{process_subordinate_failure, process_message}
use agamemnon.LeadAgents.Agent.{LeadAgent, Environment, Hooks, send_message, failure_text}
use agamemnon.LeadAgents.Message.{KeystoneMessage, ActionType, task_failed, cancel_task}
use agamemnon.LeadAgents.Coordination.{
  CoordinationState, transition_to, record_result, record_failure, has_failures,
}

-- The actions that processMessage tells apart only by its hook.
abbrev pub is_ordinary : ActionType → Bool
is_ordinary cancel_task = false
is_ordinary task_failed = false
is_ordinary _ = true

abbrev pub is_failed : KeystoneMessage → Bool
is_failed msg = elim msg.action_type [ task_failed ↦ true | _ ↦ false ]

-- A last word of a subordinate: a failure, or a result with a payload.
pub data IsReport {State : Type 0} (hooks : Hooks State) (msg : KeystoneMessage) : Type 0 where
  failed : msg.action_type ≡ task_failed → IsReport hooks msg
  succeeded :
      (text : String)
      → is_ordinary msg.action_type ≡ true
      → hooks.is_subordinate_result msg ≡ true
      → msg.payload ≡ some text
      → IsReport hooks msg

module _ {State : Type 0} (hooks : Hooks State) (env : Environment) where
  -- Messages that are processed one after the other, whether one of them throws or not.
  unfoldable pub deliver : List KeystoneMessage → LeadAgent State → LeadAgent State
  deliver [] s = s
  deliver (msg ∷ msgs) s = deliver msgs (process_message hooks env msg s).1

  abbrev settled : Bool → State → CoordinationState State → CoordinationState State
  settled all state c = if all then transition_to state (hooks.state_to_string state) c else c

  -- A failure changes the coordination by what it records, and by the state of errors at the end.
  pub process_message-failed :
      (msg : KeystoneMessage) (s : LeadAgent State)
      → msg.action_type ≡ task_failed
      → (process_message hooks env msg s).1.coordination
        ≡ settled
            (record_failure (failure_text msg) s.coordination).1
            hooks.error_state
            (record_failure (failure_text msg) s.coordination).0
  unfolding process_message process_subordinate_failure send_message
  process_message-failed msg s h = ground (arith, h)

  pub process_message-ordinary :
      (msg : KeystoneMessage) (s : LeadAgent State)
      → is_ordinary msg.action_type ≡ true
      → hooks.is_subordinate_result msg ≡ true
      → (process_message hooks env msg s).1 ≡ hooks.process_subordinate_result msg s
  unfolding process_message
  process_message-ordinary msg s h g = ground (arith, h, g)

  -- A lead that waits for `n` reports, has `k` of them, and knows by `f` whether one of those failed.
  pub record IsWaiting (n k : ℕ) (f : Bool) (c : CoordinationState State) : Type 0 where
    pub waits : c.current_state ≡ hooks.waiting_state
    pub expects : c.expected_results ≡ n
    pub received : c.received_results ≡ k
    pub few_failed : c.failed_results ≤ k
    pub failures : has_failures c ≡ f

  -- The lead's own answer to the last result, from whether a subordinate has failed.
  abbrev pub IsChosenBy : (Bool → State) → Type 0
  IsChosenBy choose =
      (msg : KeystoneMessage) (s : LeadAgent State) (text : String)
      → msg.payload ≡ some text
      → (hooks.process_subordinate_result msg s).coordination
        ≡ settled (record_result text s.coordination).1
            (choose (has_failures (record_result text s.coordination).0))
            (record_result text s.coordination).0

  unfoldable pub settle : (Bool → State) → Bool → List KeystoneMessage → State
  settle choose f [] = hooks.waiting_state
  settle choose f (msg ∷ []) = if is_failed msg then hooks.error_state else choose f
  settle choose f (msg ∷ m ∷ msgs) = settle choose (f || is_failed msg) (m ∷ msgs)

  settled-early :
      (n k : ℕ) (f : Bool) (state : State) (text : String) (c : CoordinationState State)
      → n < 2 ^ 64
      → k + 1 < n
      → IsWaiting n k f c
      → IsWaiting n (k + 1) f (settled (record_result text c).1 state (record_result text c).0)
        × IsWaiting n
            (k + 1)
            true
            (settled (record_failure text c).1 state (record_failure text c).0)
  unfolding record_result record_failure has_failures transition_to
  settled-early n k f state text c small early w = (
    record {
      waits = ground (arith, w.waits, w.expects, w.received);
      expects = ground (arith, w.expects, w.received);
      received = ground (arith, w.expects, w.received);
      few_failed = ground (arith, w.expects, w.received, w.few_failed);
      failures = ground (arith, w.expects, w.received, w.failures);
    },
    record {
      waits = ground (arith, w.waits, w.expects, w.received);
      expects = ground (arith, w.expects, w.received);
      received = ground (arith, w.expects, w.received);
      few_failed = ground (arith, w.expects, w.received, w.few_failed);
      failures = ground (arith, w.expects, w.received, w.few_failed);
    },
  )

  settled-last :
      (n k : ℕ) (f : Bool) (state : State) (text : String) (c : CoordinationState State)
      → n < 2 ^ 64
      → k + 1 ≡ n
      → IsWaiting n k f c
      → ((settled (record_result text c).1 state (record_result text c).0).current_state ≡ state)
        × ((settled (record_failure text c).1 state (record_failure text c).0).current_state
            ≡ state)
  unfolding record_result record_failure has_failures transition_to
  settled-last n k f state text c small early w = ground (arith, w.expects, w.received)

  has_failures-record_result :
      (text : String) (c : CoordinationState State)
      → has_failures (record_result text c).0 ≡ has_failures c
  unfolding record_result has_failures
  has_failures-record_result text c = refl

  along :
      {n k : ℕ} {f b : Bool} {c d : CoordinationState State}
      → IsWaiting n k f c
      → b ≡ f
      → d ≡ c
      → IsWaiting n k b d
  along {n} {k} {f} {b} {c} {d} w p q =
      subst (λ c. IsWaiting n k b c) (sym q) (subst (λ b. IsWaiting n k b c) (sym p) w)

  module _ (choose : Bool → State) (chosen : IsChosenBy choose) (n : ℕ) (small : n < 2 ^ 64) where
    pub early_report :
        (k : ℕ) (f : Bool) (msg : KeystoneMessage) (s : LeadAgent State)
        → k + 1 < n
        → IsWaiting n k f s.coordination
        → IsReport hooks msg
        → IsWaiting n (k + 1) (f || is_failed msg) (process_message hooks env msg s).1.coordination
    early_report k f msg s early w (failed h) =
        along
          (settled-early n k f hooks.error_state (failure_text msg) s.coordination small early w).1
          (ground (arith, h)) (process_message-failed msg s h)
    early_report k f msg s early w (succeeded text h g p) =
        along
          (settled-early n k f (choose (has_failures (record_result text s.coordination).0)) text
            s.coordination small early w).0
          (ground (arith, h))
          (ap (λ s. s.coordination) (process_message-ordinary msg s h g) ∙ chosen msg s text p)

    last_report :
        (k : ℕ) (f : Bool) (msg : KeystoneMessage) (s : LeadAgent State)
        → k + 1 ≡ n
        → IsWaiting n k f s.coordination
        → IsReport hooks msg
        → (process_message hooks env msg s).1.coordination.current_state
          ≡ (if is_failed msg then hooks.error_state else choose f)
    last_report k f msg s last w (failed h) =
        ap (λ c. c.current_state) (process_message-failed msg s h)
        ∙ (settled-last n k f hooks.error_state (failure_text msg) s.coordination small last w).1
        ∙ ground (arith, h)
    last_report k f msg s last w (succeeded text h g p) =
        ap (λ s. s.coordination.current_state) (process_message-ordinary msg s h g)
        ∙ ap (λ c. c.current_state) (chosen msg s text p)
        ∙ (settled-last n k f (choose (has_failures (record_result text s.coordination).0)) text
            s.coordination small last w).0
        ∙ ground (arith, h, w.failures, has_failures-record_result text s.coordination)

    -- The state of a lead, once its reports have been delivered.
    pub deliver_reports :
        (k : ℕ) (f : Bool) (msgs : List KeystoneMessage) (s : LeadAgent State)
        → k < n
        → k + length msgs ≤ n
        → IsWaiting n k f s.coordination
        → All (IsReport hooks) msgs
        → (deliver msgs s).coordination.current_state
          ≡ (if ltb (k + length msgs) n then hooks.waiting_state else settle choose f msgs)
    unfolding deliver settle
    deliver_reports k f [] s before enough w h = ground (arith, w.waits)
    deliver_reports k f (msg ∷ []) s before enough w (h, hs) = elim (dec_lt (k + 1) n) [
      | yes p ↦ ground (arith, p, (early_report k f msg s p w h).waits)
      | no p ↦ ground (arith, p, last_report k f msg s (omega arith) w h)
    ]
    deliver_reports k f (msg ∷ m ∷ msgs) s before enough w (h, hs) = ground (
      arith,
      deliver_reports (k + 1) (f || is_failed msg) (m ∷ msgs) (process_message hooks env msg s).1
          (omega arith) (omega arith) (early_report k f msg s (omega arith) w h) hs,
    )
