-- ===== src/Agent/Recover.antt =====
-- Recovery and observations: recovery_planning.py and `_observe` of agent.py in
-- src/universal_agent/runtime.
use Prim.Native.String.{◌++◌}
use universal_agent.Prelude.{
  ℕ, zero, suc, String, Bool, true, false, not, Option, none, some, List, [], ◌∷◌, if◌then◌else◌,
  Result, ok, raised, return, gets, ◌>>=◌, ◌>>◌, String_eq,
}
use universal_agent.Prelude.Dict.{put}
use universal_agent.Prelude.Text.{is_empty_text}
use universal_agent.Core.Enums.{DecisionType, ErrorCode, EvaluationStatus}
use universal_agent.Core.Models.{AgentState, Decision, Observation, PendingAction}
use universal_agent.Recovery.Models.{
  Failure, RecoveryDecision, RecoveryStrategy, classify_failure, decide,
}
use universal_agent.Runtime.Transitions.{SessionMethod, Transition, fail, pause}
use universal_agent.Actions.Models.{ActionMethod, Machine}
use universal_agent.Actions.Identity.{or_empty}
use universal_agent.Actions.Invoke.{is_succeeded}
use universal_agent.Actions.Resources.{on_agent_state}
use universal_agent.Agent.Models.{AgentRuntime, Evaluated, Processed, Step, stop, again, go_on}
use universal_agent.Agent.Settle.{commit_session_event, note, on_session, settle_with}
use universal_agent.Agent.Process.{process}

-- `strategy.value`
unfoldable pub strategy_value : RecoveryStrategy → String
strategy_value RecoveryStrategy.retry_action = "retry_action"
strategy_value RecoveryStrategy.reobserve = "reobserve"
strategy_value RecoveryStrategy.expand_diagnosis_task = "expand_diagnosis_task"
strategy_value RecoveryStrategy.alternative_capability = "alternative_capability"
strategy_value RecoveryStrategy.ask_user = "ask_user"
strategy_value RecoveryStrategy.stop = "stop"
strategy_value RecoveryStrategy.rollback = "rollback"

-- The decision that runs the action again, or another capability in its place.
unfoldable pub recovery_decision : RecoveryDecision → PendingAction → Decision
recovery_decision recovery pending = record {
  type = DecisionType.execute;
  reason = "recovery via " ++ strategy_value recovery.strategy;
  capability =
      if is_empty_text (or_empty recovery.capability)
      then some pending.capability
      else recovery.capability;
  target = pending.target;
  arguments = pending.arguments;
  expected_observations = "recovery" ∷ [];
  message = none;
}

-- `state.recovery_attempts[key] = recovery.attempt`, for a key that is not empty.
abbrev pub with_attempt : String → ℕ → AgentState String → AgentState String
with_attempt key attempt state =
    if is_empty_text key
    then state
    else record state { recovery_attempts = put state.recovery_attempts key attempt }

module _ (a : AgentRuntime) where
  abbrev pub stop_with : SessionMethod Transition → ActionMethod Step
  stop_with f = settle_with a f >>= λ result. return (stop result)

  -- What follows the commit of `plan_recovery_for_pending`.
  unfoldable pub recover :
      RecoveryStrategy → RecoveryDecision → PendingAction → Failure → ActionMethod Step
  unfolding recovery_decision
  recover RecoveryStrategy.retry_action recovery pending failure =
      return (again (recovery_decision recovery pending))
  recover RecoveryStrategy.reobserve recovery pending failure =
      return (again (recovery_decision recovery pending))
  recover RecoveryStrategy.alternative_capability recovery pending failure =
      return (again (recovery_decision recovery pending))
  recover RecoveryStrategy.ask_user recovery pending failure = stop_with (
      pause failure.reason (some ("Recovery requires user input: " ++ failure.reason)) "GoalWaiting"
        none)
  recover _ recovery pending failure = stop_with (fail failure.error_code failure.reason)

  abbrev pub recovery_event : RecoveryDecision → String
  recovery_event recovery = if recovery.exhausted then "RecoveryExhausted" else "RecoveryPlanned"

  -- `plan_recovery_for_pending`, for the decision of the manager and its key.
  unfoldable pub plan_decided :
      RecoveryDecision × String → PendingAction → Failure → ActionMethod Step
  unfolding recover
  plan_decided (recovery, key) pending failure = do
    on_agent_state (with_attempt key recovery.attempt)
    commit_session_event a (recovery_event recovery) (some pending.action_id)
    recover recovery.strategy recovery pending failure

  unfoldable pub plan_recovery_for_pending : PendingAction → Failure → ActionMethod Step
  unfolding plan_decided
  plan_recovery_for_pending pending failure = do
    decision ← gets (λ m. decide a.recovery_manager failure m.session.state.recovery_attempts)
    plan_decided decision pending failure

  -- The failure of an action.
  unfoldable pub failure_of : PendingAction → ErrorCode → String → Machine → Failure
  failure_of pending code reason m = record {
    task_id = m.session.state.current_task;
    error_code = code;
    category = classify_failure code;
    reason = reason;
    capability = some pending.capability;
    arguments = pending.arguments;
    target = pending.target;
  }

  abbrev pub observed_code : Observation → ErrorCode
  observed_code observation = elim observation.error_code [
    | none ↦ ErrorCode.tool_failure
    | some code ↦ code
  ]

  abbrev pub observed_error : Observation → String
  observed_error observation =
      if is_empty_text (or_empty observation.error)
      then "tool execution failed"
      else or_empty observation.error

  unfoldable pub plan_failure : PendingAction → ErrorCode → String → ActionMethod Step
  unfolding plan_recovery_for_pending failure_of
  plan_failure pending code reason = do
    failure ← gets (failure_of pending code reason)
    plan_recovery_for_pending pending failure

  -- `plan_recovery`
  abbrev pub plan_recovery : PendingAction → Observation → ActionMethod Step
  plan_recovery pending observation =
      plan_failure pending (observed_code observation) (observed_error observation)

  -- `note` as often as there are things to note.
  unfoldable pub note_each : ℕ → String → Option String → ActionMethod Unit
  note_each zero type action_id = return tt
  note_each (suc n) type action_id = do note a type action_id; note_each n type action_id

abbrev pub count : {A : Type 0} → List A → ℕ
count [] = 0
count (x ∷ rest) = suc (count rest)

abbrev pub is_failed_evaluation : EvaluationStatus → Bool
is_failed_evaluation EvaluationStatus.failed = true
is_failed_evaluation _ = false

module _ (a : AgentRuntime) where
  abbrev pub started_event : Bool → ActionMethod Unit
  started_event true = note a "TaskStarted" none
  started_event false = return tt

  -- The rest of `_observe` behind the event of the evaluation.
  unfoldable pub after_evaluation : PendingAction → Processed → ActionMethod Step
  unfolding plan_failure
  after_evaluation pending processed =
      if is_failed_evaluation processed.evaluation.status
      then plan_failure a pending ErrorCode.evaluation_failed processed.evaluation.reason
      else do
        started_event processed.is_next_started
        commit_session_event a "StateUpdated" (some pending.action_id)
        return go_on

  abbrev pub world_event : ℕ → Option String → ActionMethod Unit
  world_event zero action_id = return tt
  world_event (suc n) action_id = note a "WorldModelUpdated" action_id

  -- `_observe` behind `process`, with the count of the evidence.
  unfoldable pub observe_processed : PendingAction → ℕ → Result String Processed → ActionMethod Step
  unfolding note_each after_evaluation
  observe_processed pending evidence (raised x) = stop_with a (fail ErrorCode.evaluation_failed x)
  observe_processed pending evidence (ok processed) = do
    note_each a evidence "EvidenceRecorded" (some pending.action_id)
    world_event evidence (some pending.action_id)
    note_each a (count processed.created) "TaskCreated" none
    note a "EvaluationCompleted" (some pending.action_id)
    after_evaluation pending processed

  -- `_observe` for what the plugins give: a text is that of an `ObservationRoutingError`.
  unfoldable pub observe_evaluated : PendingAction → Result String Evaluated → ActionMethod Step
  unfolding process observe_processed
  observe_evaluated pending (raised x) = stop_with a (fail ErrorCode.evaluation_failed x)
  observe_evaluated pending (ok evaluated) = do
    now ← gets a.executor.utc_now
    processed ← on_session (process evaluated now)
    observe_processed pending evaluated.evidence processed

  -- `_observe`
  unfoldable pub observe : PendingAction → Observation → ActionMethod Step
  unfolding observe_evaluated
  observe pending observation =
      if not (is_succeeded observation.status)
      then plan_recovery a pending observation
      else gets (a.evaluate pending observation) >>= observe_evaluated pending
