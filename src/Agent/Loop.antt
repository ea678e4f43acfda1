-- ===== src/Agent/Loop.antt =====
-- `_loop`: decisions until one ends the run, src/universal_agent/runtime/agent.py.
use Prim.Native.String.{◌++◌}
use universal_agent.Prelude.{
  ℕ, zero, suc, ◌+◌, String, Bool, true, false, Option, none, some, Result, ok, raised, return,
  gets, ◌>>=◌, ◌>>◌, if◌then◌else◌, ltb, leb, List,
}
use universal_agent.Prelude.Text.{decimal}
use universal_agent.Core.Enums.{DecisionType, ErrorCode}
use universal_agent.Core.Models.{
  AgentState, CapabilityDefinition, CapabilityInputContract, Decision, ExecutionResult,
}
use universal_agent.Core.Decisions.{validate}
use universal_agent.Runtime.Transitions.{fail, finish, pause}
use universal_agent.Actions.Models.{ActionMethod, Machine}
use universal_agent.Actions.Resources.{on_agent_state}
use universal_agent.Agent.Models.{
  AgentRuntime, ModelAnswer, ModelUsage, proposed, decided, transient, permanent,
}
use universal_agent.Agent.Choice.{
  capability_context, constrain_capability_context, normalize_runtime_decision,
  validate_decision_context, validate_session_constraints,
}
use universal_agent.Agent.Settle.{
  note, pause_if_budget_expired, requested_control_transition, save, settle_with, stopped,
}
use universal_agent.Agent.Drive.{drive}

-- A check that may end the run, and what follows it.
abbrev pub unless_ended :
    Option ExecutionResult
    → ActionMethod (Option ExecutionResult)
    → ActionMethod (Option ExecutionResult)
unless_ended (some result) rest = return (some result)
unless_ended none rest = rest

abbrev pub over : ℕ → Option ℕ → Bool
over total none = false
over total (some limit) = leb limit total

abbrev pub limit_text : Option ℕ → String
limit_text none = "None"
limit_text (some limit) = decimal limit

abbrev pub with_usage : ModelUsage → AgentState String → AgentState String
with_usage usage state = record state {
  cumulative_cost_micros = state.cumulative_cost_micros + usage.estimated_cost_micros;
  cumulative_tokens = state.cumulative_tokens + usage.total_tokens;
}

module _ (a : AgentRuntime) where
  abbrev pub or_retry : ModelAnswer → Result String Decision → Result String Decision
  or_retry (decided decision) later = ok decision
  or_retry (permanent x) later = raised x
  or_retry (transient x) later = later

  abbrev pub last_answer : ModelAnswer → Result String Decision
  last_answer (decided decision) = ok decision
  last_answer (permanent x) = raised x
  last_answer (transient x) = raised x

  -- `_decide_with_transient_retry`, with the retries that are left.
  unfoldable pub decide_with_retries : ℕ → ℕ → Machine → Result String Decision
  decide_with_retries zero attempt m = last_answer (a.decide m attempt)
  decide_with_retries (suc retries) attempt m =
      or_retry (a.decide m attempt) (decide_with_retries retries (suc attempt) m)

  -- The tests of `_record_usage`.
  unfoldable pub check_budgets : AgentState String → ActionMethod (Option ExecutionResult)
  check_budgets state =
      if over state.cumulative_cost_micros a.max_total_cost_micros
      then stopped a (
          settle_with a (
            fail ErrorCode.cost_limit_exceeded (
              "cost limit reached: "
              ++ (decimal state.cumulative_cost_micros
                  ++ (" >= " ++ limit_text a.max_total_cost_micros)))))
      else if over state.cumulative_tokens a.max_total_tokens
      then stopped a (
          settle_with a (
            fail ErrorCode.cost_limit_exceeded (
              "token limit reached: "
              ++ (decimal state.cumulative_tokens ++ (" >= " ++ limit_text a.max_total_tokens)))))
      else return none

  -- `_record_usage`, with the `_settle` of its caller.
  unfoldable pub record_usage : Option ModelUsage → ActionMethod (Option ExecutionResult)
  unfolding check_budgets
  record_usage none = return none
  record_usage (some usage) = do
    note a "ModelUsageRecorded" none
    note a "LLMCallRecorded" none
    on_agent_state (with_usage usage)
    state ← gets (λ m. m.session.state)
    check_budgets state

  -- A gate of `_validate_decision`.
  unfoldable pub reject : Option (ErrorCode × String) → ActionMethod (Option ExecutionResult)
  reject none = return none
  reject (some (code, reason)) = do
    note a "DecisionRejected" none
    stopped a (settle_with a (fail code reason))

  abbrev pub contract_error : Result String Unit → Option (ErrorCode × String)
  contract_error (ok _) = none
  contract_error (raised x) = some (ErrorCode.validation_error, "invalid decision: " ++ x)

  -- The first gate that does not pass.
  unfoldable pub first_error :
      AgentState String
      → Decision
      → List CapabilityDefinition × List CapabilityInputContract
      → List CapabilityDefinition
      → Option (ErrorCode × String)
  first_error state decision context all = elim (contract_error (validate decision)) [
    | some x ↦ some x
    | none ↦ elim (validate_session_constraints state decision all) [
      | some x ↦ some x
      | none ↦
          validate_decision_context a.validate_argument_contract a.executor.capabilities decision
            context
    ]
  ]

  -- `_apply_decision`, by the type of the decision.
  unfoldable pub apply_type : DecisionType → Decision → ActionMethod (Option ExecutionResult)
  apply_type DecisionType.execute decision = drive a (proposed decision)
  apply_type DecisionType.finish decision = stopped a (settle_with a finish)
  apply_type DecisionType.wait decision =
      stopped a (settle_with a (pause "runtime paused by wait decision" none "GoalWaiting" none))
  apply_type DecisionType.ask_user decision =
      stopped a
        (settle_with a (pause "runtime paused for user input" decision.message "GoalWaiting" none))

  unfoldable pub apply_decision : Decision → ActionMethod (Option ExecutionResult)
  unfolding apply_type
  apply_decision decision = apply_type decision.type decision

  -- The gates of `_validate_decision`, and the decision if they pass.
  unfoldable pub validate_and_apply :
      Decision
      → List CapabilityDefinition × List CapabilityInputContract
      → ActionMethod (Option ExecutionResult)
  unfolding apply_decision reject
  validate_and_apply decision all = do
    state ← gets (λ m. m.session.state)
    rejected ← reject (first_error state decision (constrain_capability_context state all) all.0)
    unless_ended rejected (note a "DecisionValidated" none >> apply_decision decision)

  -- The part of an iteration behind the model.
  unfoldable pub after_decision : Result String Decision → ActionMethod (Option ExecutionResult)
  unfolding validate_and_apply record_usage
  after_decision (raised x) =
      stopped a (settle_with a (fail ErrorCode.model_failure ("model failed: " ++ x)))
  after_decision (ok decision) = do
    note a "DecisionGenerated" none
    usage ← gets a.usage
    exceeded ← record_usage usage
    unless_ended exceeded (
        pause_if_budget_expired a >>= λ expired. unless_ended expired (
          validate_and_apply (normalize_runtime_decision decision)
            (capability_context a.executor.capabilities a.executor.tools)))

  -- An iteration behind the checks of the deadline and of the controls.
  unfoldable pub decide_and_act : ActionMethod (Option ExecutionResult)
  unfolding after_decision
  decide_and_act = do
    on_agent_state (λ s. record s { iteration = s.iteration + 1 })
    save a
    note a "IterationStarted" none
    decision ← gets (decide_with_retries a.max_model_retries 0)
    after_decision decision

  -- The body of the loop.
  unfoldable pub iterate : ActionMethod (Option ExecutionResult)
  unfolding decide_and_act
  iterate = do
    expired ← pause_if_budget_expired a
    unless_ended expired
        (requested_control_transition a >>= λ requested. unless_ended requested decide_and_act)

  abbrev pub iterations_reason : String
  iterations_reason = "maximum iterations reached: " ++ decimal a.max_iterations

  -- What follows an iteration, with the rest of the loop.
  abbrev pub or_again :
      ActionMethod (Option ExecutionResult)
      → Option ExecutionResult
      → ActionMethod (Option ExecutionResult)
  or_again others (some result) = return (some result)
  or_again others none = others

  -- A turn of the loop, while the limit is not reached.
  abbrev pub turn :
      Bool → ActionMethod (Option ExecutionResult) → ActionMethod (Option ExecutionResult)
  turn true others = iterate >>= or_again others
  turn false others = stopped a (settle_with a (fail ErrorCode.iteration_limit iterations_reason))

  -- `_loop`, on fuel: none where the fuel runs out.
  unfoldable pub loop : ℕ → ActionMethod (Option ExecutionResult)
  unfolding iterate
  loop zero = return none
  loop (suc fuel) =
      gets (λ m. ltb m.session.state.iteration a.max_iterations) >>= λ more. turn more (loop fuel)
