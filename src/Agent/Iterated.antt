-- ===== src/Agent/Iterated.antt =====
-- What an iteration of the loop does to the count of iterations.
use universal_agent.Prelude.{
  ℕ, ◌+◌, ap, String, Option, none, some, List, Result, ok, raised, Bool-cases, inl, inr, Returns,
  then-Returns, ◌>>◌, ◌>>=◌,
}
use universal_agent.Core.Enums.{DecisionType, ErrorCode}
use universal_agent.Core.Models.{
  AgentState, CapabilityDefinition, CapabilityInputContract, Decision, ExecutionResult,
}
use universal_agent.Runtime.Transitions.{fail, finish, pause}
use universal_agent.Actions.Models.{ActionMethod, Machine}
use universal_agent.Actions.Resources.{on_agent_state}
use universal_agent.Agent.Models.{AgentRuntime, ModelUsage, proposed}
use universal_agent.Agent.Choice.{
  capability_context, constrain_capability_context, normalize_runtime_decision,
}
use universal_agent.Agent.Settle.{
  note, pause_if_budget_expired, requested_control_transition, save, settle_with, stopped,
}
use universal_agent.Agent.Loop.{
  after_decision, apply_decision, check_budgets, decide_and_act, decide_with_retries, first_error,
  iterate, over, record_usage, reject, unless_ended, validate_and_apply, with_usage, apply_type,
}
use universal_agent.Agent.Steady.{note-Holds, save-Holds}
use universal_agent.Agent.Ends.{
  Post, expired-Post, fail-Quits, finish-Quits, pause-Quits, requested-Post, stopped-Post,
}
use universal_agent.Agent.Counted.{IsAt, at}
use universal_agent.Agent.Stepped.{and-Post}
use universal_agent.Agent.Driven.{drive-Post}

module _ (a : AgentRuntime) where
  abbrev P : ℕ → Machine → Type 0
  P k m = IsAt k m.session

  unless-Post :
      (j k : ℕ) (o : Option ExecutionResult) (rest : ActionMethod (Option ExecutionResult))
      (m : Machine)
      → Post (P j) o m
      → (P j m → Returns (Post (P k)) (rest m))
      → Returns (Post (P k)) (unless_ended o rest m)
  unless-Post j k (some result) rest m h next = h
  unless-Post j k none rest m h next = next h

  -- A check that may end the run, and what follows it.
  checked-Post :
      (j k : ℕ) (check rest : ActionMethod (Option ExecutionResult)) (m : Machine)
      → Returns (Post (P j)) (check m)
      → ((m : Machine) → P j m → Returns (Post (P k)) (rest m))
      → Returns (Post (P k)) ((check >>= λ o. unless_ended o rest) m)
  checked-Post j k check rest m h next =
      then-Returns (Post (P j)) (Post (P k)) check (λ o. unless_ended o rest) m h
        (λ o m h. unless-Post j k o rest m h (next m))

  module _ (k : ℕ) where
    check_budgets-Post :
        (state : AgentState String) (m : Machine)
        → P k m
        → Returns (Post (P k)) (check_budgets a state m)
    unfolding check_budgets
    check_budgets-Post state m h =
        elim (Bool-cases (over state.cumulative_cost_micros a.max_total_cost_micros)) [
          | inl e ↦ rw e (
              stopped-Post a (P k) (fail ErrorCode.cost_limit_exceeded _)
                (fail-Quits ErrorCode.cost_limit_exceeded _) m)
          | inr e ↦ elim (Bool-cases (over state.cumulative_tokens a.max_total_tokens)) [
            | inl d ↦
                rw (e, d)
                  (stopped-Post a (P k) (fail ErrorCode.cost_limit_exceeded _)
                    (fail-Quits ErrorCode.cost_limit_exceeded _) m)
            | inr d ↦ rw (e, d) h
          ]
        ]

    record_usage-Post :
        (usage : Option ModelUsage) (m : Machine)
        → P k m
        → Returns (Post (P k)) (record_usage a usage m)
    unfolding record_usage
    record_usage-Post none m h = h
    record_usage-Post (some usage) m h =
        and-Post a k (Post (P k)) (note a "ModelUsageRecorded" none) _ m
          (note-Holds a (at k) "ModelUsageRecorded" none) h
          λ _ m h.
            and-Post a k (Post (P k)) (note a "LLMCallRecorded" none) _ m
              (note-Holds a (at k) "LLMCallRecorded" none) h
              λ _ m h.
                let m' = (on_agent_state (with_usage usage) m).1 in
                check_budgets-Post m'.session.state m' h

    reject-Post :
        (o : Option (ErrorCode × String)) (m : Machine)
        → P k m
        → Returns (Post (P k)) (reject a o m)
    unfolding reject
    reject-Post none m h = h
    reject-Post (some (code, reason)) m h =
        and-Post a k (Post (P k)) (note a "DecisionRejected" none)
          (λ _. stopped a (settle_with a (fail code reason))) m
          (note-Holds a (at k) "DecisionRejected" none) h
          (λ _ m h. stopped-Post a (P k) (fail code reason) (fail-Quits code reason) m)

    apply-Post :
        (type : DecisionType) (decision : Decision) (m : Machine)
        → P k m
        → Returns (Post (P k)) (apply_type a type decision m)
    unfolding apply_type
    apply-Post DecisionType.execute decision m h = drive-Post a k (proposed decision) m h
    apply-Post DecisionType.finish decision m h = stopped-Post a (P k) finish finish-Quits m
    apply-Post DecisionType.wait decision m h =
        stopped-Post a (P k) (pause "runtime paused by wait decision" none "GoalWaiting" none)
          (pause-Quits "runtime paused by wait decision" none "GoalWaiting" none) m
    apply-Post DecisionType.ask_user decision m h =
        stopped-Post a (P k)
          (pause "runtime paused for user input" decision.message "GoalWaiting" none)
          (pause-Quits "runtime paused for user input" decision.message "GoalWaiting" none) m

    validate-Post :
        (decision : Decision) (all : List CapabilityDefinition × List CapabilityInputContract)
        (m : Machine)
        → P k m
        → Returns (Post (P k)) (validate_and_apply a decision all m)
    unfolding validate_and_apply
    validate-Post decision all m h =
        let state = m.session.state in
        let error = first_error a state decision (constrain_capability_context state all) all.0 in
        checked-Post k k (reject a error)
          (note a "DecisionValidated" none >> apply_decision a decision) m (reject-Post error m h)
          (λ m h.
            and-Post a k (Post (P k)) (note a "DecisionValidated" none)
              (λ _. apply_decision a decision) m (note-Holds a (at k) "DecisionValidated" none) h
              (λ _ m h. unfold apply_decision in apply-Post decision.type decision m h))

    decided-Post :
        (r : Result String Decision) (m : Machine)
        → P k m
        → Returns (Post (P k)) (after_decision a r m)
    unfolding after_decision
    decided-Post (raised x) m h =
        stopped-Post a (P k) (fail ErrorCode.model_failure _) (fail-Quits ErrorCode.model_failure _)
          m
    decided-Post (ok decision) m h =
        let chosen = normalize_runtime_decision decision in
        let all = capability_context a.executor.capabilities a.executor.tools in
        and-Post a k (Post (P k)) (note a "DecisionGenerated" none) _ m
          (note-Holds a (at k) "DecisionGenerated" none) h
          λ _ m h.
            checked-Post k k (record_usage a (a.usage m))
              (pause_if_budget_expired a >>= λ expired.
                unless_ended expired (validate_and_apply a chosen all))
              m (record_usage-Post (a.usage m) m h)
              (λ m h.
                checked-Post k k (pause_if_budget_expired a) (validate_and_apply a chosen all) m
                  (expired-Post a (P k) m h) (λ m h. validate-Post chosen all m h))

  decide_and_act-Post :
      (k : ℕ) (m : Machine) → P k m → Returns (Post (P (k + 1))) (decide_and_act a m)
  unfolding decide_and_act
  decide_and_act-Post k m h =
      let m' = (on_agent_state (λ s. record s { iteration = s.iteration + 1 }) m).1 in
      and-Post a (k + 1) (Post (P (k + 1))) (save a) _ m' (save-Holds a (at (k + 1)))
        (ap (λ n. n + 1) h)
        λ _ m h.
          and-Post a (k + 1) (Post (P (k + 1))) (note a "IterationStarted" none) _ m
            (note-Holds a (at (k + 1)) "IterationStarted" none) h
            λ _ m h. decided-Post (k + 1) (decide_with_retries a a.max_model_retries 0 m) m h

  pub iterate-Post : (k : ℕ) (m : Machine) → P k m → Returns (Post (P (k + 1))) (iterate a m)
  unfolding iterate
  iterate-Post k m h =
      checked-Post k (k + 1) (pause_if_budget_expired a)
        (requested_control_transition a >>= λ requested. unless_ended requested (decide_and_act a))
        m (expired-Post a (P k) m h)
        (λ m h.
          checked-Post k (k + 1) (requested_control_transition a) (decide_and_act a) m
            (requested-Post a (P k) m h) (λ m h. decide_and_act-Post k m h))
