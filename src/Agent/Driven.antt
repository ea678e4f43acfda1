-- ===== src/Agent/Driven.antt =====
-- What an action and its recoveries leave of the session.
use universal_agent.Prelude.{ℕ, zero, suc, true, Option, none, some, Keeps, Returns, then-Returns}
use universal_agent.Core.Enums.{ErrorCode}
use universal_agent.Core.Models.{Decision, ExecutionResult}
use universal_agent.Runtime.Transitions.{fail, pause}
use universal_agent.Actions.Models.{
  ActionMethod, ActionOutcome, Machine, rejected, confirmation_required, observed,
}
use universal_agent.Actions.Whole.{execute-Spares, prepare-Spares}
use universal_agent.Agent.Models.{
  AgentRuntime, Attempt, proposed, approved, Step, stop, again, go_on,
}
use universal_agent.Agent.Settle.{requested_control_transition}
use universal_agent.Agent.Recover.{observe}
use universal_agent.Agent.Drive.{
  after_outcome, after_step, attempt, confirm_message, drive, drive_step, drive_steps, steps_reason,
}
use universal_agent.Agent.Steady.{stable}
use universal_agent.Agent.Ends.{Post, fail-Quits, pause-Quits, requested-Post, stopped-Post}
use universal_agent.Agent.Counted.{IsAt, at}
use universal_agent.Agent.Stepped.{StepPost, and-Post, observe-Post}

module _ (a : AgentRuntime) (k : ℕ) where
  abbrev P : Machine → Type 0
  P m = IsAt k m.session

  -- The recoveries that follow.
  abbrev Others : (Decision → ActionMethod (Option ExecutionResult)) → Type 0
  Others others = (d : Decision) (m : Machine) → P m → Returns (Post P) (others d m)

  after_step-Post :
      (step : Step) (others : Decision → ActionMethod (Option ExecutionResult)) (m : Machine)
      → Others others
      → StepPost a k P step m
      → Returns (Post P) (after_step a step others m)
  unfolding after_step
  after_step-Post (stop result) others m o h = h
  after_step-Post (again decision) others m o h = o decision m h
  after_step-Post go_on others m o h = h

  after_outcome-Post :
      (outcome : ActionOutcome) (others : Decision → ActionMethod (Option ExecutionResult))
      (m : Machine)
      → Others others
      → P m
      → Returns (Post P) (after_outcome a outcome others m)
  unfolding after_outcome
  after_outcome-Post (rejected code reason) others m o h =
      stopped-Post a P (fail code reason) (fail-Quits code reason) m
  after_outcome-Post (confirmation_required pending reason) others m o h =
      let message = some (confirm_message pending) in
      stopped-Post a P (pause reason message "ConfirmationRequired" (some pending.action_id))
        (pause-Quits reason message "ConfirmationRequired" (some pending.action_id)) m
  after_outcome-Post (observed pending observation) others m o h =
      then-Returns (StepPost a k P) (Post P) (observe a pending observation)
        (λ step. after_step a step others) m (observe-Post a k pending observation m h)
        (λ step m h. after_step-Post step others m o h)

  attempt-Holds : (x : Attempt) → Keeps P (attempt a x)
  unfolding attempt
  attempt-Holds (proposed decision) m h = prepare-Spares a.executor (stable (at k)) decision m h
  attempt-Holds (approved pending) m h = execute-Spares a.executor (stable (at k)) pending true m h

  drive_step-Post :
      (x : Attempt) (others : Decision → ActionMethod (Option ExecutionResult))
      (o : Option ExecutionResult) (m : Machine)
      → Others others
      → Post P o m
      → Returns (Post P) (drive_step a x others o m)
  unfolding drive_step
  drive_step-Post x others (some result) m next h = h
  drive_step-Post x others none m next h =
      and-Post a k (Post P) (attempt a x) (λ outcome. after_outcome a outcome others) m
        (attempt-Holds x) h (λ outcome m h. after_outcome-Post outcome others m next h)

  drive_steps-Post :
      (n : ℕ) (x : Attempt) (m : Machine) → P m → Returns (Post P) (drive_steps a n x m)
  unfolding drive_steps
  drive_steps-Post zero x m h =
      stopped-Post a P (fail ErrorCode.iteration_limit (steps_reason a))
        (fail-Quits ErrorCode.iteration_limit (steps_reason a)) m
  drive_steps-Post (suc n) x m h =
      let others : Decision → ActionMethod (Option ExecutionResult) =
        λ decision. drive_steps a n (proposed decision) in
      then-Returns (Post P) (Post P) (requested_control_transition a) (drive_step a x others) m
        (requested-Post a P m h)
        (λ o m h. drive_step-Post x others o m (λ d m h. drive_steps-Post n (proposed d) m h) h)

  -- An action and its recoveries either end the run with a result, which leaves the goal not running,
  -- or go on in the same iteration, unless they raise.
  pub drive-Post : (x : Attempt) (m : Machine) → P m → Returns (Post P) (drive a x m)
  unfolding drive
  drive-Post x m h = drive_steps-Post a.max_recovery_steps x m h
