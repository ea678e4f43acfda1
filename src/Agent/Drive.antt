-- ===== src/Agent/Drive.antt =====
-- `_drive`: one action and the recoveries that it triggers, src/universal_agent/runtime/agent.py.
use Prim.Native.String.{◌++◌}
use universal_agent.Prelude.{
  ℕ, zero, suc, String, true, Option, none, some, return, ◌>>=◌, if◌then◌else◌,
}
use universal_agent.Prelude.Text.{decimal, is_empty_text}
use universal_agent.Core.Enums.{ErrorCode}
use universal_agent.Core.Models.{Decision, ExecutionResult, PendingAction}
use universal_agent.Runtime.Transitions.{fail, pause}
use universal_agent.Actions.Models.{
  ActionMethod, ActionOutcome, rejected, confirmation_required, observed,
}
use universal_agent.Actions.Identity.{or_empty}
use universal_agent.Actions.Execute.{execute}
use universal_agent.Actions.Prepare.{prepare}
use universal_agent.Agent.Models.{
  AgentRuntime, Attempt, proposed, approved, Step, stop, again, go_on,
}
use universal_agent.Agent.Settle.{requested_control_transition, settle_with, stopped}
use universal_agent.Agent.Recover.{observe}

abbrev pub confirm_message : PendingAction → String
confirm_message pending =
    "Confirm capability "
    ++ (pending.capability
        ++ (" on "
            ++ (if is_empty_text (or_empty pending.target)
                then "target"
                else or_empty pending.target)))

module _ (a : AgentRuntime) where
  -- The call of the executor.
  unfoldable pub attempt : Attempt → ActionMethod ActionOutcome
  attempt (proposed decision) = prepare a.executor decision
  attempt (approved pending) = execute a.executor pending true

  -- What a step gives, with the rest of the loop for a decision.
  unfoldable pub after_step :
      Step
      → (Decision → ActionMethod (Option ExecutionResult))
      → ActionMethod (Option ExecutionResult)
  after_step (stop result) others = return (some result)
  after_step (again decision) others = others decision
  after_step go_on others = return none

  unfoldable pub after_outcome :
      ActionOutcome
      → (Decision → ActionMethod (Option ExecutionResult))
      → ActionMethod (Option ExecutionResult)
  unfolding after_step
  after_outcome (rejected code reason) others = stopped a (settle_with a (fail code reason))
  after_outcome (confirmation_required pending reason) others = stopped a (
      settle_with a (
        pause reason (some (confirm_message pending)) "ConfirmationRequired"
          (some pending.action_id)))
  after_outcome (observed pending observation) others =
      observe a pending observation >>= λ step. after_step step others

  -- The body of the loop behind the check of the controls.
  unfoldable pub drive_step :
      Attempt
      → (Decision → ActionMethod (Option ExecutionResult))
      → Option ExecutionResult
      → ActionMethod (Option ExecutionResult)
  unfolding attempt after_outcome
  drive_step x others (some result) = return (some result)
  drive_step x others none = attempt x >>= λ outcome. after_outcome outcome others

  abbrev pub steps_reason : String
  steps_reason = "maximum recovery steps reached: " ++ decimal a.max_recovery_steps

  -- The loop, with the steps that are left.
  unfoldable pub drive_steps : ℕ → Attempt → ActionMethod (Option ExecutionResult)
  unfolding drive_step
  drive_steps zero x = stopped a (settle_with a (fail ErrorCode.iteration_limit steps_reason))
  drive_steps (suc n) x =
      requested_control_transition a
      >>= drive_step x (λ decision. drive_steps n (proposed decision))

  -- `_drive`
  unfoldable pub drive : Attempt → ActionMethod (Option ExecutionResult)
  unfolding drive_steps
  drive x = drive_steps a.max_recovery_steps x
