-- ===== src/Agent/Control.antt =====
-- `resume`, `pause` and `cancel` of src/universal_agent/runtime/agent.py on a session that no task
-- runs, loaded and hydrated.
use universal_agent.Prelude.{
  suc, String, Bool, true, false, not, Option, none, some, Result, ok, raised, return, throw, ◌>>=◌,
  ◌>>◌, if◌then◌else◌,
}
use universal_agent.Core.Enums.{ErrorCode, ExecutionStatus, GoalStatus, TaskStatus}
use universal_agent.Core.Models.{AgentState, ExecutionResult, PendingAction}
use universal_agent.Runtime.Transitions.{
  build_result, cancel, fail, mark_current_task, pause, with_goal_status,
}
use universal_agent.Actions.Models.{ActionError, ActionMethod, cancelled}
use universal_agent.Actions.Resources.{on_agent_state, release_pending_resource, with_pending}
use universal_agent.Agent.Models.{
  AgentRuntime, Attempt, ControlRequest, Step, approved, proposed, stop, again, go_on,
  cancel_requested,
}
use universal_agent.Agent.Settle.{
  commit_session_event, on_session, requested_control_transition, settle_with, stopped,
}
use universal_agent.Agent.Recover.{plan_failure}
use universal_agent.Agent.Drive.{drive}
use universal_agent.Agent.Loop.{loop, unless_ended}

abbrev pub is_waiting : GoalStatus → Bool
is_waiting GoalStatus.waiting = true
is_waiting _ = false

-- `state.goal.status in {COMPLETED, FAILED, CANCELLED}`
abbrev pub is_ended : GoalStatus → Bool
is_ended GoalStatus.completed = true
is_ended GoalStatus.failed = true
is_ended GoalStatus.cancelled = true
is_ended _ = false

abbrev pub without_reason : AgentState String → AgentState String
without_reason state = record state { termination_reason = none }

-- A result that refuses the call and changes nothing.
unfoldable pub refused : String → ActionMethod (Option ExecutionResult)
refused reason m = (
  ok (
      some (
        build_result m.session.state ExecutionStatus.failed reason (some ErrorCode.invalid_state)
          none)),
  m,
)

abbrev pub not_waiting : String
not_waiting = "session is not waiting"

abbrev pub nothing_to_confirm : String
nothing_to_confirm =
    "no pending action to confirm; session is waiting for user input, not for action confirmation"

module _ (a : AgentRuntime) where
  -- `_loop`, with the fuel that it needs.
  abbrev pub run_loop : ActionMethod (Option ExecutionResult)
  run_loop = loop a (suc a.max_iterations)

  -- The action that is driven before the loop, if there is one.
  unfoldable pub drive_first : Option Attempt → ActionMethod (Option ExecutionResult)
  drive_first none = run_loop
  drive_first (some x) = drive a x >>= λ result. unless_ended result run_loop

  -- The body of the `try` of `_continue_controlled`.
  unfoldable pub continue_body : Option Attempt → ActionMethod (Option ExecutionResult)
  unfolding drive_first
  continue_body x =
      requested_control_transition a >>= λ requested. unless_ended requested (drive_first x)

  -- What follows the cancellation of the running task.
  unfoldable pub after_cancelled : ControlRequest → ActionMethod (Option ExecutionResult)
  after_cancelled (cancel_requested reason) = stopped a (settle_with a (cancel reason))
  after_cancelled _ = throw cancelled

  unfoldable pub catch_cancelled :
      Result ActionError (Option ExecutionResult) → ActionMethod (Option ExecutionResult)
  unfolding after_cancelled
  catch_cancelled (ok result) = return result
  catch_cancelled (raised cancelled) = λ m. after_cancelled (a.requested m) m
  catch_cancelled (raised x) = throw x

  -- `_continue_controlled`
  unfoldable pub continue_controlled : Option Attempt → ActionMethod (Option ExecutionResult)
  unfolding continue_body catch_cancelled
  continue_controlled x m = let (r, m') = continue_body x m in catch_cancelled r m'

  -- The session runs again.
  unfoldable pub wake : ActionMethod Unit
  wake = do
    on_agent_state (with_goal_status GoalStatus.running)
    on_session (mark_current_task TaskStatus.running)
    on_agent_state without_reason

  -- What the planner gives for a rejected action.
  unfoldable pub after_rejection : Step → ActionMethod (Option ExecutionResult)
  unfolding continue_controlled
  after_rejection (stop result) = return (some result)
  after_rejection (again decision) = continue_controlled (some (proposed decision))
  after_rejection go_on = return none

  -- The user rejects the pending action.
  unfoldable pub reject_pending : PendingAction → ActionMethod (Option ExecutionResult)
  unfolding wake after_rejection
  reject_pending pending = do
    wake
    on_agent_state (with_pending none)
    release_pending_resource a.executor pending
    step ← plan_failure a pending ErrorCode.confirmation_rejected "user rejected pending action"
    after_rejection step

  unfoldable pub resume_run : Option Attempt → ActionMethod (Option ExecutionResult)
  unfolding wake continue_controlled
  resume_run x = do wake; commit_session_event a "SessionResumed" none; continue_controlled x

  -- `resume` of a waiting session, by its pending action and by `confirmed`.
  unfoldable pub resume_waiting :
      Option PendingAction → Option Bool → ActionMethod (Option ExecutionResult)
  unfolding reject_pending resume_run
  resume_waiting none (some confirmed) = refused nothing_to_confirm
  resume_waiting none none = resume_run none
  resume_waiting (some pending) none = stopped a (
      settle_with a
        (fail ErrorCode.invalid_state "resume requires confirmation for pending action"))
  resume_waiting (some pending) (some false) = reject_pending pending
  resume_waiting (some pending) (some true) = resume_run (some (approved pending))

  -- `resume`
  unfoldable pub resume : Option Bool → ActionMethod (Option ExecutionResult)
  unfolding resume_waiting
  resume confirmed m =
      if not (is_waiting m.session.state.goal.status)
      then refused not_waiting m
      else resume_waiting m.session.state.pending_action confirmed m

  -- `pause`
  unfoldable pub pause_session : String → ActionMethod (Option ExecutionResult)
  pause_session reason m =
      if is_ended m.session.state.goal.status
      then refused "cannot pause a terminal session" m
      else stopped a (settle_with a (pause reason none "SessionPaused" none)) m

  -- `cancel`
  unfoldable pub cancel_session : String → ActionMethod (Option ExecutionResult)
  cancel_session reason m =
      if is_ended m.session.state.goal.status
      then refused "cannot cancel a terminal session" m
      else stopped a (settle_with a (cancel reason)) m
