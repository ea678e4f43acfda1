-- ===== src/Agent/Controlled.antt =====
-- What `resume`, `pause` and `cancel` promise.
use universal_agent.Prelude.{
  ◌≡◌, refl, ℕ, suc, String, Bool, true, false, Option, none, some, Result, ok, raised, Returns,
  then-Returns, kept-Returns, arith, ◌>>◌, ◌>>=◌,
}
use universal_agent.Core.Enums.{ErrorCode, GoalStatus}
use universal_agent.Core.Models.{ExecutionResult, PendingAction}
use universal_agent.Runtime.Transitions.{cancel, fail}
use universal_agent.Actions.Models.{
  ActionError, ActionMethod, Machine, cancelled, failed, resource_error, tool_error,
}
use universal_agent.Actions.Resources.{release_pending_resource}
use universal_agent.Agent.Models.{
  AgentRuntime, Attempt, ControlRequest, Step, nothing, cancel_requested, pause_requested, stop,
  again, go_on, approved, proposed,
}
use universal_agent.Agent.Settle.{commit_session_event, requested_control_transition}
use universal_agent.Agent.Recover.{plan_failure}
use universal_agent.Agent.Drive.{drive}
use universal_agent.Agent.Loop.{unless_ended}
use universal_agent.Agent.Control.{
  after_cancelled, after_rejection, catch_cancelled, continue_body, continue_controlled,
  drive_first, is_waiting, refused, reject_pending, resume, resume_run, resume_waiting, run_loop,
  wake,
}
use universal_agent.Agent.Ends.{
  Idle, Post, cancel-Quits, fail-Quits, is_running, requested-Post, stopped-Post,
}
use universal_agent.Agent.Stepped.{StepPost, plan_failure-Post}
use universal_agent.Agent.Driven.{drive-Post}
use universal_agent.Agent.Bounded.{Ended, loop-Ended}

module _ (a : AgentRuntime) where
  -- Behind a call of which only the end matters.
  then-Ended :
      {A : Type 0} (f : ActionMethod A) (g : A → ActionMethod (Option ExecutionResult))
      (m : Machine)
      → ((x : A) (m : Machine) → Returns (Ended a) (g x m))
      → Returns (Ended a) ((f >>= g) m)
  then-Ended f g m rest =
      then-Returns (λ _ _. Unit) (Ended a) f g m (kept-Returns (λ _. Unit) (f m).0 (f m).1 tt)
        (λ x m _. rest x m)

  run_loop-Ended : (m : Machine) → Returns (Ended a) (run_loop a m)
  run_loop-Ended m =
      (loop-Ended a (suc a.max_iterations) (suc a.max_iterations) m (omega arith) (omega arith)).0

  unless-Ended :
      (P : Machine → Type 0) (o : Option ExecutionResult)
      (rest : ActionMethod (Option ExecutionResult)) (m : Machine)
      → Post P o m
      → ((m : Machine) → Returns (Ended a) (rest m))
      → Returns (Ended a) (unless_ended o rest m)
  unless-Ended P none rest m h next = next m
  unless-Ended P (some result) rest m h next = h

  drive_first-Ended : (x : Option Attempt) (m : Machine) → Returns (Ended a) (drive_first a x m)
  unfolding drive_first
  drive_first-Ended none m = run_loop-Ended m
  drive_first-Ended (some x) m =
      let k = m.session.state.iteration in
      then-Returns (Post (λ m. m.session.state.iteration ≡ k)) (Ended a) (drive a x)
        (λ result. unless_ended result (run_loop a)) m (drive-Post a k x m refl)
        (λ o m h.
          unless-Ended (λ m. m.session.state.iteration ≡ k) o (run_loop a) m h run_loop-Ended)

  continue_body-Ended : (x : Option Attempt) (m : Machine) → Returns (Ended a) (continue_body a x m)
  unfolding continue_body
  continue_body-Ended x m =
      then-Returns (Post (λ _. Unit)) (Ended a) (requested_control_transition a)
        (λ requested. unless_ended requested (drive_first a x)) m
        (requested-Post a (λ _. Unit) m tt)
        (λ o m h. unless-Ended (λ _. Unit) o (drive_first a x) m h (drive_first-Ended x))

  after_cancelled-Ended :
      (r : ControlRequest) (m : Machine) → Returns (Ended a) (after_cancelled a r m)
  unfolding after_cancelled
  after_cancelled-Ended (cancel_requested reason) m =
      stopped-Post a (λ _. ⊥) (cancel reason) (cancel-Quits reason) m
  after_cancelled-Ended (pause_requested reason) m = tt
  after_cancelled-Ended nothing m = tt

  catch_cancelled-Ended :
      (r : Result ActionError (Option ExecutionResult)) (m : Machine)
      → Returns (Ended a) (r, m)
      → Returns (Ended a) (catch_cancelled a r m)
  unfolding catch_cancelled
  catch_cancelled-Ended (ok result) m h = h
  catch_cancelled-Ended (raised cancelled) m h = after_cancelled-Ended (a.requested m) m
  catch_cancelled-Ended (raised (failed x)) m h = tt
  catch_cancelled-Ended (raised (resource_error x)) m h = tt
  catch_cancelled-Ended (raised (tool_error x)) m h = tt

  continue_controlled-Ended :
      (x : Option Attempt) (m : Machine) → Returns (Ended a) (continue_controlled a x m)
  unfolding continue_controlled
  continue_controlled-Ended x m =
      let (r, m') = continue_body a x m in catch_cancelled-Ended r m' (continue_body-Ended x m)

  resume_run-Ended : (x : Option Attempt) (m : Machine) → Returns (Ended a) (resume_run a x m)
  unfolding resume_run
  resume_run-Ended x m =
      then-Ended (wake a)
        (λ _. commit_session_event a "SessionResumed" none >> continue_controlled a x) m
        (λ _ m.
          then-Ended (commit_session_event a "SessionResumed" none) (λ _. continue_controlled a x) m
            (λ _ m. continue_controlled-Ended x m))

  after_rejection-Ended :
      (k : ℕ) (step : Step) (m : Machine)
      → StepPost a k (λ _. ⊥) step m
      → Returns (Ended a) (after_rejection a step m)
  unfolding after_rejection
  after_rejection-Ended k (stop result) m h = h
  after_rejection-Ended k (again decision) m h =
      continue_controlled-Ended (some (proposed decision)) m
  after_rejection-Ended k go_on m h = absurd h

  planned-Ended :
      (pending : PendingAction) (m : Machine)
      → Returns (Ended a) (
          (plan_failure a pending ErrorCode.confirmation_rejected "user rejected pending action"
              >>= after_rejection a)
            m)
  planned-Ended pending m =
      let k = m.session.state.iteration in
      let reason : String = "user rejected pending action" in
      then-Returns (StepPost a k (λ _. ⊥)) (Ended a)
        (plan_failure a pending ErrorCode.confirmation_rejected reason) (after_rejection a) m
        (plan_failure-Post a k (λ _. ⊥) pending ErrorCode.confirmation_rejected reason m refl)
        (after_rejection-Ended k)

  reject_pending-Ended :
      (pending : PendingAction) (m : Machine) → Returns (Ended a) (reject_pending a pending m)
  unfolding reject_pending
  reject_pending-Ended pending m = then-Ended (wake a) _ m λ _ m.
      then-Ended (release_pending_resource a.executor pending) _ _ λ _ m. planned-Ended pending m

  waiting-Idle : (status : GoalStatus) → is_waiting status ≡ true → is_running status ≡ false
  waiting-Idle GoalStatus.waiting e = refl
  waiting-Idle GoalStatus.pending e = absurd (ground arith)
  waiting-Idle GoalStatus.running e = absurd (ground arith)
  waiting-Idle GoalStatus.completed e = absurd (ground arith)
  waiting-Idle GoalStatus.failed e = absurd (ground arith)
  waiting-Idle GoalStatus.cancelled e = absurd (ground arith)

  resume_waiting-Ended :
      (pending : Option PendingAction) (confirmed : Option Bool) (m : Machine)
      → Idle m.session
      → Returns (Ended a) (resume_waiting a pending confirmed m)
  unfolding resume_waiting refused
  resume_waiting-Ended none (some b) m h = h
  resume_waiting-Ended none none m h = resume_run-Ended none m
  resume_waiting-Ended (some pending) none m h =
      stopped-Post a (λ _. ⊥) (fail ErrorCode.invalid_state _)
        (fail-Quits ErrorCode.invalid_state _) m
  resume_waiting-Ended (some pending) (some true) m h = resume_run-Ended (some (approved pending)) m
  resume_waiting-Ended (some pending) (some false) m h = reject_pending-Ended pending m

  -- A resume of a waiting session ends, whatever the user says of the pending action: it returns a
  -- result, with which the goal is not running, or raises.
  pub resume-Ended :
      (confirmed : Option Bool) (m : Machine)
      → is_waiting m.session.state.goal.status ≡ true
      → Returns (Ended a) (resume a confirmed m)
  unfolding resume
  resume-Ended confirmed m w = rw w (
      resume_waiting-Ended m.session.state.pending_action confirmed m
        (waiting-Idle m.session.state.goal.status w))
