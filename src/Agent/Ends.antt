-- ===== src/Agent/Ends.antt =====
-- A run that ends leaves no goal running.
use universal_agent.Prelude.{
  ◌≡◌, refl, sym, subst, String, Bool, true, false, Option, none, some, Result, ok, raised,
  Option-cases, Bool-cases, inl, inr, Keeps, then-Keeps, Returns, then-Returns, kept-Returns,
  return,
}
use universal_agent.Core.Enums.{ErrorCode, GoalStatus, TaskStatus}
use universal_agent.Core.Models.{ExecutionResult}
use universal_agent.Tasks.Manager.{TaskError, complete_current, set_current_status}
use universal_agent.Runtime.Transitions.{
  SessionMethod, SessionRuntimeState, Transition, authorisation, cancel, cancel_tasks,
  cancelled_state, complete_goal, fail, finish, finish_continuation, mark_current_task, on_tasks,
  pause, rejected_reason, sync_current_task, with_goal_status, continued_reason,
}
use universal_agent.Runtime.Finish.{finish-authorised, finish-continued, finish-rejected}
use universal_agent.Actions.Models.{Machine}
use universal_agent.Agent.Models.{
  AgentRuntime, ControlRequest, nothing, cancel_requested, pause_requested,
}
use universal_agent.Agent.Settle.{
  control_transition, expired_reason, lifted, on_session, pause_if, pause_if_budget_expired,
  requested_control_transition, settle, settle_with, stopped,
}
use universal_agent.Agent.Steady.{OfSession, Steady, on_tasks-Keeps, settle-Holds, sync-Keeps}

abbrev pub is_running : GoalStatus → Bool
is_running GoalStatus.running = true
is_running _ = false

abbrev pub Idle : SessionRuntimeState → Type 0
Idle s = is_running s.state.goal.status ≡ false

abbrev pub idle : Steady
idle = record {
  aligned = record {
    holds = Idle;
    current = λ s x h. h;
    listed = λ s xs h. h;
    table = λ s t h. h;
    version = λ s n h. h;
  };
  observations = λ m os h. h;
  pending = λ s x h. h;
  approvals = λ s x h. h;
}

abbrev pub Quits : {A : Type 0} → SessionMethod A → Type 0
Quits f = (s : SessionRuntimeState) → Returns (λ _ s. Idle s) (f s)

mark-Idle : (status : TaskStatus) → Keeps Idle (mark_current_task status)
unfolding mark_current_task
mark-Idle status =
    then-Keeps Idle (on_tasks (set_current_status status)) (λ _. sync_current_task)
      (on_tasks-Keeps idle.aligned (set_current_status status)) (λ _. sync-Keeps idle.aligned)

-- What a method that leaves the session idle in any case gives.
Idle-Returns :
    {A : Type 0} (f : SessionMethod A) → ((s : SessionRuntimeState) → Idle (f s).1) → Quits f
Idle-Returns f h s = kept-Returns Idle (f s).0 (f s).1 (h s)

fail-Idle :
    (code : ErrorCode) (reason : String) (s : SessionRuntimeState) → Idle (fail code reason s).1
unfolding fail
fail-Idle code reason s =
    then-Keeps Idle (mark_current_task TaskStatus.failed) _ (mark-Idle TaskStatus.failed)
      (λ _ s h. h) (record s { state = with_goal_status GoalStatus.failed s.state }) refl

pub fail-Quits : (code : ErrorCode) (reason : String) → Quits (fail code reason)
fail-Quits code reason = Idle-Returns (fail code reason) (fail-Idle code reason)

pause-Idle :
    (reason : String) (message : Option String) (event : String) (action_id : Option String)
    (s : SessionRuntimeState)
    → Idle (pause reason message event action_id s).1
unfolding pause
pause-Idle reason message event action_id s =
    then-Keeps Idle (mark_current_task TaskStatus.waiting) _ (mark-Idle TaskStatus.waiting)
      (λ _ s h. h) (record s { state = with_goal_status GoalStatus.waiting s.state }) refl

pub pause-Quits :
    (reason : String) (message : Option String) (event : String) (action_id : Option String)
    → Quits (pause reason message event action_id)
pause-Quits reason message event action_id =
    Idle-Returns (pause reason message event action_id) (pause-Idle reason message event action_id)

cancel-Idle : (reason : String) (s : SessionRuntimeState) → Idle (cancel reason s).1
unfolding cancel
cancel-Idle reason s =
    then-Keeps Idle (on_tasks cancel_tasks) _ (on_tasks-Keeps idle.aligned cancel_tasks)
      (λ _. then-Keeps Idle sync_current_task _ (sync-Keeps idle.aligned) (λ _ s h. h))
      (record s { state = cancelled_state reason s.state }) refl

pub cancel-Quits : (reason : String) → Quits (cancel reason)
cancel-Quits reason = Idle-Returns (cancel reason) (cancel-Idle reason)

complete_goal-Quits : (reason : String) → Quits (complete_goal reason)
unfolding complete_goal
complete_goal-Quits reason s = refl

pub finish-Quits : Quits finish
finish-Quits s = elim (Bool-cases s.state.is_continuation) [
  | inl c ↦ subst (Returns (λ _ s. Idle s)) (sym (finish-continued s c)) (
      unfold finish_continuation in
      then-Returns (λ _ _. Unit) (λ _ s. Idle s) (on_tasks complete_current)
        (λ _. complete_goal continued_reason) s
        (kept-Returns (λ _. Unit) (on_tasks complete_current s).0 (on_tasks complete_current s).1
          tt)
        (λ _ s _. complete_goal-Quits continued_reason s))
  | inr c ↦ elim (Option-cases (authorisation s)) [
    | inl e ↦
        subst (Returns (λ _ s. Idle s)) (sym (finish-rejected s c e))
          (fail-Quits ErrorCode.invalid_state rejected_reason s)
    | inr (reason, e) ↦
        subst (Returns (λ _ s. Idle s)) (sym (finish-authorised s reason c e))
          (complete_goal-Quits reason s)
  ]
]

-- The result of a session's method, for the machine.
lifted-Returns :
    (r : Result TaskError Transition) (s : SessionRuntimeState) (m : Machine)
    → Returns (λ _ s. Idle s) (r, s)
    → Returns (λ _ m. OfSession idle.aligned m) (lifted r, record m { session = s })
lifted-Returns (ok t) s m h = h
lifted-Returns (raised (TaskError.value_error x)) s m h = tt
lifted-Returns (raised (TaskError.key_error x)) s m h = tt

-- What ends with a result leaves no goal running, and what goes on has the property.
abbrev pub Post : (Machine → Type 0) → Option ExecutionResult → Machine → Type 0
Post P (some result) m = Idle m.session
Post P none m = P m

module _ (a : AgentRuntime) where
  abbrev IsIdle : Machine → Type 0
  IsIdle m = Idle m.session

  pub settle_with-Returns :
      (f : SessionMethod Transition)
      → Quits f
      → (m : Machine) → Returns (λ _ m. Idle m.session) (settle_with a f m)
  unfolding settle_with
  settle_with-Returns f quits m =
      then-Returns (λ _ m. IsIdle m) (λ _ m. IsIdle m) (on_session f) (settle a) m
        (let (r, s) = f m.session in lifted-Returns r s m (quits m.session))
        (λ t m h. kept-Returns IsIdle (settle a t m).0 (settle a t m).1 (settle-Holds a idle t m h))

  pub stopped-Post :
      (P : Machine → Type 0) (f : SessionMethod Transition)
      → Quits f
      → (m : Machine) → Returns (Post P) (stopped a (settle_with a f) m)
  stopped-Post P f quits m =
      then-Returns (λ _ m. IsIdle m) (Post P) (settle_with a f) (λ result. return (some result)) m
        (settle_with-Returns f quits m) (λ _ m h. h)

  control-Post :
      (P : Machine → Type 0) (o : ControlRequest) (m : Machine)
      → P m
      → Returns (Post P) (control_transition a o m)
  unfolding control_transition
  control-Post P nothing m p = p
  control-Post P (cancel_requested reason) m p =
      stopped-Post P (cancel reason) (cancel-Quits reason) m
  control-Post P (pause_requested reason) m p =
      stopped-Post P (pause reason none "SessionPaused" none)
        (pause-Quits reason none "SessionPaused" none) m

  pub requested-Post :
      (P : Machine → Type 0) (m : Machine)
      → P m
      → Returns (Post P) (requested_control_transition a m)
  unfolding requested_control_transition
  requested-Post P m p = control-Post P (a.requested m) m p

  pause_if-Post :
      (P : Machine → Type 0) (b : Bool) (m : Machine) → P m → Returns (Post P) (pause_if a b m)
  unfolding pause_if
  pause_if-Post P true m p =
      stopped-Post P (pause (expired_reason a) none "SessionPaused" none)
        (pause-Quits (expired_reason a) none "SessionPaused" none) m
  pause_if-Post P false m p = p

  pub expired-Post :
      (P : Machine → Type 0) (m : Machine) → P m → Returns (Post P) (pause_if_budget_expired a m)
  unfolding pause_if_budget_expired
  expired-Post P m p = pause_if-Post P (a.is_expired m) m p
