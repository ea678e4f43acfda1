-- ===== src/Runtime/Transitions.antt =====
-- The transitions of src/universal_agent/runtime/transitions.py. The state and the task graph of a
-- session share the task objects: the state holds a task by its id in the graph's table. The
-- evidence and the world of a session are no part of what a transition reads or writes.
use universal_agent.Prelude.{
  ℕ, String, Bool, true, false, not, ◌||◌, Option, none, some, List, [], ◌∷◌, if◌then◌else◌, ok,
  raised, Method, return, gets, ◌>>=◌, ◌>>◌,
}
use universal_agent.Prelude.Dict.{Dict, get, put}
use universal_agent.Core.Json.{JsonMapping, end, field, text}
use universal_agent.Core.Enums.{
  GoalStatus, TaskStatus, ExecutionStatus, EvaluationStatus, ErrorCode,
}
use universal_agent.Core.Models.{AgentState, EvaluationResult, ExecutionResult, Task}
use universal_agent.Tasks.Manager.{
  TaskManager, TaskError, TaskMethod, current, set_current_status, complete_current, is_completed,
  is_settled, with_status,
}
use universal_agent.Tasks.Loops.{all_tasks, has_unfinished}

pub record SessionRuntimeState : Type 0 where
  pub state : AgentState String
  pub tasks : TaskManager
  pub domain_name : String
  pub domain_version : String
  pub version : ℕ

abbrev pub SessionMethod : Type 0 → Type 0
SessionMethod A = Method TaskError SessionRuntimeState A

pub record Transition : Type 0 where
  pub result : ExecutionResult
  pub event_type : String
  pub event_data : JsonMapping
  pub action_id : Option String

-- A method of the task manager, called on the session's.
abbrev pub on_tasks : {A : Type 0} → TaskMethod A → SessionMethod A
on_tasks m session = let (r, tasks) = m session.tasks in (r, record session { tasks = tasks })

abbrev pub on_state : (AgentState String → AgentState String) → SessionMethod Unit
on_state f session = (ok tt, record session { state = f session.state })

-- `sync_current_task`
unfoldable pub sync_current_task : SessionMethod Unit
unfolding current
sync_current_task session = elim (current session.tasks).0 [
  | raised x ↦ (raised x, session)
  | ok task ↦
      let aligned = record session.state { current_task = session.tasks.current_id } in
      elim (all_tasks session.tasks.order session.tasks.tasks) [
        | raised x ↦ (raised x, record session { state = aligned })
        | ok all ↦
            (ok tt, record session { state = record aligned { tasks = session.tasks.order } })
      ]
]

-- `mark_current_task` of src/universal_agent/runtime/session.py
unfoldable pub mark_current_task : TaskStatus → SessionMethod Unit
mark_current_task status = do on_tasks (set_current_status status); sync_current_task

unfoldable pub build_result :
    AgentState String
    → ExecutionStatus
    → String
    → Option ErrorCode
    → Option String
    → ExecutionResult
build_result state status reason error_code user_message = record {
  status = status;
  session_id = state.session_id;
  goal_id = state.goal.id;
  task_id = state.current_task;
  iterations = state.iteration;
  reason = reason;
  error_code = error_code;
  user_message = user_message;
}

abbrev pub with_goal_status : GoalStatus → AgentState String → AgentState String
with_goal_status status state = record state { goal = record state.goal { status = status } }

abbrev pub with_reason : String → AgentState String → AgentState String
with_reason reason state = record state { termination_reason = some reason }

abbrev pub reason_data : String → JsonMapping
reason_data reason = field "reason" (text reason) end

unfoldable pub pause : String → Option String → String → Option String → SessionMethod Transition
pause reason user_message event_type action_id = do
  on_state (with_goal_status GoalStatus.waiting)
  mark_current_task TaskStatus.waiting
  on_state (with_reason reason)
  session ← gets (λ s. s)
  return (record {
    result = build_result session.state ExecutionStatus.waiting reason none user_message;
    event_type = event_type;
    event_data = reason_data reason;
    action_id = action_id;
  })

-- `error_code.value`
abbrev pub error_text : ErrorCode → String
error_text ErrorCode.validation_error = "validation_error"
error_text ErrorCode.unknown_capability = "unknown_capability"
error_text ErrorCode.no_capability_tool = "no_capability_tool"
error_text ErrorCode.unknown_tool = "unknown_tool"
error_text ErrorCode.tool_failure = "tool_failure"
error_text ErrorCode.unknown_execution = "unknown_execution"
error_text ErrorCode.timeout = "timeout"
error_text ErrorCode.invalid_state = "invalid_state"
error_text ErrorCode.iteration_limit = "iteration_limit"
error_text ErrorCode.model_failure = "model_failure"
error_text ErrorCode.policy_denied = "policy_denied"
error_text ErrorCode.confirmation_rejected = "confirmation_rejected"
error_text ErrorCode.evaluation_failed = "evaluation_failed"
error_text ErrorCode.domain_validation_failed = "domain_validation_failed"
error_text ErrorCode.resource_conflict = "resource_conflict"
error_text ErrorCode.cost_limit_exceeded = "cost_limit_exceeded"
error_text ErrorCode.transient = "transient"
error_text ErrorCode.permission_denied = "permission_denied"
error_text ErrorCode.dependency_missing = "dependency_missing"
error_text ErrorCode.user_required = "user_required"

unfoldable pub fail : ErrorCode → String → SessionMethod Transition
fail error_code reason = do
  on_state (with_goal_status GoalStatus.failed)
  mark_current_task TaskStatus.failed
  on_state (λ s. record (with_reason reason s) { error_code = some error_code })
  session ← gets (λ s. s)
  return (record {
    result = build_result session.state ExecutionStatus.failed reason (some error_code) none;
    event_type = "GoalFailed";
    event_data = field "error_code" (text (error_text error_code)) (reason_data reason);
    action_id = none;
  })

-- The body of the loop of `cancel`, for the task of this id.
unfoldable pub cancel_task : String → Dict Task → Dict Task
cancel_task task_id tasks = elim (get tasks task_id) [
  | none ↦ tasks
  | some task ↦
      if is_settled task.status
      then tasks
      else put tasks task_id (with_status task TaskStatus.cancelled)
]

unfoldable pub cancel_each : List String → Dict Task → Dict Task
cancel_each [] tasks = tasks
cancel_each (task_id ∷ rest) tasks = cancel_each rest (cancel_task task_id tasks)

-- The loop, over `session.tasks.all()`: the tasks of the order.
unfoldable pub cancel_tasks : TaskMethod Unit
cancel_tasks m = elim (all_tasks m.order m.tasks) [
  | raised x ↦ (raised x, m)
  | ok all ↦ (ok tt, record m { tasks = cancel_each m.order m.tasks })
]

abbrev pub cancelled_state : String → AgentState String → AgentState String
cancelled_state reason state = record state {
  goal = record state.goal { status = GoalStatus.cancelled };
  pending_action = none;
  error_code = none;
  termination_reason = some reason;
}

unfoldable pub cancel : String → SessionMethod Transition
cancel reason = do
  on_state (cancelled_state reason)
  on_tasks cancel_tasks
  sync_current_task
  session ← gets (λ s. s)
  return (record {
    result = build_result session.state ExecutionStatus.cancelled reason none none;
    event_type = "GoalCancelled";
    event_data = reason_data reason;
    action_id = none;
  })

abbrev pub is_completed_evaluation : EvaluationStatus → Bool
is_completed_evaluation EvaluationStatus.completed = true
is_completed_evaluation _ = false

-- `state.current_task.status is COMPLETED`; an id that the table lacks has no completed task.
unfoldable pub is_current_completed : SessionRuntimeState → Bool
is_current_completed session = elim (get session.tasks.tasks session.state.current_task) [
  | none ↦ false
  | some task ↦ is_completed task.status
]

-- The reason of an evaluation that completes the task and the goal.
unfoldable pub evaluated_reason : Option EvaluationResult → Option String
evaluated_reason none = none
evaluated_reason (some evaluation) =
    if not (is_completed_evaluation evaluation.status)
      || (not evaluation.task_completed || not evaluation.goal_completed)
    then none
    else some evaluation.reason

-- The reason with which the goal may finish, or none where `finish` is to be rejected.
unfoldable pub authorisation : SessionRuntimeState → Option String
unfolding is_current_completed evaluated_reason
authorisation session =
    if has_unfinished session.tasks || not (is_current_completed session)
    then none
    else evaluated_reason session.state.latest_evaluation

-- The writes and the transition of a goal that is completed.
unfoldable pub complete_goal : String → SessionMethod Transition
complete_goal reason = do
  on_state (λ s. with_reason reason (with_goal_status GoalStatus.completed s))
  session ← gets (λ s. s)
  return (record {
    result = build_result session.state ExecutionStatus.completed reason none none;
    event_type = "GoalCompleted";
    event_data = end;
    action_id = none;
  })

abbrev pub continued_reason : String
continued_reason = "session continued; model finished the turn"

abbrev pub rejected_reason : String
rejected_reason = "finish rejected because evaluator has not completed the task and goal"

unfoldable pub finish_continuation : SessionMethod Transition
finish_continuation = do on_tasks complete_current; complete_goal continued_reason

unfoldable pub finish : SessionMethod Transition
unfolding finish_continuation authorisation
finish session =
    if session.state.is_continuation
    then finish_continuation session
    else elim (authorisation session) [
      | none ↦ fail ErrorCode.invalid_state rejected_reason session
      | some reason ↦ complete_goal reason session
    ]
