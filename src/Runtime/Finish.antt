-- ===== src/Runtime/Finish.antt =====
-- What `finish` decides, and that the transitions return.
use universal_agent.Prelude.{
  ◌≡◌, refl, sym, ap, ◌∙◌, String, Bool, true, false, none, some, ok, Result, arith, inl, inr,
  Option-cases, Bool-cases,
}
use universal_agent.Prelude.Dict.{get}
use universal_agent.Core.Enums.{
  GoalStatus, TaskStatus, ExecutionStatus, EvaluationStatus, ErrorCode,
}
use universal_agent.Core.Models.{EvaluationResult, Task}
use universal_agent.Tasks.Manager.{TaskError, current, item_at, set_current_status}
use universal_agent.Tasks.Loops.{has_unfinished}
use universal_agent.Tasks.Valid.{
  IsValid, all_tasks-ok, has-some, set_current_status-IsValid, set_current_status-ok,
}
use universal_agent.Runtime.Transitions.{
  SessionRuntimeState, Transition, sync_current_task, mark_current_task, build_result, fail, finish,
  finish_continuation, complete_goal, authorisation, evaluated_reason, is_current_completed,
  rejected_reason, continued_reason, with_goal_status,
}

-- The session behind `sync_current_task`.
abbrev pub aligned : SessionRuntimeState → SessionRuntimeState
aligned s = record s {
  state = record s.state { current_task = s.tasks.current_id; tasks = s.tasks.order };
}

pub sync-ok : (s : SessionRuntimeState) → IsValid s.tasks → sync_current_task s ≡ (ok tt, aligned s)
unfolding sync_current_task current item_at
sync-ok s v =
    let (t, e) = has-some s.tasks.tasks s.tasks.current_id v.current_known in
    let (ts, all) = all_tasks-ok s.tasks.order s.tasks.tasks v.order_known in ground arith

mark-ok :
    (status : TaskStatus) (s : SessionRuntimeState)
    → IsValid s.tasks
    → mark_current_task status s
      ≡ (ok tt, aligned (record s { tasks = (set_current_status status s.tasks).1 }))
unfolding mark_current_task
mark-ok status s v =
    let set = set_current_status-ok status s.tasks v in
    let synced =
      sync-ok (record s { tasks = (set_current_status status s.tasks).1 })
        (set_current_status-IsValid status s.tasks v) in
    rw set synced

-- On a valid session `fail` returns: its result carries the error, and so does the session.
pub record Failed (code : ErrorCode) (reason : String)
    (s : Result TaskError Transition × SessionRuntimeState) : Type 0 where
  pub transition : Transition
  pub returned : s.0 ≡ ok transition
  pub status : transition.result.status ≡ ExecutionStatus.failed
  pub code_given : transition.result.error_code ≡ some code
  pub goal : s.1.state.goal.status ≡ GoalStatus.failed
  pub code_kept : s.1.state.error_code ≡ some code
  pub reason_kept : s.1.state.termination_reason ≡ some reason

fail-Failed :
    (code : ErrorCode) (reason : String) (s : SessionRuntimeState)
    → IsValid s.tasks
    → Failed code reason (fail code reason s)
unfolding fail build_result
fail-Failed code reason s v =
    rw
      (mark-ok TaskStatus.failed (record s { state = with_goal_status GoalStatus.failed s.state })
        v)
      (record {
        transition = _;
        returned = refl;
        status = refl;
        code_given = refl;
        goal = refl;
        code_kept = refl;
        reason_kept = refl;
      })

-- What the evaluator has to say of a session before it may finish.
pub record Authorised (s : SessionRuntimeState) : Type 0 where
  pub settled : has_unfinished s.tasks ≡ false
  pub task : Task
  pub current : get s.tasks.tasks s.state.current_task ≡ some task
  pub completed : task.status ≡ TaskStatus.completed
  pub evaluation : EvaluationResult
  pub evaluated : s.state.latest_evaluation ≡ some evaluation
  pub verdict : evaluation.status ≡ EvaluationStatus.completed
  pub task_completed : evaluation.task_completed ≡ true
  pub goal_completed : evaluation.goal_completed ≡ true

current-completed :
    (s : SessionRuntimeState)
    → is_current_completed s ≡ true
    → (t : Task) × (get s.tasks.tasks s.state.current_task ≡ some t)
      × (t.status ≡ TaskStatus.completed)
unfolding is_current_completed
current-completed s h = elim (Option-cases (get s.tasks.tasks s.state.current_task)) [
  | inl e ↦ absurd (ground arith)
  | inr (t, e) ↦ (t, e, ground arith)
]

evaluation-completed :
    (e : EvaluationResult) (reason : String)
    → evaluated_reason (some e) ≡ some reason
    → (e.status ≡ EvaluationStatus.completed)
      × (e.task_completed ≡ true)
      × (e.goal_completed ≡ true)
unfolding evaluated_reason
evaluation-completed e reason h = split e.status e.task_completed e.goal_completed refl refl refl
  where
    split :
        (status : EvaluationStatus) (task goal : Bool)
        → e.status ≡ status
        → e.task_completed ≡ task
        → e.goal_completed ≡ goal
        → (e.status ≡ EvaluationStatus.completed)
          × (e.task_completed ≡ true)
          × (e.goal_completed ≡ true)
    split EvaluationStatus.completed true true a b c = (a, b, c)
    split EvaluationStatus.completed true false a b c = absurd (ground arith)
    split EvaluationStatus.completed false goal a b c = absurd (ground arith)
    split EvaluationStatus.incomplete task goal a b c = absurd (ground arith)
    split EvaluationStatus.failed task goal a b c = absurd (ground arith)

authorisation-parts :
    (s : SessionRuntimeState) (reason : String)
    → authorisation s ≡ some reason
    → (has_unfinished s.tasks ≡ false)
      × (is_current_completed s ≡ true)
      × (evaluated_reason s.state.latest_evaluation ≡ some reason)
authorisation-parts s reason h = elim (Bool-cases (has_unfinished s.tasks)) [
  | inl unfinished ↦ absurd (unfold authorisation in ground arith)
  | inr settled ↦ elim (Bool-cases (is_current_completed s)) [
    | inl done ↦ (settled, done, unfold authorisation in ground arith)
    | inr unfinished ↦ absurd (unfold authorisation in ground arith)
  ]
]

authorisation-Authorised :
    (s : SessionRuntimeState) (reason : String) → authorisation s ≡ some reason → Authorised s
authorisation-Authorised s reason h =
    let (settled, finished, evaluated) = authorisation-parts s reason h in
    let (t, e, done) = current-completed s finished in
    elim (Option-cases s.state.latest_evaluation) [
      | inl missing ↦ absurd (unfold evaluated_reason in ground arith)
      | inr (evaluation, given) ↦
          let (verdict, task_done, goal_done) =
            evaluation-completed evaluation reason (ap evaluated_reason (sym given) ∙ evaluated) in
          record {
            settled = settled;
            task = t;
            current = e;
            completed = done;
            evaluation = evaluation;
            evaluated = given;
            verdict = verdict;
            task_completed = task_done;
            goal_completed = goal_done;
          }
    ]

Authorised-authorisation :
    (s : SessionRuntimeState) (a : Authorised s) → authorisation s ≡ some a.evaluation.reason
unfolding authorisation is_current_completed evaluated_reason
Authorised-authorisation s a = ground (
  arith, a.settled, a.current, a.completed, a.evaluated, a.verdict, a.task_completed,
  a.goal_completed,
)

-- A completed goal: the result and the session say so, with this reason.
pub record Completed (reason : String) (s : Result TaskError Transition × SessionRuntimeState)
    : Type 0 where
  pub transition : Transition
  pub returned : s.0 ≡ ok transition
  pub status : transition.result.status ≡ ExecutionStatus.completed
  pub goal : s.1.state.goal.status ≡ GoalStatus.completed
  pub reason_kept : s.1.state.termination_reason ≡ some reason

complete_goal-Completed :
    (reason : String) (s : SessionRuntimeState) → Completed reason (complete_goal reason s)
unfolding complete_goal build_result
complete_goal-Completed reason s = record {
  transition = _;
  returned = refl;
  status = refl;
  goal = refl;
  reason_kept = refl;
}

continuation-Completed :
    (s : SessionRuntimeState) → IsValid s.tasks → Completed continued_reason (finish_continuation s)
unfolding finish_continuation
continuation-Completed s v = rw (set_current_status-ok TaskStatus.completed s.tasks v) (
    complete_goal-Completed continued_reason
      (record s { tasks = (set_current_status TaskStatus.completed s.tasks).1 }))

-- The three ways of `finish`.
pub finish-continued :
    (s : SessionRuntimeState) → s.state.is_continuation ≡ true → finish s ≡ finish_continuation s
unfolding finish
finish-continued s c = ground arith

pub finish-authorised :
    (s : SessionRuntimeState) (reason : String)
    → s.state.is_continuation ≡ false
    → authorisation s ≡ some reason
    → finish s ≡ complete_goal reason s
unfolding finish
finish-authorised s reason c e = ground arith

pub finish-rejected :
    (s : SessionRuntimeState)
    → s.state.is_continuation ≡ false
    → authorisation s ≡ none
    → finish s ≡ fail ErrorCode.invalid_state rejected_reason s
unfolding finish
finish-rejected s c e = ground arith

-- On a valid session `finish` returns. It completes the goal where the session is a continuation,
-- and otherwise where the evaluator has authorised it and then with the evaluation's reason; in
-- every other case it fails the goal with `invalid_state`.
pub finish-Authorised :
    (s : SessionRuntimeState)
    → IsValid s.tasks
    → (s.state.is_continuation ≡ true → Completed continued_reason (finish s))
      × (s.state.is_continuation ≡ false
          → ((a : Authorised s) → Completed a.evaluation.reason (finish s))
            × (¬ Authorised s → Failed ErrorCode.invalid_state rejected_reason (finish s)))
finish-Authorised s v = (
  λ c. rw (finish-continued s c) (continuation-Completed s v),
  λ c. (
    λ a.
        rw (finish-authorised s a.evaluation.reason c (Authorised-authorisation s a))
          (complete_goal-Completed a.evaluation.reason s),
    λ n. elim (Option-cases (authorisation s)) [
      | inl e ↦ rw (finish-rejected s c e) (fail-Failed ErrorCode.invalid_state rejected_reason s v)
      | inr (reason, e) ↦ absurd (n (authorisation-Authorised s reason e))
    ],
  ),
)
