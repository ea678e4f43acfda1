-- ===== src/Runtime/Cancel.antt =====
-- What `cancel` leaves of a session.
use universal_agent.Prelude.{
  ◌≡◌, refl, ◌∙◌, String, true, false, none, some, List, [], ◌∷◌, ok, Result, arith, Mem, inl, inr,
  Bool-cases, if◌then◌else◌, ◌==◌, String_eq, Option-cases,
}
use text.Mathlib.TextEquality.{eq_iff}
use universal_agent.Prelude.Dict.{Dict, get, has, has-get, get-put}
use universal_agent.Core.Enums.{GoalStatus, TaskStatus, ExecutionStatus}
use universal_agent.Core.Models.{Task}
use universal_agent.Tasks.Manager.{TaskManager, TaskError, with_status, is_settled}
use universal_agent.Tasks.Valid.{IsValid, all_tasks-ok, has-some}
use universal_agent.Runtime.Transitions.{
  SessionRuntimeState, Transition, cancel, cancel_task, cancel_each, cancel_tasks, cancelled_state,
  build_result,
}
use universal_agent.Runtime.Finish.{sync-ok}

-- A task that has ended stays as it is; any other is cancelled.
unfoldable pub ended : Task → Task
ended t = if is_settled t.status then t else with_status t TaskStatus.cancelled

ended-settled : (t : Task) → is_settled (ended t).status ≡ true
unfolding ended
ended-settled t = elim (Bool-cases (is_settled t.status)) [
  | inl e ↦ ground arith
  | inr e ↦ ground arith
]

module _ (tasks : Dict Task) (t : Task) where
  cancel_task-here :
      (id : String) → get tasks id ≡ some t → get (cancel_task id tasks) id ≡ some (ended t)
  unfolding cancel_task ended
  cancel_task-here id h =
      ground (arith, get-put tasks id id (with_status t TaskStatus.cancelled), eq_iff id id)

  cancel_task-other :
      (i id : String)
      → (i == id) ≡ false
      → get tasks id ≡ some t
      → get (cancel_task i tasks) id ≡ some t
  unfolding cancel_task
  cancel_task-other i id other h = elim (Option-cases (get tasks i)) [
    | inl e ↦ ground arith
    | inr (u, e) ↦ ground (arith, get-put tasks i id (with_status u TaskStatus.cancelled))
  ]

  cancel_task-kept :
      (i id : String)
      → is_settled t.status ≡ true
      → get tasks id ≡ some t
      → get (cancel_task i tasks) id ≡ some t
  cancel_task-kept i id settled h = elim (Bool-cases (i == id)) [
    | inr other ↦ cancel_task-other i id other h
    | inl same ↦
        let k : i ≡ id = (eq_iff i id).0 same in
        rw k (cancel_task-here id h ∙ unfold ended in ground arith)
  ]

cancel_each-kept :
    (ids : List String) (tasks : Dict Task) (t : Task) (id : String)
    → is_settled t.status ≡ true
    → get tasks id ≡ some t
    → get (cancel_each ids tasks) id ≡ some t
unfolding cancel_each
cancel_each-kept [] tasks t id settled h = h
cancel_each-kept (i ∷ rest) tasks t id settled h =
    cancel_each-kept rest (cancel_task i tasks) t id settled
      (cancel_task-kept tasks t i id settled h)

cancel_each-ended :
    (ids : List String) (tasks : Dict Task) (t : Task) (id : String)
    → Mem id ids
    → get tasks id ≡ some t
    → get (cancel_each ids tasks) id ≡ some (ended t)
unfolding cancel_each
cancel_each-ended [] tasks t id m h = absurd m
cancel_each-ended (i ∷ rest) tasks t id m h = elim (Bool-cases (i == id)) [
  | inl same ↦
      let k : i ≡ id = (eq_iff i id).0 same in
      rw k (
        cancel_each-kept rest (cancel_task id tasks) (ended t) id (ended-settled t)
          (cancel_task-here tasks t id h))
  | inr other ↦ elim m [
    | inl here ↦ absurd (ground (arith, eq_iff i id))
    | inr there ↦
        cancel_each-ended rest (cancel_task i tasks) t id there
          (cancel_task-other tasks t i id other h)
  ]
]

cancel_task-has :
    (i id : String) (tasks : Dict Task) → has tasks id ≡ true → has (cancel_task i tasks) id ≡ true
cancel_task-has i id tasks h =
    let (t, e) = has-some tasks id h in
    elim (Bool-cases (i == id)) [
      | inr other ↦
          let kept = cancel_task-other tasks t i id other e in
          ground (arith, has-get (cancel_task i tasks) id)
      | inl same ↦
          let k : i ≡ id = (eq_iff i id).0 same in
          let gone = cancel_task-here tasks t id e in
          rw k (ground (arith, has-get (cancel_task id tasks) id))
    ]

cancel_each-has :
    (ids : List String) (id : String) (tasks : Dict Task)
    → has tasks id ≡ true
    → has (cancel_each ids tasks) id ≡ true
unfolding cancel_each
cancel_each-has [] id tasks h = h
cancel_each-has (i ∷ rest) id tasks h =
    cancel_each-has rest id (cancel_task i tasks) (cancel_task-has i id tasks h)

-- The task graph behind the loop of `cancel`.
abbrev pub cancelled : TaskManager → TaskManager
cancelled m = record m { tasks = cancel_each m.order m.tasks }

cancelled-IsValid : (m : TaskManager) → IsValid m → IsValid (cancelled m)
cancelled-IsValid m v = record {
  current_known = cancel_each-has m.order m.current_id m.tasks v.current_known;
  order_known = λ id e. cancel_each-has m.order id m.tasks (v.order_known id e);
}

cancel_tasks-ok : (m : TaskManager) → IsValid m → cancel_tasks m ≡ (ok tt, cancelled m)
unfolding cancel_tasks
cancel_tasks-ok m v = let (ts, e) = all_tasks-ok m.order m.tasks v.order_known in ground arith

-- A cancelled session.
pub record Cancelled (reason : String) (before : SessionRuntimeState)
    (s : Result TaskError Transition × SessionRuntimeState) : Type 0 where
  pub transition : Transition
  pub returned : s.0 ≡ ok transition
  pub status : transition.result.status ≡ ExecutionStatus.cancelled
  pub goal : s.1.state.goal.status ≡ GoalStatus.cancelled
  pub pending : s.1.state.pending_action ≡ none
  pub reason_kept : s.1.state.termination_reason ≡ some reason
  pub tasks :
      (id : String) (t : Task)
      → Mem id before.tasks.order
      → get before.tasks.tasks id ≡ some t
      → get s.1.tasks.tasks id ≡ some (ended t)

-- On a valid session `cancel` returns. It cancels the goal, drops the action that waits for a
-- confirmation, and cancels every task of the order that has not ended; one that has ended stays.
pub cancel-Cancelled :
    (reason : String) (s : SessionRuntimeState)
    → IsValid s.tasks
    → Cancelled reason s (cancel reason s)
unfolding cancel build_result
cancel-Cancelled reason s v = rw (cancel_tasks-ok s.tasks v) (
    rw
      (sync-ok (record s { state = cancelled_state reason s.state; tasks = cancelled s.tasks })
        (cancelled-IsValid s.tasks v))
      (record {
        transition = _;
        returned = refl;
        status = refl;
        goal = refl;
        pending = refl;
        reason_kept = refl;
        tasks = λ id t m e. cancel_each-ended s.tasks.order s.tasks.tasks t id m e;
      }))
