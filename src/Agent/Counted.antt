-- ===== src/Agent/Counted.antt =====
-- The count of iterations over the end of `process`.
use universal_agent.Prelude.{
  ℕ, ◌≡◌, Bool, true, false, List, Keeps, then-Keeps, String, Result, raised, ok,
}
use universal_agent.Core.Models.{EvaluationResult, Task}
use universal_agent.Tasks.Manager.{complete_current, expand, current}
use universal_agent.Tasks.Loops.{start_next}
use universal_agent.Runtime.Transitions.{SessionRuntimeState, on_tasks, sync_current_task}
use universal_agent.Agent.Models.{Evaluated}
use universal_agent.Agent.Process.{
  advance, complete_current_task, process, progress, start_next_task, with_evaluation, judged,
}
use universal_agent.Agent.Steady.{Steady, on_tasks-Keeps, sync-Keeps}

abbrev pub IsAt : ℕ → SessionRuntimeState → Type 0
IsAt k s = s.state.iteration ≡ k

abbrev pub at : ℕ → Steady
at k = record {
  aligned = record {
    holds = IsAt k;
    current = λ s x h. h;
    listed = λ s xs h. h;
    table = λ s t h. h;
    version = λ s n h. h;
  };
  observations = λ m os h. h;
  pending = λ s x h. h;
  approvals = λ s x h. h;
}

module _ (k : ℕ) where
  current-IsAt : Keeps (IsAt k) (on_tasks current)
  current-IsAt = on_tasks-Keeps (at k).aligned current

  next-IsAt : Keeps (IsAt k) start_next_task
  unfolding start_next_task
  next-IsAt =
      then-Keeps (IsAt k) (on_tasks start_next) (λ _. sync_current_task)
        (on_tasks-Keeps (at k).aligned start_next) (λ _. sync-Keeps (at k).aligned)

  advance-IsAt : (b : Bool) (previous : String) → Keeps (IsAt k) (advance b previous)
  unfolding advance
  advance-IsAt true previous = λ s h. h
  advance-IsAt false previous =
      then-Keeps (IsAt k) start_next_task _ next-IsAt
        (λ _. then-Keeps (IsAt k) (on_tasks current) _ current-IsAt (λ _ s h. h))

  completed-IsAt : Keeps (IsAt k) complete_current_task
  unfolding complete_current_task
  completed-IsAt =
      then-Keeps (IsAt k) (on_tasks complete_current) (λ _. sync_current_task)
        (on_tasks-Keeps (at k).aligned complete_current) (λ _. sync-Keeps (at k).aligned)

  progress-IsAt : (b goal_completed : Bool) → Keeps (IsAt k) (progress b goal_completed)
  unfolding progress
  progress-IsAt true goal_completed =
      then-Keeps (IsAt k) (on_tasks current) _ current-IsAt (λ previous.
        then-Keeps (IsAt k) complete_current_task _ completed-IsAt
          (λ _. advance-IsAt goal_completed previous.id))
  progress-IsAt false goal_completed = λ s h. h

  -- The end of `process`.
  judged-IsAt :
      (created : List Task) (r : Result String EvaluationResult) → Keeps (IsAt k) (judged created r)
  unfolding judged
  judged-IsAt created (raised x) s h = h
  judged-IsAt created (ok e) s h =
      then-Keeps (IsAt k) (progress e.task_completed e.goal_completed) _
        (progress-IsAt e.task_completed e.goal_completed)
        (λ _. then-Keeps (IsAt k) sync_current_task _ (sync-Keeps (at k).aligned) (λ _ s h. h))
        (record s { state = with_evaluation e s.state }) h

  pub process-IsAt : (evaluated : Evaluated) (now : ℕ) → Keeps (IsAt k) (process evaluated now)
  unfolding process
  process-IsAt evaluated now =
      then-Keeps (IsAt k) (on_tasks (expand evaluated.specs now)) _
        (on_tasks-Keeps (at k).aligned (expand evaluated.specs now))
        (λ created. judged-IsAt created evaluated.evaluation)
