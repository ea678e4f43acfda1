-- ===== src/Tasks/Settled.antt =====
-- What `complete_all` leaves of a task graph.
use universal_agent.Prelude.{
  ◌≡◌, refl, String, false, not, some, [], ◌∷◌, any, if◌then◌else◌, arith, String_eq,
}
use universal_agent.Prelude.Dict.{Dict, get, values}
use universal_agent.Core.Enums.{TaskStatus}
use universal_agent.Core.Models.{Task}
use universal_agent.Tasks.Manager.{TaskManager, is_settled, with_status}
use universal_agent.Tasks.Loops.{complete_all, has_unfinished, settle_unfinished}

settle-values :
    (tasks : Dict Task)
    → any (λ t. not (is_settled t.status)) (values (settle_unfinished TaskStatus.completed tasks))
      ≡ false
unfolding settle_unfinished values
settle-values [] = refl
settle-values ((id, task) ∷ rest) = let others = settle-values rest in ground arith

-- The task that `complete_all` makes of a task.
abbrev pub completed : Task → Task
completed task = if is_settled task.status then task else with_status task TaskStatus.completed

settle-get :
    (tasks : Dict Task) (id : String) (task : Task)
    → get tasks id ≡ some task
    → get (settle_unfinished TaskStatus.completed tasks) id ≡ some (completed task)
unfolding settle_unfinished get
settle-get [] id task h = absurd (ground arith)
settle-get ((i, t) ∷ rest) id task h = let others = settle-get rest id task in ground arith

-- Behind `complete_all` no task is unfinished, and each task stands under its id, completed if it
-- had not ended and as it was otherwise.
pub complete_all-has_unfinished :
    (m : TaskManager)
    → (has_unfinished (complete_all m) ≡ false)
      × ((id : String) (task : Task)
          → get m.tasks id ≡ some task
          → get (complete_all m).tasks id ≡ some (completed task))
unfolding complete_all has_unfinished
complete_all-has_unfinished m = (settle-values m.tasks, settle-get m.tasks)
