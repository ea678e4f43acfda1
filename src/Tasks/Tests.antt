-- ===== src/Tasks/Tests.antt =====
-- A graph of two tasks, where the second waits for the first, and the theorems at it.
use universal_agent.Prelude.{false, String, ◌≡◌, refl, none, some, [], ◌∷◌, ok, Mem}
use universal_agent.Prelude.Dict.{get, put, has}
use universal_agent.Core.Enums.{TaskStatus}
use universal_agent.Core.Models.{Task}
use universal_agent.Tasks.Manager.{
  TaskManager, new_manager, expand, expand_each, expand_one, item_at, validate_acyclic,
  is_acyclic_from,
}
use universal_agent.Tasks.Loops.{
  complete_all, has_unfinished, start_next, start_first, started, is_ready, all_completed,
}
use universal_agent.Tasks.Settled.{completed, complete_all-has_unfinished}
use universal_agent.Tasks.Ready.{MayStart, start_next-none}

abbrev root : Task
root = record {
  description = "diagnose";
  required_criteria = [];
  id = "r";
  status = TaskStatus.completed;
  created_at = 1;
}

abbrev repair : Task
repair = record {
  description = "repair";
  required_criteria = [];
  id = "task:repair";
  status = TaskStatus.pending;
  created_at = 2;
}

abbrev graph : TaskManager
graph = record {
  tasks = ("r", root) ∷ ("task:repair", repair) ∷ [];
  keys = ("root", "r") ∷ ("repair", "task:repair") ∷ [];
  dependencies = ("r", []) ∷ ("task:repair", "r" ∷ []) ∷ [];
  order = "r" ∷ "task:repair" ∷ [];
  current_id = "r";
}

expanded :
    (expand
      (record {
        key = "repair";
        description = "repair";
        required_criteria = [];
        depends_on = "r" ∷ [];
        task_id = none;
      }
        ∷ [])
      2
      (new_manager root)).1
    ≡ graph
unfolding expand expand_each expand_one new_manager has put validate_acyclic is_acyclic_from
expanded = refl

idle : (start_next (started graph "task:repair" repair)).0 ≡ ok none
unfolding start_next start_first is_ready all_completed item_at get put started
idle = refl

start_next-none_example :
    ((start_next (started graph "task:repair" repair)).1 ≡ started graph "task:repair" repair)
    × ((id : String) (task : Task)
        → Mem id (started graph "task:repair" repair).order
        → ¬ MayStart (started graph "task:repair" repair) id task)
start_next-none_example = start_next-none (started graph "task:repair" repair) idle

complete_all-has_unfinished_example :
    (has_unfinished (complete_all graph) ≡ false)
    × ((id : String) (task : Task)
        → get graph.tasks id ≡ some task
        → get (complete_all graph).tasks id ≡ some (completed task))
complete_all-has_unfinished_example = complete_all-has_unfinished graph
