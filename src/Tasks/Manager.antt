-- ===== src/Tasks/Manager.antt =====
-- `TaskManager` of src/universal_agent/tasks/manager.py, and the records of models.py. A task is an
-- entry of the graph's table, so a change of its status is a write there.
use Prim.Native.String.{◌++◌}
use universal_agent.Prelude.{
  ℕ, zero, suc, String, Bool, true, false, not, ◌||◌, Option, none, some, List, [], ◌∷◌,
  ◌++◌ as append, any, all, filter, is_empty, length, if◌then◌else◌, Result, ok, raised, Method,
  return, ◌>>=◌, ◌>>◌, String_eq,
}
use universal_agent.Prelude.Text.{is_empty_text}
use universal_agent.Prelude.Dict.{Dict, get, has, put}
use universal_agent.Core.Enums.{TaskStatus}
use universal_agent.Core.Models.{Task}

pub record TaskSpec : Type 0 where
  pub key : String
  pub description : String
  pub required_criteria : List String
  pub depends_on : List String
  pub task_id : Option String

pub record TaskNodeSnapshot : Type 0 where
  pub key : String
  pub task : Task
  pub depends_on : List String

pub record TaskGraphSnapshot : Type 0 where
  pub nodes : List TaskNodeSnapshot
  pub current_task_id : String

-- `ValueError` with its message, and `KeyError` of a missing key.
pub data TaskError : Type 0 where
  value_error key_error : String → TaskError

pub record TaskManager : Type 0 where
  pub tasks : Dict Task
  pub keys : Dict String
  pub dependencies : Dict (List String)
  pub order : List String
  pub current_id : String

abbrev pub TaskMethod : Type 0 → Type 0
TaskMethod A = Method TaskError TaskManager A

abbrev pub is_pending : TaskStatus → Bool
is_pending TaskStatus.pending = true
is_pending _ = false

abbrev pub is_completed : TaskStatus → Bool
is_completed TaskStatus.completed = true
is_completed _ = false

-- `status in {COMPLETED, FAILED, CANCELLED}`
abbrev pub is_settled : TaskStatus → Bool
is_settled TaskStatus.completed = true
is_settled TaskStatus.failed = true
is_settled TaskStatus.cancelled = true
is_settled _ = false

-- `TaskManager(root)`
unfoldable pub new_manager : Task → TaskManager
new_manager root = record {
  tasks = (root.id, root) ∷ [];
  keys = ("root", root.id) ∷ [];
  dependencies = (root.id, []) ∷ [];
  order = root.id ∷ [];
  current_id = root.id;
}

-- `d[key]`
unfoldable pub item_at : {V : Type 0} → Dict V → String → Result TaskError V
item_at d key = elim (get d key) [ none ↦ raised (key_error key) | some v ↦ ok v ]

-- `current`
unfoldable pub current : TaskMethod Task
current m = (item_at m.tasks m.current_id, m)

-- `self._tasks[task_id].status = status`, for a task that is there.
abbrev pub with_status : Task → TaskStatus → Task
with_status task status = record task { status = status }

-- `self.current.status = status`
unfoldable pub set_current_status : TaskStatus → TaskMethod Unit
set_current_status status m = elim (get m.tasks m.current_id) [
  | none ↦ (raised (key_error m.current_id), m)
  | some task ↦ (ok tt, record m { tasks = put m.tasks m.current_id (with_status task status) })
]

-- `complete_current`
abbrev pub complete_current : TaskMethod Unit
complete_current = set_current_status TaskStatus.completed

-- `set_current`
unfoldable pub set_current : String → TaskMethod Unit
set_current task_id m =
    if has m.tasks task_id
    then (ok tt, record m { current_id = task_id })
    else (raised (value_error ("task does not exist: " ++ task_id)), m)

-- Whether `TopologicalSorter(dependencies).prepare()` succeeds: the nodes can be removed one round
-- after another, each when none of its predecessors is left. A node that only occurs as a
-- predecessor has none itself, and is gone before the first round.
unfoldable pub blocked_by : Dict (List String) → String × List String → Bool
blocked_by remaining (_, predecessors) = any (has remaining) predecessors

unfoldable pub is_acyclic_from : ℕ → Dict (List String) → Bool
unfolding blocked_by
is_acyclic_from zero remaining = is_empty remaining
is_acyclic_from (suc rounds) remaining =
    is_acyclic_from rounds (filter (blocked_by remaining) remaining)

-- `_validate_acyclic`
unfoldable pub validate_acyclic : TaskMethod Unit
validate_acyclic m =
    if is_acyclic_from (length m.dependencies) m.dependencies
    then (ok tt, m)
    else (raised (value_error "task graph contains a dependency cycle"), m)

-- The task that a specification describes; its id is the given one or is made from the key.
unfoldable pub task_of_spec : TaskSpec → ℕ → Task
task_of_spec spec created_at = record {
  description = spec.description;
  required_criteria = spec.required_criteria;
  id = elim spec.task_id [ none ↦ "task:" ++ spec.key | some id ↦ id ];
  status = TaskStatus.pending;
  created_at = created_at;
}

-- `_task_from_spec`
unfoldable pub task_from_spec : TaskSpec → ℕ → Result TaskError Task
unfolding task_of_spec
task_from_spec spec created_at =
    if is_empty_text spec.key || is_empty_text spec.description
    then raised (value_error "task key and description are required")
    else ok (task_of_spec spec created_at)

-- The writes at the end of the loop of `expand`.
unfoldable pub add_task : TaskSpec → Task → TaskManager → TaskManager
add_task spec task m = record m {
  tasks = put m.tasks task.id task;
  keys = put m.keys spec.key task.id;
  dependencies = put m.dependencies task.id spec.depends_on;
  order = append m.order (task.id ∷ []);
}

-- The body of the loop of `expand`: the new task, or none where the key is known.
unfoldable pub expand_one : TaskSpec → ℕ → TaskMethod (Option Task)
unfolding task_from_spec add_task
expand_one spec created_at m =
    if is_empty_text spec.key || is_empty_text spec.description
    then (raised (value_error "task key and description are required"), m)
    else if has m.keys spec.key
    then (ok none, m)
    else if not (all (has m.tasks) spec.depends_on)
    then (raised (value_error "task dependencies must reference existing tasks"), m)
    else if has m.tasks (task_of_spec spec created_at).id
    then (raised (value_error ("duplicate task id: " ++ (task_of_spec spec created_at).id)), m)
    else (ok (some (task_of_spec spec created_at)), add_task spec (task_of_spec spec created_at) m)

abbrev pub prepend : {A : Type 0} → Option A → List A → List A
prepend none rest = rest
prepend (some a) rest = a ∷ rest

unfoldable pub expand_each : List TaskSpec → ℕ → TaskMethod (List Task)
expand_each [] created_at = return []
expand_each (spec ∷ rest) created_at = do
  task ← expand_one spec created_at
  created ← expand_each rest created_at
  return (prepend task created)

unfoldable pub expand : List TaskSpec → ℕ → TaskMethod (List Task)
expand specs created_at = do
  created ← expand_each specs created_at
  validate_acyclic
  return created
