-- ===== src/Tasks/Loops.antt =====
-- The loops of `TaskManager` over its tasks, and its views and snapshots, src/universal_agent/tasks/manager.py.
use Prim.Native.String.{◌++◌}
use universal_agent.Prelude.{
  ℕ, String, Bool, true, false, not, Option, none, some, List, [], ◌∷◌, ◌++◌ as append, any, all,
  is_empty, if◌then◌else◌, Result, ok, raised, ◌==◌, String_eq,
}
use universal_agent.Prelude.Dict.{Dict, has, put, values}
use universal_agent.Core.Enums.{TaskStatus}
use universal_agent.Core.Models.{Task}
use universal_agent.Tasks.Manager.{
  TaskSpec, TaskNodeSnapshot, TaskGraphSnapshot, TaskError, value_error, TaskManager, TaskMethod,
  is_pending, is_completed, is_settled, item_at, with_status, new_manager, task_from_spec, expand,
  validate_acyclic,
}

-- `all(self._tasks[item].status is COMPLETED for item in dependencies)`
unfoldable pub all_completed : Dict Task → List String → Result TaskError Bool
unfolding item_at
all_completed tasks [] = ok true
all_completed tasks (item ∷ rest) =
    let others = all_completed tasks rest in
    elim (item_at tasks item) [
      | raised x ↦ raised x
      | ok task ↦ if is_completed task.status then others else ok false
    ]

-- `task.status is PENDING and all(...)`, for the task of this id.
unfoldable pub is_ready : TaskManager → String → Result TaskError (Bool × Task)
unfolding item_at
is_ready m task_id = elim (item_at m.tasks task_id) [
  | raised x ↦ raised x
  | ok task ↦ elim (item_at m.dependencies task_id) [
    | raised x ↦ raised x
    | ok dependencies ↦
        if not (is_pending task.status)
        then ok (false, task)
        else elim (all_completed m.tasks dependencies) [ raised x ↦ raised x | ok b ↦ ok (b, task) ]
  ]
]

-- What `start_next` does to the task that it starts.
unfoldable pub started : TaskManager → String → Task → TaskManager
started m task_id task = record m {
  current_id = task_id;
  tasks = put m.tasks task_id (with_status task TaskStatus.running);
}

-- The loop of `start_next`.
unfoldable pub start_first : List String → TaskMethod (Option Task)
start_first [] m = (ok none, m)
start_first (task_id ∷ rest) m =
    let others = start_first rest m in
    elim (is_ready m task_id) [
      | raised x ↦ (raised x, m)
      | ok (b, task) ↦
          if b
          then (ok (some (with_status task TaskStatus.running)), started m task_id task)
          else others
    ]

unfoldable pub start_next : TaskMethod (Option Task)
start_next m = start_first m.order m

-- `for task in self._tasks.values(): if task.status not in {...}: task.status = status`
unfoldable pub settle_unfinished : TaskStatus → Dict Task → Dict Task
settle_unfinished status [] = []
settle_unfinished status ((id, task) ∷ rest) =
    (id, if is_settled task.status then task else with_status task status)
    ∷ settle_unfinished status rest

-- `complete_all`
unfoldable pub complete_all : TaskManager → TaskManager
unfolding settle_unfinished
complete_all m = record m { tasks = settle_unfinished TaskStatus.completed m.tasks }

-- `has_unfinished`
unfoldable pub has_unfinished : TaskManager → Bool
has_unfinished m = any (λ task. not (is_settled task.status)) (values m.tasks)

-- `all`
unfoldable pub all_tasks : List String → Dict Task → Result TaskError (List Task)
unfolding item_at
all_tasks [] tasks = ok []
all_tasks (task_id ∷ rest) tasks =
    let others = all_tasks rest tasks in
    elim (item_at tasks task_id) [
      | raised x ↦ raised x
      | ok task ↦ elim others [ raised x ↦ raised x | ok more ↦ ok (task ∷ more) ]
    ]

-- `from_specs`
unfoldable pub from_specs : List TaskSpec → ℕ → Result TaskError TaskManager
from_specs [] created_at = raised (value_error "task specs must contain at least one task")
from_specs (root_spec ∷ specs) created_at = elim (task_from_spec root_spec created_at) [
  | raised x ↦ raised x
  | ok root ↦
      let fresh = new_manager root in
      let manager =
        if root_spec.key == "root"
        then fresh
        else record fresh { keys = (root_spec.key, root.id) ∷ [] } in
      let (r, m) = expand specs created_at manager in
      elim r [ raised x ↦ raised x | ok created ↦ ok m ]
]

-- The loop of `from_snapshot` over the nodes.
unfoldable pub load_nodes : List TaskNodeSnapshot → TaskManager → Result TaskError TaskManager
load_nodes [] m = ok m
load_nodes (node ∷ rest) m =
    let others = load_nodes rest (record m {
      keys = put m.keys node.key node.task.id;
      tasks = put m.tasks node.task.id node.task;
      dependencies = put m.dependencies node.task.id node.depends_on;
      order = append m.order (node.task.id ∷ []);
    }) in
    if has m.keys node.key
    then raised (value_error ("duplicate task key: " ++ node.key))
    else if has m.tasks node.task.id
    then raised (value_error ("duplicate task id: " ++ node.task.id))
    else others

-- The first entry with a dependency that is not a task.
unfoldable pub dangling : Dict Task → Dict (List String) → Option String
dangling tasks [] = none
dangling tasks ((task_id, dependencies) ∷ rest) =
    let others = dangling tasks rest in
    if not (all (has tasks) dependencies) then some task_id else others

-- The manager that `from_snapshot` fills, its tables emptied.
abbrev pub blank : TaskManager
blank = record { tasks = []; keys = []; dependencies = []; order = []; current_id = "" }

-- `from_snapshot`
unfoldable pub from_snapshot : TaskGraphSnapshot → Result TaskError TaskManager
unfolding load_nodes dangling
from_snapshot snapshot =
    if is_empty snapshot.nodes
    then raised (value_error "task graph must contain at least one task")
    else elim (load_nodes snapshot.nodes blank) [
      | raised x ↦ raised x
      | ok m ↦
          if not (has m.tasks snapshot.current_task_id)
          then raised (value_error "task graph current task does not exist")
          else elim (dangling m.tasks m.dependencies) [
            | some task_id ↦
                raised (value_error ("task " ++ (task_id ++ " references unknown dependencies")))
            | none ↦ elim (validate_acyclic m).0 [
              | raised x ↦ raised x
              | ok _ ↦ ok (record m { current_id = snapshot.current_task_id })
            ]
          ]
    ]

-- `{task_id: key for key, task_id in self._keys.items()}`
unfoldable pub keys_by_id : Dict String → Dict String → Dict String
keys_by_id [] known = known
keys_by_id ((key, task_id) ∷ rest) known = keys_by_id rest (put known task_id key)

unfoldable pub snapshot_node : TaskManager → String → Result TaskError TaskNodeSnapshot
unfolding item_at
snapshot_node m task_id = elim (item_at (keys_by_id m.keys []) task_id) [
  | raised x ↦ raised x
  | ok key ↦ elim (item_at m.tasks task_id) [
    | raised x ↦ raised x
    | ok task ↦ elim (item_at m.dependencies task_id) [
      | raised x ↦ raised x
      | ok depends_on ↦ ok (record { key = key; task = task; depends_on = depends_on })
    ]
  ]
]

unfoldable pub snapshot_nodes : List String → TaskManager → Result TaskError (List TaskNodeSnapshot)
snapshot_nodes [] m = ok []
snapshot_nodes (task_id ∷ rest) m =
    let others = snapshot_nodes rest m in
    elim (snapshot_node m task_id) [
      | raised x ↦ raised x
      | ok node ↦ elim others [ raised x ↦ raised x | ok nodes ↦ ok (node ∷ nodes) ]
    ]

-- `snapshot`
unfoldable pub snapshot : TaskManager → Result TaskError TaskGraphSnapshot
snapshot m = elim (snapshot_nodes m.order m) [
  | raised x ↦ raised x
  | ok nodes ↦ ok (record { nodes = nodes; current_task_id = m.current_id })
]
