-- ===== src/Session/Copy.antt =====
-- `copy_session` of src/universal_agent/state/session.py. A copy of JSON values is the values
-- themselves; a copy of a task matters where two tasks of one id become one object.
use universal_agent.Prelude.{Option, false, none, some, List, [], ◌∷◌, map}
use universal_agent.Prelude.Dict.{Dict, get, put}
use universal_agent.Core.Models.{
  AgentState, Task, Goal, Observation, EvaluationResult, PendingAction,
}
use universal_agent.Tasks.Manager.{TaskNodeSnapshot}
use universal_agent.Session.Models.{SessionSnapshot, Evidence, domains}

abbrev pub copy_task : Task → Task
copy_task task = record {
  description = task.description;
  required_criteria = task.required_criteria;
  id = task.id;
  status = task.status;
  created_at = task.created_at;
}

abbrev pub copy_goal : Goal → Goal
copy_goal goal = record {
  description = goal.description;
  success_criteria = goal.success_criteria;
  id = goal.id;
  status = goal.status;
  created_at = goal.created_at;
}

abbrev pub copy_observation : Observation → Observation
copy_observation observation = record {
  id = observation.id;
  action_id = observation.action_id;
  task_id = observation.task_id;
  source = observation.source;
  status = observation.status;
  values = observation.values;
  observed_at = observation.observed_at;
  error = observation.error;
  error_code = observation.error_code;
}

abbrev pub copy_evaluation : Option EvaluationResult → Option EvaluationResult
copy_evaluation none = none
copy_evaluation (some evaluation) = some (record {
  status = evaluation.status;
  reason = evaluation.reason;
  evaluator_name = evaluation.evaluator_name;
  matched_criteria = evaluation.matched_criteria;
  task_completed = evaluation.task_completed;
  goal_completed = evaluation.goal_completed;
})

abbrev pub copy_pending_action : Option PendingAction → Option PendingAction
copy_pending_action none = none
copy_pending_action (some action) = some (record {
  action_id = action.action_id;
  capability = action.capability;
  tool_name = action.tool_name;
  target = action.target;
  arguments = action.arguments;
  domain_name = action.domain_name;
  domain_version = action.domain_version;
  idempotency_key = action.idempotency_key;
  parameters_hash = action.parameters_hash;
  attempt = action.attempt;
  resource_key = action.resource_key;
  resource_version = action.resource_version;
})

abbrev pub copy_evidence : Evidence → Evidence
copy_evidence evidence = record {
  session_id = evidence.session_id;
  task_id = evidence.task_id;
  action_id = evidence.action_id;
  observation_id = evidence.observation_id;
  subject = evidence.subject;
  claim = evidence.claim;
  value = evidence.value;
  source = evidence.source;
  confidence = evidence.confidence;
  id = evidence.id;
  observed_at = evidence.observed_at;
  domain_name = evidence.domain_name;
  domain_version = evidence.domain_version;
}

-- `{node.task.id: _copy_task(node.task) for node in nodes}`
unfoldable pub copied_tasks : List TaskNodeSnapshot → Dict Task → Dict Task
copied_tasks [] tasks = tasks
copied_tasks (node ∷ rest) tasks = copied_tasks rest (put tasks node.task.id (copy_task node.task))

-- `_resolve_task`, with the table of copies behind it.
unfoldable pub resolve_task : Task → Dict Task → Task × Dict Task
resolve_task task tasks = elim (get tasks task.id) [
  | some existing ↦ (existing, tasks)
  | none ↦ (copy_task task, put tasks task.id (copy_task task))
]

unfoldable pub resolve_tasks : List Task → Dict Task → List Task
resolve_tasks [] tasks = []
resolve_tasks (task ∷ rest) tasks =
    let (found, known) = resolve_task task tasks in found ∷ resolve_tasks rest known

-- `_copy_state`. The constructor's defaults stand in the fields that it does not pass on.
unfoldable pub copy_state : AgentState Task → Dict Task → AgentState Task
unfolding resolve_task resolve_tasks
copy_state state tasks =
    let (current, known) = resolve_task state.current_task tasks in
    record {
      session_id = state.session_id;
      goal = copy_goal state.goal;
      current_task = current;
      read_only = state.read_only;
      iteration = state.iteration;
      satisfied_criteria = state.satisfied_criteria;
      observations = map copy_observation state.observations;
      latest_evaluation = copy_evaluation state.latest_evaluation;
      pending_action = copy_pending_action state.pending_action;
      approved_fingerprints = state.approved_fingerprints;
      tasks = resolve_tasks state.tasks known;
      recovery_attempts = state.recovery_attempts;
      termination_reason = state.termination_reason;
      error_code = state.error_code;
      tenant_id = state.tenant_id;
      cumulative_cost_micros = 0;
      cumulative_tokens = 0;
      is_continuation = false;
    }

-- `tasks[node.task.id]` is there, since the table was made from the nodes; without it the node stays.
unfoldable pub copy_node : Dict Task → TaskNodeSnapshot → TaskNodeSnapshot
copy_node tasks node = elim (get tasks node.task.id) [
  | none ↦ node
  | some task ↦ record node { task = task }
]

unfoldable pub copy_session : SessionSnapshot → SessionSnapshot
unfolding copied_tasks copy_node copy_state domains
copy_session snapshot =
    let tasks = copied_tasks snapshot.task_graph.nodes [] in
    record {
      state = copy_state snapshot.state tasks;
      task_graph = record {
        nodes = map (copy_node tasks) snapshot.task_graph.nodes;
        current_task_id = snapshot.task_graph.current_task_id;
      };
      evidence = map copy_evidence snapshot.evidence;
      domain_name = snapshot.domain_name;
      domain_version = snapshot.domain_version;
      domain_identities = domains snapshot;
      version = snapshot.version;
    }
