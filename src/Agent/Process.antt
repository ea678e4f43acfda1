-- ===== src/Agent/Process.antt =====
-- The processing of observations, src/universal_agent/runtime/processing.py.
use universal_agent.Prelude.{
  ℕ, String, Bool, true, false, not, some, List, if◌then◌else◌, Result, ok, raised, return, ◌>>=◌,
  ◌>>◌, ◌==◌, String_eq,
}
use universal_agent.Core.Json.{JsonValue, JsonMapping}
use universal_agent.Core.Models.{AgentState, EvaluationResult, Task}
use universal_agent.Tasks.Manager.{complete_current, current, expand}
use universal_agent.Tasks.Loops.{complete_all, start_next}
use universal_agent.Runtime.Transitions.{SessionMethod, on_state, on_tasks, sync_current_task}
use universal_agent.Agent.Models.{Evaluated, Processed}

-- `criteria[key] = value`
unfoldable pub set_member : JsonMapping → String → JsonValue → JsonMapping
set_member JsonMapping.end key value = JsonMapping.field key value JsonMapping.end
set_member (JsonMapping.field k v rest) key value =
    if k == key
    then JsonMapping.field k value rest
    else JsonMapping.field k v (set_member rest key value)

-- `state.satisfied_criteria.update(...)`
unfoldable pub update_members : JsonMapping → JsonMapping → JsonMapping
unfolding set_member
update_members criteria JsonMapping.end = criteria
update_members criteria (JsonMapping.field k v rest) = update_members (set_member criteria k v) rest

abbrev pub with_evaluation : EvaluationResult → AgentState String → AgentState String
with_evaluation evaluation state = record state {
  latest_evaluation = some evaluation;
  satisfied_criteria = update_members state.satisfied_criteria evaluation.matched_criteria;
}

-- `start_next_task` of src/universal_agent/runtime/session.py: the alignment sets the current task.
unfoldable pub start_next_task : SessionMethod Unit
start_next_task = do on_tasks start_next; sync_current_task

-- `complete_current_task`
unfoldable pub complete_current_task : SessionMethod Unit
complete_current_task = do on_tasks complete_current; sync_current_task

-- The tasks behind one that is completed, and whether another one is the current task then.
unfoldable pub advance : Bool → String → SessionMethod Bool
unfolding start_next_task
advance true previous = on_tasks (λ tasks. (ok false, complete_all tasks))
advance false previous = do
  start_next_task
  next ← on_tasks current
  return (not (next.id == previous))

-- The tasks behind an evaluation.
unfoldable pub progress : Bool → Bool → SessionMethod Bool
unfolding advance complete_current_task
progress true goal_completed = do
  previous ← on_tasks current
  complete_current_task
  advance goal_completed previous.id
progress false goal_completed = return false

-- The part of `process` behind the choice of the evaluator; the text of an `EvaluationRoutingError`
-- is an answer.
unfoldable pub judged :
    List Task → Result String EvaluationResult → SessionMethod (Result String Processed)
unfolding progress
judged created (raised x) = return (raised x)
judged created (ok evaluation) = do
  on_state (with_evaluation evaluation)
  started ← progress evaluation.task_completed evaluation.goal_completed
  sync_current_task
  return (ok (record { created = created; evaluation = evaluation; is_next_started = started }))

-- `ObservationProcessor.process` behind the extractors.
unfoldable pub process : Evaluated → ℕ → SessionMethod (Result String Processed)
unfolding judged
process evaluated now = do
  created ← on_tasks (expand evaluated.specs now)
  judged created evaluated.evaluation
