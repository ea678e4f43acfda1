-- ===== src/Scheduler.antt =====
-- `WorkScheduler` of src/universal_agent/distributed/scheduler.py, over the work queue. A call reads
-- the clock once.
use Prim.Native.String.{◌++◌}
use universal_agent.Prelude.{
  ℕ, String, Bool, not, ◌&&◌, Option, none, some, List, [], ◌∷◌, filter, return, lift, gets,
  require, ◌>>=◌, ◌>>◌, ◌==◌, String_eq, Option_eq,
}
use universal_agent.Prelude.Int.{ℤ}
use universal_agent.Prelude.Text.{is_blank}
use universal_agent.Core.Json.{JsonMapping}
use universal_agent.Queue.Models.{WorkItem, value_error, is_terminal}
use universal_agent.Queue.Store.{QueueMethod, EnqueueRequest, enqueue, list_items}
use universal_agent.Queue.Settling.{cancel}

pub data WorkKind : Type 0 where
  agent_session agent_goal task tool_action : WorkKind

-- `kind.value`
abbrev pub kind_value : WorkKind → String
kind_value WorkKind.agent_session = "agent_session"
kind_value WorkKind.agent_goal = "agent_goal"
kind_value WorkKind.task = "task"
kind_value WorkKind.tool_action = "tool_action"

-- The arguments that the four methods pass on; a missing payload is the empty mapping.
pub record WorkOptions : Type 0 where
  pub payload : Option JsonMapping
  pub priority : ℤ
  pub max_attempts : ℕ
  pub available_at : Option ℕ

unfoldable pub session_key : String → String
session_key session_id = "session:" ++ session_id

unfoldable pub task_key : String → String → String
task_key session_id task_id = "task:" ++ (session_id ++ (":" ++ task_id))

unfoldable pub action_key : String → String → String → String
action_key session_id task_id action_id =
    "action:" ++ (session_id ++ (":" ++ (task_id ++ (":" ++ action_id))))

-- `_require_id`
unfoldable pub require_id : String → String → QueueMethod Unit
require_id value name =
    lift (require (not (is_blank value)) (value_error (name ++ " must not be empty")))

abbrev pub request :
    WorkKind → Option String → Option String → Option String → String → WorkOptions → EnqueueRequest
request kind session_id task_id action_id idempotency_key options = record {
  kind = kind_value kind;
  payload = options.payload;
  session_id = session_id;
  task_id = task_id;
  action_id = action_id;
  priority = options.priority;
  max_attempts = options.max_attempts;
  available_at = options.available_at;
  idempotency_key = some idempotency_key;
  work_item_id = none;
}

module _ (options : WorkOptions) (now created_at : ℕ) where
  unfoldable pub schedule_session : String → QueueMethod WorkItem
  unfolding require_id
  schedule_session session_id = do
    require_id session_id "session_id"
    enqueue
        (request WorkKind.agent_session (some session_id) none none (session_key session_id)
          options)
        now created_at

  unfoldable pub schedule_goal : String → QueueMethod WorkItem
  unfolding require_id
  schedule_goal idempotency_key = do
    require_id idempotency_key "idempotency_key"
    enqueue (request WorkKind.agent_goal none none none idempotency_key options) now created_at

  unfoldable pub schedule_task : String → String → QueueMethod WorkItem
  unfolding require_id
  schedule_task session_id task_id = do
    require_id session_id "session_id"
    require_id task_id "task_id"
    enqueue
        (request WorkKind.task (some session_id) (some task_id) none (task_key session_id task_id)
          options)
        now created_at

  unfoldable pub schedule_action : String → String → String → QueueMethod WorkItem
  unfolding require_id
  schedule_action session_id task_id action_id = do
    require_id session_id "session_id"
    require_id task_id "task_id"
    require_id action_id "action_id"
    enqueue
        (request WorkKind.tool_action (some session_id) (some task_id) (some action_id)
          (action_key session_id task_id action_id) options)
        now created_at

-- `self._queue.cancel(item.work_item_id, reason=reason)` for each item.
unfoldable pub cancel_items : List WorkItem → String → ℕ → QueueMethod (List WorkItem)
cancel_items [] reason now = return []
cancel_items (item ∷ rest) reason now = do
  cancelled ← cancel item.work_item_id reason now
  others ← cancel_items rest reason now
  return (cancelled ∷ others)

-- `_can_cancel`: the statuses that it lists are the terminal ones.
abbrev pub can_cancel : WorkItem → Bool
can_cancel item = not (is_terminal item)

abbrev pub of_session : String → WorkItem → Bool
of_session session_id item = (item.session_id == some session_id) && can_cancel item

abbrev pub of_task : String → String → WorkItem → Bool
of_task session_id task_id item =
    (item.session_id == some session_id) && ((item.task_id == some task_id) && can_cancel item)

unfoldable pub cancel_session : String → String → ℕ → QueueMethod (List WorkItem)
unfolding cancel_items require_id
cancel_session session_id reason now = do
  require_id session_id "session_id"
  items ← gets (list_items none)
  cancel_items (filter (of_session session_id) items) reason now

unfoldable pub cancel_task : String → String → String → ℕ → QueueMethod (List WorkItem)
unfolding cancel_items require_id
cancel_task session_id task_id reason now = do
  require_id session_id "session_id"
  require_id task_id "task_id"
  items ← gets (list_items none)
  cancel_items (filter (of_task session_id task_id) items) reason now
