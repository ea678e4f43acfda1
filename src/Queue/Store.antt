-- ===== src/Queue/Store.antt =====
-- `InMemoryWorkQueue` of src/universal_agent/distributed/queue_memory.py, its state, its views
-- and `enqueue`. The clock is an argument of each method.
use Prim.Native.String.{◌++◌}
use universal_agent.Prelude.{
  ℕ, ◌+◌, String, not, ◌&&◌, Option, none, some, List, [], ◌∷◌, find?, filter, if◌then◌else◌, ok,
  raised, Method, return, lift, gets, modify, require, ◌>>=◌, ◌>>◌, ◌==◌, String_eq, Option_eq,
}
use universal_agent.Prelude.Int.{ℤ}
use universal_agent.Prelude.Text.{is_empty_text, decimal}
use universal_agent.Prelude.Dict.{Dict, get, has, put, values}
use universal_agent.Core.Json.{JsonMapping}
use universal_agent.Queue.Models.{
  WorkItemStatus, WorkItemStatus_eq, QueueError, value_error, work_item_not_found, WorkItem,
  checked, is_terminal, sort_key_leb,
}

pub record Queue : Type 0 where
  pub items : Dict WorkItem
  pub sequence : ℕ
  pub fencing_sequences : Dict ℕ

abbrev pub empty_queue : Queue
empty_queue = record { items = []; sequence = 0; fencing_sequences = [] }

abbrev pub QueueMethod : Type 0 → Type 0
QueueMethod A = Method QueueError Queue A

-- The arguments of `enqueue`.
pub record EnqueueRequest : Type 0 where
  pub kind : String
  pub payload : Option JsonMapping
  pub session_id : Option String
  pub task_id : Option String
  pub action_id : Option String
  pub priority : ℤ
  pub max_attempts : ℕ
  pub available_at : Option ℕ
  pub idempotency_key : Option String
  pub work_item_id : Option String

abbrev pub get_or {ℓ} : {A : Type ℓ} → Option A → A → A
get_or none d = d
get_or (some a) d = a

-- `self._items[item.work_item_id] = item`
abbrev pub store : WorkItem → QueueMethod Unit
store item = modify (λ q. record q { items = put q.items item.work_item_id item })

unfoldable pub insert_sorted : WorkItem → List WorkItem → List WorkItem
insert_sorted a [] = a ∷ []
insert_sorted a (b ∷ bs) = if sort_key_leb a b then a ∷ b ∷ bs else b ∷ insert_sorted a bs

-- `sorted(items, key=_sort_key)`: stable.
unfoldable pub sort_items : List WorkItem → List WorkItem
unfolding insert_sorted
sort_items [] = []
sort_items (a ∷ rest) = insert_sorted a (sort_items rest)

-- `get`
unfoldable pub get_item : String → QueueMethod WorkItem
get_item work_item_id q = elim (get q.items work_item_id) [
  | none ↦ (raised (work_item_not_found ("work item not found: " ++ work_item_id)), q)
  | some item ↦ (ok item, q)
]

-- `list`
unfoldable pub list_items : Option WorkItemStatus → Queue → List WorkItem
unfolding sort_items
list_items none q = sort_items (values q.items)
list_items (some status) q = sort_items (filter (λ item. item.status == status) (values q.items))

-- `queued` and `leased`
abbrev pub queued_items : Queue → List WorkItem
queued_items = list_items (some WorkItemStatus.queued)

abbrev pub leased_items : Queue → List WorkItem
leased_items = list_items (some WorkItemStatus.leased)

-- `_find_idempotent`
unfoldable pub find_idempotent : String → Queue → Option WorkItem
find_idempotent key q =
    find? (λ item. item.idempotency_key == some key && not (is_terminal item)) (values q.items)

-- `_next_work_item_id`
unfoldable pub next_work_item_id : QueueMethod String
next_work_item_id q =
    let n = q.sequence + 1 in (ok ("work-" ++ decimal n), record q { sequence = n })

-- The item that `enqueue` builds.
unfoldable pub new_item : EnqueueRequest → ℕ → ℕ → String → WorkItem
new_item request now created_at work_item_id = record {
  work_item_id = work_item_id;
  kind = request.kind;
  payload = get_or request.payload JsonMapping.end;
  session_id = request.session_id;
  task_id = request.task_id;
  action_id = request.action_id;
  priority = request.priority;
  max_attempts = request.max_attempts;
  attempts = 0;
  status = WorkItemStatus.queued;
  created_at = created_at;
  available_at = get_or request.available_at now;
  lease = none;
  idempotency_key = request.idempotency_key;
  completed_at = none;
  failed_at = none;
  cancelled_at = none;
  last_error = none;
}

-- `work_item_id or self._next_work_item_id()`
unfoldable pub chosen_id : Option String → QueueMethod String
unfolding next_work_item_id
chosen_id none = next_work_item_id
chosen_id (some work_item_id) =
    if is_empty_text work_item_id then next_work_item_id else return work_item_id

-- The part of `enqueue` behind the search for the idempotency key.
unfoldable pub enqueue_new : EnqueueRequest → ℕ → ℕ → QueueMethod WorkItem
unfolding chosen_id new_item
enqueue_new request now created_at = do
  work_item_id ← chosen_id request.work_item_id
  item ← lift (checked (new_item request now created_at work_item_id))
  taken ← gets (λ q. has q.items item.work_item_id)
  lift (require (not taken) (value_error ("work item already exists: " ++ item.work_item_id)))
  store item
  return item

unfoldable pub enqueue : EnqueueRequest → ℕ → ℕ → QueueMethod WorkItem
unfolding enqueue_new
enqueue request now created_at q = elim request.idempotency_key [
  | none ↦ enqueue_new request now created_at q
  | some key ↦ elim (find_idempotent key q) [
    | some existing ↦ (ok existing, q)
    | none ↦ enqueue_new request now created_at q
  ]
]
