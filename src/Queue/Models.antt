-- ===== src/Queue/Models.antt =====
-- src/universal_agent/distributed/queue_models.py. Times are microseconds, and a priority is an
-- integer. The checks of `__post_init__` are `checked`, made by every construction and `replace`.
use universal_agent.Prelude.{
  ℕ, ◌≡◌, String, Bool, true, false, not, ◌&&◌, Option, none, some, ltb, leb, if◌then◌else◌, Result,
  ok, raised, Eq, eq_of_code, arith,
}
use universal_agent.Prelude.Int.{ℤ, leb_ℤ}
use universal_agent.Prelude.Text.{is_blank, text_leb}
use universal_agent.Core.Json.{JsonMapping}

pub data WorkItemStatus : Type 0 where
  queued leased completed failed cancelled : WorkItemStatus

-- Identity of the members.
abbrev pub status_code : WorkItemStatus → ℕ
status_code WorkItemStatus.queued = 0
status_code WorkItemStatus.leased = 1
status_code WorkItemStatus.completed = 2
status_code WorkItemStatus.failed = 3
status_code WorkItemStatus.cancelled = 4

pub status_code_injective : (a b : WorkItemStatus) → status_code a ≡ status_code b → a ≡ b
status_code_injective a b h = ground arith

instance abbrev pub WorkItemStatus_eq : Eq WorkItemStatus
WorkItemStatus_eq = eq_of_code status_code status_code_injective

-- `ValueError`, `NoWorkAvailable`, `WorkItemNotFoundError` and `LeaseLostError`, with the message.
pub data QueueError : Type 0 where
  value_error no_work_available work_item_not_found lease_lost : String → QueueError

pub record WorkerLease : Type 0 where
  pub lease_id : String
  pub worker_id : String
  pub leased_at : ℕ
  pub lease_expires_at : ℕ
  pub heartbeat_at : ℕ
  pub fencing_token : ℕ

pub record WorkItem : Type 0 where
  pub work_item_id : String
  pub kind : String
  pub payload : JsonMapping
  pub session_id : Option String
  pub task_id : Option String
  pub action_id : Option String
  pub priority : ℤ
  pub max_attempts : ℕ
  pub attempts : ℕ
  pub status : WorkItemStatus
  pub created_at : ℕ
  pub available_at : ℕ
  pub lease : Option WorkerLease
  pub idempotency_key : Option String
  pub completed_at : Option ℕ
  pub failed_at : Option ℕ
  pub cancelled_at : Option ℕ
  pub last_error : Option String

abbrev pub is_queued : WorkItemStatus → Bool
is_queued WorkItemStatus.queued = true
is_queued _ = false

abbrev pub is_leased : WorkItemStatus → Bool
is_leased WorkItemStatus.leased = true
is_leased _ = false

abbrev pub has_lease : Option WorkerLease → Bool
has_lease none = false
has_lease (some l) = true

unfoldable pub checked : WorkItem → Result QueueError WorkItem
checked item =
    if is_blank item.work_item_id
    then raised (value_error "work_item_id must not be empty")
    else if is_blank item.kind
    then raised (value_error "work item kind must not be empty")
    else if leb item.max_attempts 0
    then raised (value_error "max_attempts must be positive")
    else if ltb item.max_attempts item.attempts
    then raised (value_error "attempts must not exceed max_attempts")
    else if is_leased item.status && not (has_lease item.lease)
    then raised (value_error "leased work items require a lease")
    else if not (is_leased item.status) && has_lease item.lease
    then raised (value_error "only leased work items may carry a lease")
    else ok item

-- `_is_terminal`
unfoldable pub is_terminal : WorkItem → Bool
is_terminal item = elim item.status [
  | WorkItemStatus.completed ↦ true
  | WorkItemStatus.failed ↦ true
  | WorkItemStatus.cancelled ↦ true
  | _ ↦ false
]

-- `_terminal_at`
unfoldable pub terminal_at : WorkItem → Option ℕ
terminal_at item = elim item.status [
  | WorkItemStatus.completed ↦ item.completed_at
  | WorkItemStatus.failed ↦ item.failed_at
  | WorkItemStatus.cancelled ↦ item.cancelled_at
  | _ ↦ none
]

-- `_is_prunable_terminal`
unfoldable pub is_prunable_terminal : Option ℕ → WorkItem → Bool
unfolding is_terminal terminal_at
is_prunable_terminal before item = if not (is_terminal item) then false else elim before [
  | none ↦ true
  | some limit ↦ elim (terminal_at item) [ none ↦ false | some t ↦ leb t limit ]
]

-- `_sort_key(a) <= _sort_key(b)`: the higher priority first, then the earlier item, then by id.
unfoldable pub sort_key_leb : WorkItem → WorkItem → Bool
sort_key_leb a b =
    if not (leb_ℤ b.priority a.priority)
    then false
    else if not (leb_ℤ a.priority b.priority)
    then true
    else if ltb a.available_at b.available_at
    then true
    else if ltb b.available_at a.available_at
    then false
    else text_leb a.work_item_id b.work_item_id
