-- ===== src/Queue/Settling.antt =====
-- The methods of src/universal_agent/distributed/queue_memory.py that a lease's holder calls, and
-- the removal of items: `heartbeat`, `complete`, `fail`, `cancel` and `prune_terminal`.
use Prim.Native.String.{◌++◌}
use universal_agent.Prelude.{
  ℕ, String, Bool, not, ◌&&◌, Option, none, some, List, [], ◌∷◌, ltb, leb, filter, if◌then◌else◌,
  ok, return, throw, lift, modify, require, ◌>>=◌, ◌>>◌, ◌==◌, String_eq,
}
use universal_agent.Prelude.Text.{is_blank}
use universal_agent.Prelude.Dict.{put, remove, values}
use universal_agent.Queue.Models.{
  WorkItemStatus, value_error, lease_lost, WorkerLease, WorkItem, is_leased, checked, is_terminal,
  is_prunable_terminal,
}
use universal_agent.Queue.Store.{Queue, QueueMethod, store, get_item, sort_items}
use universal_agent.Queue.Leasing.{lease_deadline, expire}

-- The lease of an item that carries the lease of this id.
unfoldable pub lease_named : String → WorkItem → Option WorkerLease
lease_named lease_id item =
    if not (is_leased item.status)
    then none
    else elim item.lease [ none ↦ none | some l ↦ if l.lease_id == lease_id then some l else none ]

-- The loop of `_leased_item`, which stops at the first item with the lease.
unfoldable pub find_lease : String → List WorkItem → Option (WorkItem × WorkerLease)
unfolding lease_named
find_lease lease_id [] = none
find_lease lease_id (item ∷ rest) =
    let others = find_lease lease_id rest in
    elim (lease_named lease_id item) [ none ↦ others | some l ↦ some (item, l) ]

-- The checks of `_leased_item` on what its loop found.
unfoldable pub held_lease :
    String → String → ℕ → Option (WorkItem × WorkerLease) → QueueMethod (WorkItem × WorkerLease)
held_lease lease_id worker_id now none = throw (lease_lost ("lease not found: " ++ lease_id))
held_lease lease_id worker_id now (some (item, l)) =
    if not (l.worker_id == worker_id)
    then throw (lease_lost ("lease is owned by another worker: " ++ lease_id))
    else if leb l.lease_expires_at now
    then (do expire now; throw (lease_lost ("lease expired: " ++ lease_id)))
    else return (item, l)

-- `_leased_item`
unfoldable pub leased_item : String → String → ℕ → QueueMethod (WorkItem × WorkerLease)
unfolding find_lease held_lease
leased_item lease_id worker_id now q =
    held_lease lease_id worker_id now (find_lease lease_id (values q.items)) q

abbrev pub renewed_item : WorkItem → WorkerLease → ℕ → ℕ → WorkItem
renewed_item item l now deadline = record item {
  lease = some (record l { lease_expires_at = deadline; heartbeat_at = now });
}

unfoldable pub heartbeat : String → String → ℕ → ℕ → QueueMethod WorkItem
heartbeat lease_id worker_id ttl now = do
  held ← leased_item lease_id worker_id now
  deadline ← lift (lease_deadline now ttl)
  renewed ← lift (checked (renewed_item held.0 held.1 now deadline))
  store renewed
  return renewed

abbrev pub completed_item : WorkItem → ℕ → WorkItem
completed_item item now = record item {
  status = WorkItemStatus.completed;
  lease = none;
  completed_at = some now;
}

unfoldable pub complete : String → String → ℕ → QueueMethod WorkItem
complete lease_id worker_id now = do
  held ← leased_item lease_id worker_id now
  completed ← lift (checked (completed_item held.0 now))
  store completed
  return completed

-- What `fail` makes of the item.
unfoldable pub failed_item : WorkItem → String → Bool → ℕ → WorkItem
failed_item item reason retry now =
    if retry && ltb item.attempts item.max_attempts
    then record item {
      status = WorkItemStatus.queued;
      lease = none;
      available_at = now;
      last_error = some reason;
    }
    else record item {
      status = WorkItemStatus.failed;
      lease = none;
      failed_at = some now;
      last_error = some reason;
    }

unfoldable pub fail : String → String → String → Bool → ℕ → QueueMethod WorkItem
fail lease_id worker_id reason retry now = do
  lift (require (not (is_blank reason)) (value_error "failure reason must not be empty"))
  held ← leased_item lease_id worker_id now
  failed ← lift (checked (failed_item held.0 reason retry now))
  store failed
  return failed

abbrev pub cancelled_item : WorkItem → String → ℕ → WorkItem
cancelled_item item reason now = record item {
  status = WorkItemStatus.cancelled;
  lease = none;
  cancelled_at = some now;
  last_error = some reason;
}

-- The part of `cancel` behind the test for a terminal item, which stores under the key asked for.
unfoldable pub cancel_found : String → String → ℕ → WorkItem → QueueMethod WorkItem
cancel_found work_item_id reason now item = if is_terminal item then return item else do
  cancelled ← lift (checked (cancelled_item item reason now))
  modify (λ q. record q { items = put q.items work_item_id cancelled })
  return cancelled

unfoldable pub cancel : String → String → ℕ → QueueMethod WorkItem
unfolding cancel_found
cancel work_item_id reason now = do
  lift (require (not (is_blank reason)) (value_error "cancellation reason must not be empty"))
  item ← get_item work_item_id
  cancel_found work_item_id reason now item

-- `del self._items[id]` and `self._fencing_sequences.pop(id, None)` for each item.
unfoldable pub delete_each : List WorkItem → Queue → Queue
delete_each [] q = q
delete_each (item ∷ rest) q = delete_each rest (record q {
  items = remove q.items item.work_item_id;
  fencing_sequences = remove q.fencing_sequences item.work_item_id;
})

unfoldable pub prune_terminal : Option ℕ → QueueMethod (List WorkItem)
unfolding delete_each
prune_terminal before q =
    let pruned = sort_items (filter (is_prunable_terminal before) (values q.items)) in
    (ok pruned, delete_each pruned q)
