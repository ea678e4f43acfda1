-- ===== src/Queue/Leasing.antt =====
-- Leases of src/universal_agent/distributed/queue_memory.py: `expire` and `lease`. A time to live
-- is a count of microseconds.
use Prim.Native.String.{◌++◌}
use universal_agent.Prelude.{
  ℕ, ◌+◌, String, Bool, true, not, ◌&&◌, Option, none, some, List, [], ◌∷◌, ltb, leb, map, any,
  filter, contains, if◌then◌else◌, Result, ok, raised, return, throw, lift, gets, ◌>>=◌, ◌>>◌,
  String_eq,
}
use universal_agent.Prelude.Text.{is_blank, strip, decimal}
use universal_agent.Prelude.Dict.{get, put, values}
use universal_agent.Queue.Models.{
  WorkItemStatus, QueueError, value_error, no_work_available, WorkerLease, WorkItem, is_queued,
  is_leased, checked,
}
use universal_agent.Queue.Store.{Queue, QueueMethod, get_or, store, sort_items}

-- The id of the lease for the given attempt at an item.
unfoldable pub lease_name : String → ℕ → String
lease_name work_item_id attempt = "lease-" ++ (work_item_id ++ ("-" ++ decimal attempt))

-- `_next_lease_id`
unfoldable pub next_lease_id : WorkItem → String
next_lease_id item = lease_name item.work_item_id (item.attempts + 1)

-- `_next_fencing_token`
unfoldable pub next_fencing_token : String → QueueMethod ℕ
next_fencing_token work_item_id q =
    let next = get_or (get q.fencing_sequences work_item_id) 0 + 1 in
    (ok next, record q { fencing_sequences = put q.fencing_sequences work_item_id next })

-- `_restore_fencing_sequence`
unfoldable pub restore_fencing_sequence : String → ℕ → Queue → Queue
restore_fencing_sequence work_item_id token q =
    if ltb (get_or (get q.fencing_sequences work_item_id) 0) token
    then record q { fencing_sequences = put q.fencing_sequences work_item_id token }
    else q

-- `_lease_deadline`
unfoldable pub lease_deadline : ℕ → ℕ → Result QueueError ℕ
lease_deadline now ttl =
    if ltb 0 ttl then ok (now + ttl) else raised (value_error "ttl_seconds must be positive")

-- `_normalize_accepted_kinds`
unfoldable pub normalize_accepted_kinds :
    Option (List String) → Result QueueError (Option (List String))
normalize_accepted_kinds none = ok none
normalize_accepted_kinds (some kinds) =
    if any is_blank kinds
    then raised (value_error "accepted_kinds must not include empty kinds")
    else ok (some (map strip kinds))

-- What becomes of an item whose lease has ended at `now` without success.
unfoldable pub expired_item : ℕ → WorkItem → WorkerLease → WorkItem
expired_item now item lease =
    if ltb item.attempts item.max_attempts
    then record item {
      status = WorkItemStatus.queued;
      lease = none;
      available_at = now;
      last_error = some ("lease expired: " ++ lease.lease_id);
    }
    else record item {
      status = WorkItemStatus.failed;
      lease = none;
      failed_at = some now;
      last_error = some ("lease expired: " ++ lease.lease_id);
    }

-- The lease of an item that `expire` ends.
unfoldable pub ended_lease : ℕ → WorkItem → Option WorkerLease
ended_lease now item = if not (is_leased item.status) then none else elim item.lease [
  | none ↦ none
  | some lease ↦ if ltb now lease.lease_expires_at then none else some lease
]

-- The body of the loop of `expire` over the items that were there at its start.
unfoldable pub expire_each : ℕ → List WorkItem → QueueMethod (List WorkItem)
expire_each now [] = return []
expire_each now (item ∷ rest) =
    let others = expire_each now rest in
    elim (ended_lease now item) [
      | none ↦ others
      | some lease ↦ do
        replacement ← lift (checked (expired_item now item lease))
        store replacement
        expired ← others
        return (replacement ∷ expired)
    ]

unfoldable pub expire : ℕ → QueueMethod (List WorkItem)
expire now q = expire_each now (values q.items) q

-- `_next_leaseable`
abbrev pub is_leaseable : ℕ → Option (List String) → WorkItem → Bool
is_leaseable now accepted_kinds item =
    is_queued item.status
    && leb item.available_at now
    && (elim accepted_kinds [ none ↦ true | some kinds ↦ contains kinds item.kind ])

unfoldable pub next_leaseable : ℕ → Option (List String) → Queue → Option WorkItem
next_leaseable now accepted_kinds q =
    elim (sort_items (filter (is_leaseable now accepted_kinds) (values q.items))) [
      | [] ↦ none
      | item ∷ _ ↦ some item
    ]

abbrev pub leased_item_of : WorkItem → WorkerLease → WorkItem
leased_item_of item lease = record item {
  status = WorkItemStatus.leased;
  attempts = item.attempts + 1;
  lease = some lease;
  last_error = none;
}

-- The lease that `lease` builds.
unfoldable pub new_lease : String → ℕ → ℕ → ℕ → WorkItem → WorkerLease
unfolding next_lease_id
new_lease worker_id now deadline token item = record {
  lease_id = next_lease_id item;
  worker_id = worker_id;
  leased_at = now;
  lease_expires_at = deadline;
  heartbeat_at = now;
  fencing_token = token;
}

-- The part of `lease` behind the choice of the item.
unfoldable pub lease_chosen : String → ℕ → ℕ → WorkItem → QueueMethod WorkItem
lease_chosen worker_id ttl now item = do
  deadline ← lift (lease_deadline now ttl)
  token ← next_fencing_token item.work_item_id
  leased ← lift (checked (leased_item_of item (new_lease worker_id now deadline token item)))
  store leased
  return leased

unfoldable pub lease : String → ℕ → ℕ → Option (List String) → QueueMethod WorkItem
lease worker_id ttl now accepted_kinds = do
  kind_filter ← lift (normalize_accepted_kinds accepted_kinds)
  expire now
  found ← gets (next_leaseable now kind_filter)
  elim found [
    | none ↦ throw (no_work_available "no work available")
    | some item ↦ lease_chosen worker_id ttl now item
  ]
