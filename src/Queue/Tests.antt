-- ===== src/Queue/Tests.antt =====
-- A small queue, what its methods do on it, and the theorems at it.
use Prim.Native.String.{◌++◌}
use text.Mathlib.TextEquality.{eq_iff}
use mathlib.Core.Bool.{false≢true}
use universal_agent.Prelude.{
  ◌≢◌, false, ℕ, ◌<◌, ◌≡◌, refl, String, true, false, none, some, ok, raised, arith, ◌⊎◌, Mem,
}
use universal_agent.Prelude.Int.{pos}
use universal_agent.Prelude.Text.{is_blank, decimal}
use universal_agent.Prelude.Dict.{get, put, has, values, remove}
use universal_agent.Core.Json.{JsonMapping}
use universal_agent.Queue.Models.{
  WorkItem, WorkItemStatus, WorkerLease, lease_lost, no_work_available, checked, is_terminal,
  sort_key_leb,
}
use universal_agent.Queue.Store.{
  Queue, EnqueueRequest, empty_queue, enqueue, sort_items, find_idempotent,
}
use universal_agent.Queue.Leasing.{
  lease, lease_name, expire, new_lease, next_leaseable, lease_chosen, expire_each, ended_lease,
  lease_deadline, normalize_accepted_kinds, next_fencing_token,
}
use universal_agent.Queue.Settling.{complete, fail, heartbeat, leased_item, failed_item}
use universal_agent.Queue.Valid.{IsValid}
use universal_agent.Queue.Runs.{Call, Reaches, behind, reachable-IsValid}
use universal_agent.Queue.Fencing.{Serves, Serves-terminal, lease-lease-token}
use universal_agent.Queue.Ownership.{stale_refused, intruder_refused}
use universal_agent.Queue.Order.{Chosen, Leaseable}
use universal_agent.Queue.Outcomes.{lease_outcome, leased_to}

abbrev request : EnqueueRequest
request = record {
  kind = "task";
  payload = none;
  session_id = none;
  task_id = none;
  action_id = none;
  priority = pos 5;
  max_attempts = 3;
  available_at = none;
  idempotency_key = some "once";
  work_item_id = none;
}

-- An item at time 10, leased at 20 for 30, taken back at 40 and leased again at 50.
abbrev queued : Queue
queued = behind (Call.enqueue request 10 10) empty_queue

abbrev first : Queue
first = behind (Call.lease "worker-a" 30 20 none) queued

abbrev returned : Queue
returned = behind (Call.fail "lease-work-1-1" "worker-a" "busy" true 40) first

abbrev second : Queue
second = behind (Call.lease "worker-b" 30 50 none) returned

abbrev done : Queue
done = behind (Call.complete "lease-work-1-2" "worker-b" 60) second

abbrev lease_1 : WorkerLease
lease_1 = record {
  lease_id = "lease-work-1-1";
  worker_id = "worker-a";
  leased_at = 20;
  lease_expires_at = 50;
  heartbeat_at = 20;
  fencing_token = 1;
}

abbrev lease_2 : WorkerLease
lease_2 = record {
  lease_id = "lease-work-1-2";
  worker_id = "worker-b";
  leased_at = 50;
  lease_expires_at = 80;
  heartbeat_at = 50;
  fencing_token = 2;
}

abbrev item_1 : WorkItem
item_1 = record {
  work_item_id = "work-1";
  kind = "task";
  payload = JsonMapping.end;
  session_id = none;
  task_id = none;
  action_id = none;
  priority = pos 5;
  max_attempts = 3;
  attempts = 1;
  status = WorkItemStatus.leased;
  created_at = 10;
  available_at = 10;
  lease = some lease_1;
  idempotency_key = some "once";
  completed_at = none;
  failed_at = none;
  cancelled_at = none;
  last_error = none;
}

abbrev item_2 : WorkItem
item_2 = record item_1 { attempts = 2; available_at = 40; lease = some lease_2 }

abbrev item_done : WorkItem
item_done = record item_2 {
  status = WorkItemStatus.completed;
  lease = none;
  completed_at = some 60;
}

program : Unit {0}
unfolding behind enqueue find_idempotent checked has get put values lease lease_chosen expire
    expire_each next_leaseable sort_items new_lease lease_name decimal complete fail leased_item
    failed_item is_terminal is_blank remove sort_key_leb lease_deadline normalize_accepted_kinds
    next_fencing_token ended_lease
program = tt

run_of_first : (lease "worker-a" 30 20 none queued).0 ≡ ok item_1
unfolding program
run_of_first = refl

run_of_second : (lease "worker-b" 30 50 none returned).0 ≡ ok item_2
unfolding program
run_of_second = refl

found_in_second : get second.items "work-1" ≡ some item_2
unfolding program
found_in_second = refl

found_in_done : get done.items "work-1" ≡ some item_done
unfolding program
found_in_done = refl

up_to_queued : Reaches empty_queue queued
up_to_queued = Reaches.call (Call.enqueue request 10 10) Reaches.start

up_to_second : Reaches empty_queue second
up_to_second = Reaches.call (Call.lease "worker-b" 30 50 none) (
    Reaches.call (Call.fail "lease-work-1-1" "worker-a" "busy" true 40)
      (Reaches.call (Call.lease "worker-a" 30 20 none) up_to_queued))

up_to_done : Reaches empty_queue done
up_to_done = Reaches.call (Call.complete "lease-work-1-2" "worker-b" 60) up_to_second

reachable-IsValid_example : IsValid second
reachable-IsValid_example = reachable-IsValid up_to_second

between : Serves (lease "worker-a" 30 20 none queued).1 returned
unfolding behind
between = Serves.call (Call.fail "lease-work-1-1" "worker-a" "busy" true 40) (λ x. x) Serves.start

lease-lease-token_example : lease_1.fencing_token < lease_2.fencing_token
lease-lease-token_example =
    lease-lease-token queued returned "worker-a" "worker-b" 30 30 20 50 none none item_1 item_2
      lease_1 lease_2 (reachable-IsValid up_to_queued) run_of_first refl between run_of_second refl
      refl

Serves-terminal_example :
    get (behind (Call.cancel "work-1" "late" 70) done).items "work-1" ≡ some item_done
Serves-terminal_example =
    Serves-terminal done (behind (Call.cancel "work-1" "late" 70) done) "work-1" item_done
      (reachable-IsValid up_to_done)
      (Serves.call (Call.cancel "work-1" "late" 70) (λ x. x) Serves.start) found_in_done
      (unfold is_terminal in refl)

one_ne_two : ◌≢◌ {A = ℕ} 1 2
one_ne_two = omega arith

a_ne_b : ◌≢◌ {A = String} "worker-b" "worker-a"
a_ne_b h = false≢true ((eq_iff "worker-b" "worker-a").1 h)

spoken : is_blank "late" ≡ false
unfolding is_blank
spoken = refl

stale_refused_example :
    (complete (lease_name "work-1" 1) "worker-a" 60 second
      ≡ (raised (lease_lost ("lease not found: " ++ lease_name "work-1" 1)), second))
    × (fail (lease_name "work-1" 1) "worker-a" "late" true 60 second
        ≡ (raised (lease_lost ("lease not found: " ++ lease_name "work-1" 1)), second))
    × (heartbeat (lease_name "work-1" 1) "worker-a" 30 60 second
        ≡ (raised (lease_lost ("lease not found: " ++ lease_name "work-1" 1)), second))
stale_refused_example =
    stale_refused second (reachable-IsValid up_to_second) "work-1" item_2 found_in_second 1
      "worker-a" "late" true 30 60 one_ne_two spoken

intruder_refused_example :
    (message : String) × ((complete "lease-work-1-2" "worker-a" 60 second
        ≡ (raised (lease_lost message), second))
      × (fail "lease-work-1-2" "worker-a" "late" true 60 second
          ≡ (raised (lease_lost message), second))
      × (heartbeat "lease-work-1-2" "worker-a" 30 60 second
          ≡ (raised (lease_lost message), second)))
intruder_refused_example =
    intruder_refused second (reachable-IsValid up_to_second) "work-1" item_2 found_in_second lease_2
      "worker-a" "late" true 30 60 refl a_ne_b spoken

lease_outcome_example :
    ((item : WorkItem) × Chosen 20 none (expire 20 queued).1 item
      × ((lease "worker-a" 30 20 none queued).0
          ≡ ok (leased_to "worker-a" 30 20 (expire 20 queued).1 item)))
    ⊎ ((lease "worker-a" 30 20 none queued).0 ≡ raised (no_work_available "no work available"))
      × ((item : WorkItem)
          → Mem item (values (expire 20 queued).1.items)
          → ¬ (Leaseable 20 none item))
lease_outcome_example =
    lease_outcome "worker-a" 30 20 none queued (reachable-IsValid up_to_queued) (omega arith) tt
