-- ===== src/Queue/Runs.antt =====
-- The runs of the work queue: every state that calls of its methods reach from the empty queue.
use universal_agent.Prelude.{ℕ, String, Bool, Option, List}
use universal_agent.Prelude.Dict.{get}
use universal_agent.Queue.Store
use universal_agent.Queue.Leasing
use universal_agent.Queue.Settling
use universal_agent.Queue.Store.{Queue, EnqueueRequest, empty_queue}
use universal_agent.Queue.Valid.{IsValid}
use universal_agent.Queue.Life.{Writes, Traced}
use universal_agent.Queue.Expiry.{expire-Keeps}
use mathlib.Core.Option.{none-ne-some}
use universal_agent.Queue.Steps.{heartbeat-Keeps, complete-Keeps, fail-Keeps}
use universal_agent.Queue.Members.{cancel-Keeps, prune_terminal-IsValid}
use universal_agent.Queue.Grants.{enqueue-Keeps, lease-Keeps}

-- One call of a method that changes the queue, with its arguments.
pub data Call : Type 0 where
  enqueue : EnqueueRequest → (now created_at : ℕ) → Call
  lease : (worker_id : String) (ttl now : ℕ) → Option (List String) → Call
  heartbeat : (lease_id worker_id : String) (ttl now : ℕ) → Call
  complete : (lease_id worker_id : String) (now : ℕ) → Call
  fail : (lease_id worker_id reason : String) (retry : Bool) (now : ℕ) → Call
  cancel : (work_item_id reason : String) (now : ℕ) → Call
  expire : (now : ℕ) → Call
  prune_terminal : (before : Option ℕ) → Call

-- The queue behind a call, whether the call returned or raised.
unfoldable pub behind : Call → Queue → Queue
behind (Call.enqueue request now created_at) q = (Store.enqueue request now created_at q).1
behind (Call.lease worker_id ttl now kinds) q = (Leasing.lease worker_id ttl now kinds q).1
behind (Call.heartbeat lease_id worker_id ttl now) q =
    (Settling.heartbeat lease_id worker_id ttl now q).1
behind (Call.complete lease_id worker_id now) q = (Settling.complete lease_id worker_id now q).1
behind (Call.fail lease_id worker_id reason retry now) q =
    (Settling.fail lease_id worker_id reason retry now q).1
behind (Call.cancel k reason now) q = (Settling.cancel k reason now q).1
behind (Call.expire now) q = (Leasing.expire now q).1
behind (Call.prune_terminal before) q = (Settling.prune_terminal before q).1

pub data Reaches (q : Queue) : Queue → Type 0 where
  start : Reaches q q
  call : {s : Queue} (c : Call) → Reaches q s → Reaches q (behind c s)

-- Only the removal of terminal items is more than the writes of the transition system.
abbrev pub IsPrune : Call → Type 0
IsPrune (Call.prune_terminal before) = Unit
IsPrune _ = ⊥

module _ (o q : Queue) (t : Traced o q) where
  pub behind-Traced : (c : Call) → ¬ IsPrune c → Traced o (behind c q)
  unfolding behind
  behind-Traced (Call.enqueue request now created_at) n = enqueue-Keeps request now created_at o q t
  behind-Traced (Call.lease worker_id ttl now kinds) n = lease-Keeps worker_id ttl now kinds o q t
  behind-Traced (Call.heartbeat lease_id worker_id ttl now) n =
      heartbeat-Keeps lease_id worker_id ttl now o q t
  behind-Traced (Call.complete lease_id worker_id now) n =
      complete-Keeps lease_id worker_id now o q t
  behind-Traced (Call.fail lease_id worker_id reason retry now) n =
      fail-Keeps lease_id worker_id reason retry now o q t
  behind-Traced (Call.cancel k reason now) n = cancel-Keeps k reason now o q t
  behind-Traced (Call.expire now) n = expire-Keeps now o q t
  behind-Traced (Call.prune_terminal before) n = absurd (n tt)

pub Traced-start : {q : Queue} → IsValid q → Traced q q
Traced-start v = record { valid = v; writes = Writes.start }

behind-IsValid : (c : Call) (q : Queue) → IsValid q → IsValid (behind c q)
behind-IsValid (Call.prune_terminal before) q v = unfold behind in prune_terminal-IsValid before q v
behind-IsValid (Call.expire now) q v =
    (behind-Traced q q (Traced-start v) (Call.expire now) (λ x. x)).valid
behind-IsValid c q v = (behind-Traced q q (Traced-start v) c (λ x. x)).valid

empty_queue-IsValid : IsValid empty_queue
empty_queue-IsValid = record {
  unique = tt;
  each = λ k item e. absurd (none-ne-some item (unfold get in e));
}

Reaches-IsValid : {q s : Queue} → IsValid q → Reaches q s → IsValid s
Reaches-IsValid v start = v
Reaches-IsValid v (call c r) = behind-IsValid c _ (Reaches-IsValid v r)

-- In every reachable queue each item stands under its id and passed the checks of its class, a
-- queued item has an attempt left, and a lease is named for its item and attempt and carries the
-- last fencing token of its item.
pub reachable-IsValid : {q : Queue} → Reaches empty_queue q → IsValid q
reachable-IsValid r = Reaches-IsValid empty_queue-IsValid r
