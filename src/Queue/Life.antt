-- ===== src/Queue/Life.antt =====
-- The life of a work item and the writes of the queue, as a transition system. What the methods do
-- to the queue, whether they return or raise, is a sequence of these writes.
use universal_agent.Prelude.{ℕ, ◌+◌, ◌<◌, ◌≡◌, String, true, false, none, some}
use universal_agent.Prelude.Dict.{get, put}
use universal_agent.Queue.Models.{WorkItem, WorkItemStatus, is_terminal}
use universal_agent.Queue.Store.{Queue, get_or}
use universal_agent.Queue.Valid.{IsValidItem, IsValid, put-IsValid}

-- One change of an item.
pub data Moves (x y : WorkItem) : Type 0 where
  grant :
      x.status ≡ WorkItemStatus.queued
      → y.status ≡ WorkItemStatus.leased
      → y.attempts ≡ x.attempts + 1
      → y.max_attempts ≡ x.max_attempts
      → Moves x y
  renew :
      x.status ≡ WorkItemStatus.leased
      → y.status ≡ WorkItemStatus.leased
      → y.attempts ≡ x.attempts
      → y.max_attempts ≡ x.max_attempts
      → Moves x y
  requeue :
      x.status ≡ WorkItemStatus.leased
      → y.status ≡ WorkItemStatus.queued
      → y.attempts ≡ x.attempts
      → y.max_attempts ≡ x.max_attempts
      → x.attempts < x.max_attempts
      → Moves x y
  finish :
      x.status ≡ WorkItemStatus.leased
      → is_terminal y ≡ true
      → y.attempts ≡ x.attempts
      → y.max_attempts ≡ x.max_attempts
      → Moves x y
  withdraw :
      is_terminal x ≡ false
      → y.status ≡ WorkItemStatus.cancelled
      → y.attempts ≡ x.attempts
      → y.max_attempts ≡ x.max_attempts
      → Moves x y

-- One write of a method, other than the removal of an item.
pub data Write (q : Queue) : Queue → Type 0 where
  count : (n : ℕ) → Write q (record q { sequence = n })
  fence :
      (k : String)
      → Write q (record q {
        fencing_sequences = put q.fencing_sequences k (get_or (get q.fencing_sequences k) 0 + 1);
      })
  add :
      (k : String) (y : WorkItem)
      → get q.items k ≡ none
      → y.status ≡ WorkItemStatus.queued
      → y.attempts ≡ 0
      → Write q (record q { items = put q.items k y })
  change :
      (k : String) (x y : WorkItem)
      → get q.items k ≡ some x
      → Moves x y
      → Write q (record q { items = put q.items k y })

pub data Writes (q : Queue) : Queue → Type 0 where
  start : Writes q q
  write : {s t : Queue} → Writes q s → Write s t → Writes q t

-- A valid state, with the writes that led to it.
pub record Traced (q s : Queue) : Type 0 where
  pub valid : IsValid s
  pub writes : Writes q s

module _ {q s : Queue} (t : Traced q s) (k : String) where
  pub change-Traced :
      (x y : WorkItem)
      → get s.items k ≡ some x
      → Moves x y
      → IsValidItem s.fencing_sequences k y
      → Traced q (record s { items = put s.items k y })
  change-Traced x y found moves i = record {
    valid = put-IsValid t.valid k y i;
    writes = write t.writes (change k x y found moves);
  }

  pub add-Traced :
      (y : WorkItem)
      → get s.items k ≡ none
      → y.status ≡ WorkItemStatus.queued
      → y.attempts ≡ 0
      → IsValidItem s.fencing_sequences k y
      → Traced q (record s { items = put s.items k y })
  add-Traced y absent waiting fresh i = record {
    valid = put-IsValid t.valid k y i;
    writes = write t.writes (add k y absent waiting fresh);
  }
