-- ===== src/Tasks/Ready.antt =====
-- Which task `start_next` starts.
use universal_agent.Prelude.{
  ◌≡◌, refl, ap, ◌∙◌, String, Bool, true, false, none, some, List, [], ◌∷◌, ok, raised, arith, Mem,
  inl, inr, Result,
}
use universal_agent.Prelude.Dict.{Dict, get}
use universal_agent.Core.Enums.{TaskStatus}
use universal_agent.Core.Models.{Task}
use universal_agent.Tasks.Manager.{TaskManager, TaskError, item_at, with_status}
use universal_agent.Tasks.Loops.{all_completed, is_ready, started, start_first, start_next}

-- The task `id` may start: it is pending, and every task that it depends on is completed.
pub record MayStart (m : TaskManager) (id : String) (task : Task) : Type 0 where
  pub here : get m.tasks id ≡ some task
  pub waiting : task.status ≡ TaskStatus.pending
  pub dependencies : List String
  pub listed : get m.dependencies id ≡ some dependencies
  pub completed :
      (d : String)
      → Mem d dependencies
      → (t : Task) × (get m.tasks d ≡ some t) × (t.status ≡ TaskStatus.completed)

-- What the loop of `start_next` does with the ids that it visits.
pub record Starts (ids : List String) (m : TaskManager) (t : Task) : Type 0 where
  pub id : String
  pub task : Task
  pub member : Mem id ids
  pub ready : is_ready m id ≡ ok (true, task)
  pub result : t ≡ with_status task TaskStatus.running
  pub state : (start_first ids m).1 ≡ started m id task

start_first-none :
    (ids : List String) (m : TaskManager)
    → (start_first ids m).0 ≡ ok none
    → ((start_first ids m).1 ≡ m)
      × ((id : String) → Mem id ids → (task : Task) × (is_ready m id ≡ ok (false, task)))
start_first-none [] m h = (unfold start_first in refl, λ id e. absurd e)
start_first-none (i ∷ rest) m h = visit (start_first-none rest m) (is_ready m i) refl
  where
    visit :
        ((start_first rest m).0 ≡ ok none
          → ((start_first rest m).1 ≡ m)
            × ((id : String) → Mem id rest → (task : Task) × (is_ready m id ≡ ok (false, task))))
        → (r : Result TaskError (Bool × Task)) → is_ready m i ≡ r
        → ((start_first (i ∷ rest) m).1 ≡ m)
          × ((id : String) → Mem id (i ∷ rest) → (task : Task) × (is_ready m id ≡ ok (false, task)))
    visit later (raised x) e = absurd (unfold start_first in ground arith)
    visit later (ok (true, task)) e = absurd (unfold start_first in ground arith)
    visit later (ok (false, task)) e =
        let (same, none_ready) = later (unfold start_first in ground arith) in
        let step : (start_first (i ∷ rest) m).1 ≡ (start_first rest m).1 =
          unfold start_first in ground arith in
        (
          step ∙ same,
          λ id m'. elim m' [
            | inl here ↦ (task, ap (is_ready m) here ∙ e)
            | inr there ↦ none_ready id there
          ],
        )

all_completed-intro :
    (tasks : Dict Task) (items : List String)
    → ((d : String)
        → Mem d items
        → (t : Task) × (get tasks d ≡ some t) × (t.status ≡ TaskStatus.completed))
    → all_completed tasks items ≡ ok true
unfolding all_completed item_at
all_completed-intro tasks [] h = refl
all_completed-intro tasks (item ∷ rest) h =
    let (t, e, done) = h item (inl refl) in
    let others = all_completed-intro tasks rest (λ d m. h d (inr m)) in ground arith

is_ready-true :
    (m : TaskManager) (id : String) (task t : Task) (ds : List String) (b : Bool)
    → get m.tasks id ≡ some task
    → task.status ≡ TaskStatus.pending
    → get m.dependencies id ≡ some ds
    → all_completed m.tasks ds ≡ ok true
    → is_ready m id ≡ ok (b, t)
    → b ≡ true
unfolding is_ready item_at
is_ready-true m id task t ds b here waiting listed completed h = ground arith

MayStart-is_ready :
    (m : TaskManager) (id : String) (task t : Task) (b : Bool)
    → MayStart m id task
    → is_ready m id ≡ ok (b, t)
    → b ≡ true
MayStart-is_ready m id task t b may h =
    is_ready-true m id task t may.dependencies b may.here may.waiting may.listed
      (all_completed-intro m.tasks may.dependencies may.completed) h

-- Where `start_next` returns none, it changed nothing and no task of the order may start.
pub start_next-none :
    (m : TaskManager)
    → (start_next m).0 ≡ ok none
    → ((start_next m).1 ≡ m) × ((id : String) (task : Task) → Mem id m.order → ¬ MayStart m id task)
start_next-none m h =
    let (same, idle) = start_first-none m.order m (unfold start_next in h) in
    (
      (unfold start_next in same),
      λ id task member may.
          let (t, e) = idle id member in absurd (cc (MayStart-is_ready m id task t false may e)),
    )
