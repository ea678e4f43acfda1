-- ===== src/Tasks/Valid.antt =====
-- The tables of a task graph agree, and stay so where a task's status is written.
use universal_agent.Prelude.{
  ◌≡◌, refl, String, true, some, List, [], ◌∷◌, ok, arith, Mem, inl, inr, Option-cases, String_eq,
}
use text.Mathlib.TextEquality.{eq_iff}
use universal_agent.Prelude.Dict.{Dict, get, put, has, has-get, get-put}
use universal_agent.Core.Enums.{TaskStatus}
use universal_agent.Core.Models.{Task}
use universal_agent.Tasks.Manager.{TaskManager, item_at, with_status, set_current_status}
use universal_agent.Tasks.Loops.{all_tasks}

-- Every id of the order and the current id have a task.
pub record IsValid (m : TaskManager) : Type 0 where
  pub current_known : has m.tasks m.current_id ≡ true
  pub order_known : (id : String) → Mem id m.order → has m.tasks id ≡ true

pub has-put :
    {V : Type 0} (d : Dict V) (k j : String) (v : V) → has d j ≡ true → has (put d k v) j ≡ true
has-put d k j v h = ground (arith, has-get d j, has-get (put d k v) j, get-put d k j v, eq_iff k j)

pub has-some :
    {V : Type 0} (d : Dict V) (k : String) → has d k ≡ true → (v : V) × (get d k ≡ some v)
has-some d k h = elim (Option-cases (get d k)) [
  | inl e ↦ absurd (ground (arith, has-get d k))
  | inr found ↦ found
]

-- `all` returns where every id of the order has a task.
pub all_tasks-ok :
    (ids : List String) (tasks : Dict Task)
    → ((id : String) → Mem id ids → has tasks id ≡ true)
    → (ts : List Task) × (all_tasks ids tasks ≡ ok ts)
unfolding all_tasks item_at
all_tasks-ok [] tasks h = ([], refl)
all_tasks-ok (id ∷ rest) tasks h =
    let (t, e) = has-some tasks id (h id (inl refl)) in
    let (ts, others) = all_tasks-ok rest tasks (λ i m. h i (inr m)) in (t ∷ ts, ground arith)

pub put-IsValid :
    (m : TaskManager) (id : String) (t : Task)
    → IsValid m
    → IsValid (record m { tasks = put m.tasks id t })
put-IsValid m id t v = record {
  current_known = has-put m.tasks id m.current_id t v.current_known;
  order_known = λ i e. has-put m.tasks id i t (v.order_known i e);
}

pub set_current_status-IsValid :
    (status : TaskStatus) (m : TaskManager) → IsValid m → IsValid (set_current_status status m).1
set_current_status-IsValid status m v =
    let (t, e) = has-some m.tasks m.current_id v.current_known in
    let writes : (set_current_status status m).1
        ≡ record m { tasks = put m.tasks m.current_id (with_status t status) } =
      unfold set_current_status in ground arith in
    rw writes (put-IsValid m m.current_id (with_status t status) v)

pub set_current_status-ok :
    (status : TaskStatus) (m : TaskManager) → IsValid m → (set_current_status status m).0 ≡ ok tt
set_current_status-ok status m v =
    let (t, e) = has-some m.tasks m.current_id v.current_known in
    unfold set_current_status in ground arith
