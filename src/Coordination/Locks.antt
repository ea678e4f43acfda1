-- ===== src/Coordination/Locks.antt =====
-- `ResourceLockRegistry` of src/universal_agent/coordination/locks.py.
use Prim.Native.String.{◌++◌}
use universal_agent.Prelude.{
  ◌≡◌, ◌↔◌, String, Bool, true, ◌&&◌, none, some, List, [], ◌∷◌, if◌then◌else◌, ok, raised, Method,
  Eq, ◌==◌, String_eq, Option_eq, arith,
}
use text.Mathlib.TextEquality.{eq_iff}
use universal_agent.Prelude.Text.{is_blank, text_leb}
use universal_agent.Prelude.Dict.{Dict, get, put, remove}

-- `ResourceConflictError` and `ResourceVersionConflictError` with their messages, and `ValueError`.
pub data ResourceError : Type 0 where
  resource_conflict version_conflict value_error : String → ResourceError

pub record ResourceLock : Type 0 where
  pub resource_key : String
  pub action_id : String
  pub session_id : String
  pub task_id : String

abbrev pub same_lock : ResourceLock → ResourceLock → Bool
same_lock a b =
    (a.resource_key == b.resource_key)
    && ((a.action_id == b.action_id)
        && ((a.session_id == b.session_id) && (a.task_id == b.task_id)))

pub same_lock_iff : (a b : ResourceLock) → (same_lock a b ≡ true) ↔ (a ≡ b)
same_lock_iff a b = ground (
  arith,
  eq_iff a.resource_key b.resource_key,
  eq_iff a.action_id b.action_id,
  eq_iff a.session_id b.session_id,
  eq_iff a.task_id b.task_id,
)

instance abbrev pub ResourceLock_eq : Eq ResourceLock
ResourceLock_eq = record { beq = same_lock; beq_iff = same_lock_iff }

abbrev pub Locks : Type 0
Locks = Dict ResourceLock

-- The error of `acquire` for a resource that `existing` locks.
abbrev pub conflict : ResourceLock → ResourceLock → ResourceError
conflict requested existing = resource_conflict (
    "resource is locked: "
    ++ (requested.resource_key
        ++ (" by action " ++ (existing.action_id ++ (" in session " ++ existing.session_id)))))

-- `acquire`, for the lock that the arguments describe.
unfoldable pub acquire : ResourceLock → Method ResourceError Locks ResourceLock
acquire requested locks =
    if is_blank requested.resource_key
    then (raised (value_error "resource_key must not be empty"), locks)
    else elim (get locks requested.resource_key) [
      | none ↦ (ok requested, put locks requested.resource_key requested)
      | some existing ↦
          if existing == requested
          then (ok existing, locks)
          else (raised (conflict requested existing), locks)
    ]

unfoldable pub is_owned_by : ResourceLock → Locks → Bool
is_owned_by lock locks = get locks lock.resource_key == some lock

unfoldable pub release : ResourceLock → Locks → Locks
release lock locks =
    let rest = remove locks lock.resource_key in
    if get locks lock.resource_key == some lock then rest else locks

-- `sorted(self._locks)`, by insertion into the sorted entries.
unfoldable pub insert_entry :
    String × ResourceLock → List (String × ResourceLock) → List (String × ResourceLock)
insert_entry e [] = e ∷ []
insert_entry (k, l) ((j, x) ∷ rest) =
    let others = insert_entry (k, l) rest in
    if text_leb k j then (k, l) ∷ (j, x) ∷ rest else (j, x) ∷ others

unfoldable pub active : Locks → List ResourceLock
unfolding insert_entry
active locks = locks_of (sort locks)
  where
    sort : Locks → Locks
    sort [] = []
    sort (e ∷ rest) = insert_entry e (sort rest)

    locks_of : Locks → List ResourceLock
    locks_of [] = []
    locks_of ((k, l) ∷ rest) = l ∷ locks_of rest
