-- ===== src/Actions/Released.antt =====
-- An action gives its lock back.
use universal_agent.Prelude.{
  ◌≡◌, ◌>>◌, String, false, some, List, arith, Bool-cases, inl, inr, String_eq, Option_eq,
}
use text.Mathlib.TextEquality.{eq_iff}
use universal_agent.Prelude.Dict.{get-remove}
use universal_agent.Core.Models.{PendingAction, ToolCall}
use universal_agent.Coordination.Locks.{Locks, ResourceLock, ResourceLock_eq, is_owned_by, release}
use universal_agent.Actions.Models.{ActionExecutor, Machine}
use universal_agent.Actions.Identity.{is_pure}
use universal_agent.Actions.Resources.{acquired, emit, release_resource_lock}
use universal_agent.Actions.Invoke.{reconcile_required}
use universal_agent.Actions.Run.{Checked, reconcile_locked, run_effect, run_locked, run_pure}
use universal_agent.Actions.Frame.{fixed, emit-Leaves}

release-unowned :
    (lock : ResourceLock) (locks : Locks) → is_owned_by lock (release lock locks) ≡ false
unfolding release is_owned_by
release-unowned lock locks = ground (
  arith,
  get-remove locks lock.resource_key lock.resource_key,
  eq_iff lock.resource_key lock.resource_key,
)

module _ (c : ActionExecutor) (pending : PendingAction) (lock : ResourceLock) where
  abbrev IsFree : List ToolCall → List String → Locks → Type 0
  IsFree calls keys locks = is_owned_by lock locks ≡ false

  release_resource_lock-unowned :
      (m : Machine)
      → is_owned_by lock (release_resource_lock c pending (some lock) m).1.locks ≡ false
  unfolding release_resource_lock
  release_resource_lock-unowned m =
      emit-Leaves c (fixed IsFree) "ResourceLockReleased" pending
        (record m { locks = release lock m.locks }) (release-unowned lock m.locks)

-- Behind the body that runs or reconciles an action under its lock, the action does not own the lock,
-- whether the body returns, raises or is cancelled.
pub run_locked-unowned :
    (c : ActionExecutor) (x : Checked) (lock : ResourceLock) (m : Machine)
    → (is_owned_by lock (run_locked c x (acquired (some lock)) m).1.locks ≡ false)
      × (is_owned_by lock (reconcile_locked c x (acquired (some lock)) m).1.locks ≡ false)
unfolding run_locked reconcile_locked
run_locked-unowned c x lock m = (
  elim (Bool-cases (is_pure x.tool.side_effect)) [
    | inl e ↦ rw e (release_resource_lock-unowned c x.pending lock (run_pure c x m).1)
    | inr e ↦ rw e (release_resource_lock-unowned c x.pending lock (run_effect c x m).1)
  ],
  release_resource_lock-unowned c x.pending lock
      ((emit c "IdempotencyChecked" x.pending >> reconcile_required c x.pending x.capability x.tool)
        m).1,
)
