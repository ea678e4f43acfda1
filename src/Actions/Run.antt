-- ===== src/Actions/Run.antt =====
-- The parts of `ActionExecutor.execute` that lock the resource, src/universal_agent/runtime/actions.py.
use universal_agent.Prelude.{
  String, Bool, not, ◌&&◌, none, some, if◌then◌else◌, return, modify, ◌>>=◌, ◌>>◌, String_eq,
  finally, on_raise,
}
use universal_agent.Core.Models.{CapabilityDefinition, PendingAction, PolicyResult, ToolDefinition}
use universal_agent.Actions.Models.{
  ActionOutcome, ActionMethod, ActionExecutor, rejected, confirmation_required,
}
use universal_agent.Actions.Identity.{is_pure, remember_approval}
use universal_agent.Actions.Resources.{
  Acquired, acquired, refused, acquire_resource_lock, emit, forget_key, on_agent_state, record_key,
  release_resource_lock, with_pending,
}
use universal_agent.Actions.Invoke.{is_observed_success, invoke, reconcile_required}

-- The local variables of `execute` once the policy has spoken: `confirmed` is `confirmed_effective`,
-- and `restricted` that the read-only rule gave the verdict.
pub record Checked : Type 0 where
  pub pending : PendingAction
  pub capability : CapabilityDefinition
  pub tool : ToolDefinition
  pub fingerprint : String
  pub confirmed : Bool
  pub restricted : Bool
  pub verdict : PolicyResult

module _ (c : ActionExecutor) where
  -- The approval that is remembered behind a success.
  abbrev pub remember_success : Checked → ActionOutcome → ActionMethod Unit
  remember_success x outcome =
      if x.confirmed && (not x.restricted && is_observed_success outcome)
      then on_agent_state (remember_approval x.fingerprint)
      else return tt

  -- The body of the `try` for a tool without side effects.
  unfoldable pub run_pure : Checked → ActionMethod ActionOutcome
  run_pure x = do outcome ← invoke c x.pending; remember_success x outcome; return outcome

  -- The record of a failed action is forgotten.
  abbrev pub forget_failure : Checked → ActionOutcome → ActionMethod Unit
  forget_failure x outcome =
      if not (is_observed_success outcome)
      then modify (forget_key x.pending.idempotency_key)
      else return tt

  unfoldable pub run_fresh : Checked → ActionMethod ActionOutcome
  run_fresh x = do
    outcome ← invoke c x.pending
    forget_failure x outcome
    remember_success x outcome
    return outcome

  abbrev pub fresh_or_reconciled : Checked → Bool → ActionMethod ActionOutcome
  fresh_or_reconciled x recorded =
      if not recorded then reconcile_required c x.pending x.capability x.tool else run_fresh x

  -- The body of the `try` for any other tool, behind `record`.
  unfoldable pub run_recorded : Checked → Bool → ActionMethod ActionOutcome
  unfolding run_fresh
  run_recorded x recorded = do emit c "IdempotencyChecked" x.pending; fresh_or_reconciled x recorded

  -- The record is forgotten again if the body raises.
  unfoldable pub run_effect : Checked → ActionMethod ActionOutcome
  unfolding run_recorded
  run_effect x = do
    recorded ← record_key x.pending.idempotency_key
    on_raise (run_recorded x recorded)
        (if recorded then forget_key x.pending.idempotency_key else λ m. m)

  -- The `try` with the lock that it releases.
  unfoldable pub run_locked : Checked → Acquired → ActionMethod ActionOutcome
  unfolding run_pure run_effect
  run_locked x (refused code reason) = return (rejected code reason)
  run_locked x (acquired lock) =
      finally (if is_pure x.tool.side_effect then run_pure x else run_effect x)
        (release_resource_lock c x.pending lock)

  -- An action that may run.
  unfoldable pub run_action : Checked → ActionMethod ActionOutcome
  unfolding run_locked
  run_action x = do
    on_agent_state (with_pending none)
    lock ← acquire_resource_lock c x.pending
    run_locked x lock

  -- An action that waits for a confirmation, with the resource locked.
  unfoldable pub confirm_locked : Checked → Acquired → ActionMethod ActionOutcome
  confirm_locked x (refused code reason) = return (rejected code reason)
  confirm_locked x (acquired lock) = do
    on_agent_state (with_pending (some x.pending))
    return (confirmation_required x.pending x.verdict.reason)

  unfoldable pub await_confirmation : Checked → ActionMethod ActionOutcome
  unfolding confirm_locked
  await_confirmation x = do lock ← acquire_resource_lock c x.pending; confirm_locked x lock

  -- An action that has a record already.
  unfoldable pub reconcile_locked : Checked → Acquired → ActionMethod ActionOutcome
  reconcile_locked x (refused code reason) = return (rejected code reason)
  reconcile_locked x (acquired lock) =
      finally
        (emit c "IdempotencyChecked" x.pending
          >> reconcile_required c x.pending x.capability x.tool)
        (release_resource_lock c x.pending lock)

  unfoldable pub reconcile_seen : Checked → ActionMethod ActionOutcome
  unfolding reconcile_locked
  reconcile_seen x = do
    on_agent_state (with_pending none)
    lock ← acquire_resource_lock c x.pending
    reconcile_locked x lock
