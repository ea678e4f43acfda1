-- ===== src/Actions/Once.antt =====
-- How often an action calls its tool.
use universal_agent.Prelude.{
  ◌≡◌, ap, ◌⊎◌, String, Bool, true, false, not, ◌&&◌, Option, none, some, List, ◌∷◌, Result, ok,
  raised, Bool-cases, inl, inr, Keeps, then-Keeps, written-keeps, bind-keeps, contains, String_eq,
  return, ◌>>◌, if◌then◌else◌,
}
use universal_agent.Prelude.Text.{is_empty_text}
use universal_agent.Core.Enums.{ErrorCode}
use universal_agent.Core.Models.{PendingAction, ToolCall}
use universal_agent.Coordination.Locks.{
  Locks, ResourceError, ResourceLock, acquire, is_owned_by, resource_conflict, version_conflict,
  value_error,
}
use universal_agent.Actions.Models.{ActionExecutor, ActionMethod, ActionOutcome, Machine}
use universal_agent.Actions.Identity.{tool_call, is_pure}
use universal_agent.Actions.Resources.{
  Acquired, acquired, refused, acquire_answer, acquire_lock, acquire_resource_lock, announce_lock,
  emit, forget_key, lock_of, observe_result, on_agent_state, record_key, release_resource_lock,
  with_pending,
}
use universal_agent.Actions.Invoke.{
  call_tool, find_tool, invoke, reconcile_required, update_if_succeeded, is_observed_success,
}
use universal_agent.Actions.Run.{
  Checked, await_confirmation, confirm_locked, forget_failure, fresh_or_reconciled,
  reconcile_locked, reconcile_seen, remember_success, run_action, run_effect, run_fresh, run_locked,
  run_pure, run_recorded,
}
use universal_agent.Actions.Frame.{
  fixed, Fixed, emit-Leaves, noted-Leaves, emit_then-Leaves, reconcile_required-Leaves,
  taken-Leaves,
}

-- The steps that change the locks, for a property of the calls and the keys.
module _ (c : ActionExecutor) (R : List ToolCall → List String → Type 0) where
  abbrev S : List ToolCall → List String → Locks → Type 0
  S calls keys locks = R calls keys

  abbrev pub Spares : {A : Type 0} → ActionMethod A → Type 0
  Spares m = Keeps (Fixed S) m

  announce_lock-Spares : (pending : PendingAction) (b : Bool) → Spares (announce_lock c pending b)
  announce_lock-Spares pending true m p = p
  announce_lock-Spares pending false m p =
      emit-Leaves c (fixed S) "ResourceLockAcquired" pending m p

  acquire_answer-Spares :
      (pending : PendingAction) (b : Bool) (r : Result ResourceError ResourceLock)
      → Spares (acquire_answer c pending b r)
  unfolding acquire_answer
  acquire_answer-Spares pending b (ok lock) m p =
      then-Keeps (Fixed S) (announce_lock c pending b) (λ _. return (acquired (some lock)))
        (announce_lock-Spares pending b) (λ _ m p. p) m p
  acquire_answer-Spares pending b (raised (resource_conflict x)) m p =
      noted-Leaves c (fixed S) "ResourceConflictDetected" pending
        (refused ErrorCode.resource_conflict x) m p
  acquire_answer-Spares pending b (raised (version_conflict x)) m p = p
  acquire_answer-Spares pending b (raised (value_error x)) m p = p

  pub acquire_resource_lock-Spares :
      (pending : PendingAction) → Spares (acquire_resource_lock c pending)
  unfolding acquire_resource_lock acquire_lock
  acquire_resource_lock-Spares pending m p =
      elim (Bool-cases (is_empty_text pending.resource_key)) [
        | inl e ↦ rw e p
        | inr e ↦
            let lock = lock_of pending m.session in
            let (r, locks) = acquire lock m.locks in
            rw e (
              acquire_answer-Spares pending (is_owned_by lock m.locks) r
                (record m { locks = locks }) p)
      ]

  pub release_resource_lock-Spares :
      (pending : PendingAction) (lock : Option ResourceLock)
      → Spares (release_resource_lock c pending lock)
  unfolding release_resource_lock
  release_resource_lock-Spares pending none m p = p
  release_resource_lock-Spares pending (some lock) m p =
      emit-Leaves c (fixed S) "ResourceLockReleased" pending _ p

-- At most one call, of this action's tool.
abbrev pub Once : List ToolCall → PendingAction → List ToolCall → Type 0
Once before pending calls = (calls ≡ before) ⊎ (calls ≡ tool_call pending ∷ before)

module _ (c : ActionExecutor) (before : List ToolCall) where
  abbrev pub Same : List ToolCall → List String → Locks → Type 0
  Same calls keys locks = calls ≡ before

  abbrev OnceOf : PendingAction → List ToolCall → List String → Locks → Type 0
  OnceOf pending calls keys locks = Once before pending calls

  abbrev pub IsOnce : PendingAction → Machine → Type 0
  IsOnce pending m = Once before pending m.calls

  call_tool-Once :
      (pending : PendingAction) (m : Machine)
      → m.calls ≡ before
      → IsOnce pending (call_tool c pending m).1
  unfolding call_tool
  call_tool-Once pending m p = inr (ap (λ cs. tool_call pending ∷ cs) p)

  invoke-Once :
      (pending : PendingAction) (m : Machine)
      → m.calls ≡ before
      → IsOnce pending (invoke c pending m).1
  unfolding invoke find_tool
  invoke-Once pending m p = bind-keeps (IsOnce pending) (find_tool c pending) _ m (inl p) λ _ e.
      let q = emit-Leaves c (fixed Same) "ActionStarted" pending m p in
      bind-keeps (IsOnce pending) (emit c "ActionStarted" pending) _ m (inl q) λ _ e.
        let m' = (emit c "ActionStarted" pending m).1 in
        let one = call_tool-Once pending m' q in
        bind-keeps (IsOnce pending) (call_tool c pending) _ m' one λ result e.
          emit_then-Leaves c (fixed (OnceOf pending)) "ActionCompleted" pending
            (update_if_succeeded c pending result >> observe_result c pending result)
            (taken-Leaves c (fixed (OnceOf pending)) pending result) (call_tool c pending m').1 one

  remember_success-Once :
      (x : Checked) (pending : PendingAction) (o : ActionOutcome)
      → Keeps (IsOnce pending) (remember_success c x o)
  remember_success-Once x pending o m p =
      elim (Bool-cases (x.confirmed && (not x.restricted && is_observed_success o))) [
        | inl e ↦ rw e p
        | inr e ↦ rw e p
      ]

  forget_failure-Once :
      (x : Checked) (pending : PendingAction) (o : ActionOutcome)
      → Keeps (IsOnce pending) (forget_failure c x o)
  forget_failure-Once x pending o m p = elim (Bool-cases (not (is_observed_success o))) [
    | inl e ↦ rw e (unfold forget_key in p)
    | inr e ↦ rw e p
  ]

  -- What follows the call of the tool.
  remembered-Once :
      (x : Checked) (pending : PendingAction) (o : ActionOutcome)
      → Keeps (IsOnce pending) (remember_success c x o >> return o)
  remembered-Once x pending o =
      then-Keeps (IsOnce pending) (remember_success c x o) (λ _. return o)
        (remember_success-Once x pending o) (λ _ m p. p)

  run_pure-Once :
      (x : Checked) (m : Machine) → m.calls ≡ before → IsOnce x.pending (run_pure c x m).1
  unfolding run_pure
  run_pure-Once x m p =
      let one = invoke-Once x.pending m p in
      bind-keeps (IsOnce x.pending) (invoke c x.pending) _ m one
        λ o e. remembered-Once x x.pending o (invoke c x.pending m).1 one

  run_fresh-Once :
      (x : Checked) (m : Machine) → m.calls ≡ before → IsOnce x.pending (run_fresh c x m).1
  unfolding run_fresh
  run_fresh-Once x m p =
      let one = invoke-Once x.pending m p in
      bind-keeps (IsOnce x.pending) (invoke c x.pending) _ m one λ o e.
        then-Keeps (IsOnce x.pending) (forget_failure c x o)
          (λ _. remember_success c x o >> return o) (forget_failure-Once x x.pending o)
          (λ _. remembered-Once x x.pending o) (invoke c x.pending m).1 one

  fresh_or_reconciled-Once :
      (x : Checked) (recorded : Bool) (m : Machine)
      → m.calls ≡ before
      → IsOnce x.pending (fresh_or_reconciled c x recorded m).1
  fresh_or_reconciled-Once x true m p = run_fresh-Once x m p
  fresh_or_reconciled-Once x false m p =
      inl (reconcile_required-Leaves c (fixed Same) x.pending x.capability x.tool m p)

  run_recorded-Once :
      (x : Checked) (recorded : Bool) (m : Machine)
      → m.calls ≡ before
      → IsOnce x.pending (run_recorded c x recorded m).1
  unfolding run_recorded
  run_recorded-Once x recorded m p =
      let q = emit-Leaves c (fixed Same) "IdempotencyChecked" x.pending m p in
      bind-keeps (IsOnce x.pending) (emit c "IdempotencyChecked" x.pending)
        (λ _. fresh_or_reconciled c x recorded) m (inl q)
        (λ _ e. fresh_or_reconciled-Once x recorded (emit c "IdempotencyChecked" x.pending m).1 q)

  record_key-Same :
      (key : String) (m : Machine) → m.calls ≡ before → (record_key key m).1.calls ≡ before
  unfolding record_key
  record_key-Same key m p = elim (Bool-cases (contains m.seen key)) [
    | inl e ↦ rw e p
    | inr e ↦ rw e p
  ]

  run_effect-Once :
      (x : Checked) (m : Machine) → m.calls ≡ before → IsOnce x.pending (run_effect c x m).1
  unfolding run_effect
  run_effect-Once x m p =
      let key = x.pending.idempotency_key in
      let q = record_key-Same key m p in
      bind-keeps (IsOnce x.pending) (record_key key) _ m (inl q) λ recorded e.
        let m' = (record_key key m).1 in
        let one = run_recorded-Once x recorded m' q in
        written-keeps (IsOnce x.pending) (run_recorded c x recorded m').0
          (if recorded then forget_key key else λ m. m) (run_recorded c x recorded m').1 one
          (elim recorded
            as (λ b.
              IsOnce x.pending
                ((if b then forget_key key else λ m. m) (run_recorded c x recorded m').1)) [
                  | true ↦ unfold forget_key in one
                  | false ↦ one
                ])

  run_locked-Once :
      (x : Checked) (a : Acquired) (m : Machine)
      → m.calls ≡ before
      → IsOnce x.pending (run_locked c x a m).1
  unfolding run_locked
  run_locked-Once x (refused code reason) m p = inl p
  run_locked-Once x (acquired lock) m p =
      let last =
        release_resource_lock-Spares c (λ calls keys. Once before x.pending calls) x.pending lock in
      elim (Bool-cases (is_pure x.tool.side_effect)) [
        | inl e ↦ rw e (last (run_pure c x m).1 (run_pure-Once x m p))
        | inr e ↦ rw e (last (run_effect c x m).1 (run_effect-Once x m p))
      ]

  pub run_action-Once :
      (x : Checked) (m : Machine) → m.calls ≡ before → IsOnce x.pending (run_action c x m).1
  unfolding run_action
  run_action-Once x m p =
      let m' = (on_agent_state (with_pending none) m).1 in
      let q = acquire_resource_lock-Spares c (λ calls keys. calls ≡ before) x.pending m' p in
      bind-keeps (IsOnce x.pending) (acquire_resource_lock c x.pending) (run_locked c x) m' (inl q)
        λ a e. run_locked-Once x a (acquire_resource_lock c x.pending m').1 q

  confirm_locked-Same :
      (x : Checked) (a : Acquired) (m : Machine)
      → m.calls ≡ before
      → (confirm_locked c x a m).1.calls ≡ before
  unfolding confirm_locked
  confirm_locked-Same x (refused code reason) m p = p
  confirm_locked-Same x (acquired lock) m p = p

  pub await_confirmation-Same :
      (x : Checked) (m : Machine) → m.calls ≡ before → (await_confirmation c x m).1.calls ≡ before
  unfolding await_confirmation
  await_confirmation-Same x m p =
      let q = acquire_resource_lock-Spares c (λ calls keys. calls ≡ before) x.pending m p in
      bind-keeps (λ m. m.calls ≡ before) (acquire_resource_lock c x.pending) (confirm_locked c x) m
        q λ a e. confirm_locked-Same x a (acquire_resource_lock c x.pending m).1 q

  reconcile_locked-Same :
      (x : Checked) (a : Acquired) (m : Machine)
      → m.calls ≡ before
      → (reconcile_locked c x a m).1.calls ≡ before
  unfolding reconcile_locked
  reconcile_locked-Same x (refused code reason) m p = p
  reconcile_locked-Same x (acquired lock) m p =
      let body =
        emit c "IdempotencyChecked" x.pending
        >> reconcile_required c x.pending x.capability x.tool in
      release_resource_lock-Spares c (λ calls keys. calls ≡ before) x.pending lock (body m).1
        (emit_then-Leaves c (fixed Same) "IdempotencyChecked" x.pending
          (reconcile_required c x.pending x.capability x.tool)
          (reconcile_required-Leaves c (fixed Same) x.pending x.capability x.tool) m p)

  pub reconcile_seen-Same :
      (x : Checked) (m : Machine) → m.calls ≡ before → (reconcile_seen c x m).1.calls ≡ before
  unfolding reconcile_seen
  reconcile_seen-Same x m p =
      let m' = (on_agent_state (with_pending none) m).1 in
      let q = acquire_resource_lock-Spares c (λ calls keys. calls ≡ before) x.pending m' p in
      bind-keeps (λ m. m.calls ≡ before) (acquire_resource_lock c x.pending) (reconcile_locked c x)
        m' q λ a e. reconcile_locked-Same x a (acquire_resource_lock c x.pending m').1 q
