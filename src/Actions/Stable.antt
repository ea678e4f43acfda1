-- ===== src/Actions/Stable.antt =====
-- What a whole action leaves as it was.
use universal_agent.Prelude.{
  String, Bool, true, false, not, ◌&&◌, Option, none, some, List, ◌∷◌, ◌>>◌, Result, ok, raised,
  Bool-cases, inl, inr, Keeps, then-Keeps, written-keeps, contains, String_eq, return,
  if◌then◌else◌, filter, ◌==◌,
}
use universal_agent.Prelude.Text.{is_empty_text}
use universal_agent.Core.Enums.{ErrorCode}
use universal_agent.Core.Models.{PendingAction, ToolCall}
use universal_agent.Coordination.Locks.{
  Locks, ResourceError, ResourceLock, acquire, is_owned_by, release, resource_conflict,
  version_conflict, value_error,
}
use universal_agent.Actions.Models.{ActionExecutor, ActionMethod, ActionOutcome, Machine}
use universal_agent.Actions.Identity.{tool_call, remembered, remember_approval}
use universal_agent.Actions.Resources.{
  acquired, refused, acquire_answer, acquire_lock, acquire_resource_lock, announce_lock, forget_key,
  lock_of, observe_result, record_key, release_resource_lock, release_pending_resource,
}
use universal_agent.Actions.Invoke.{
  call_tool, find_tool, invoke, is_observed_success, update_if_succeeded,
}
use universal_agent.Actions.Run.{
  Checked, forget_failure, fresh_or_reconciled, remember_success, run_effect, run_fresh, run_pure,
  run_recorded,
}
use universal_agent.Actions.Frame.{
  Quiet, emit-Leaves, emit_then-Leaves, noted-Leaves, reconcile_required-Leaves, taken-Leaves,
}

-- A property that no write of an action touches.
pub record Stable : Type 1 where
  pub quiet : Quiet
  pub locks : (m : Machine) (x : Locks) → quiet.holds m → quiet.holds (record m { locks = x })
  pub keys : (m : Machine) (x : List String) → quiet.holds m → quiet.holds (record m { seen = x })
  pub calls :
      (m : Machine) (x : List ToolCall) → quiet.holds m → quiet.holds (record m { calls = x })
  pub pending :
      (m : Machine) (x : Option PendingAction)
      → quiet.holds m
      → quiet.holds (record m {
        session = record m.session { state = record m.session.state { pending_action = x } };
      })
  pub approvals :
      (m : Machine) (x : List String)
      → quiet.holds m
      → quiet.holds (record m {
        session = record m.session { state = record m.session.state { approved_fingerprints = x } };
      })

module _ (c : ActionExecutor) (s : Stable) where
  abbrev q : Quiet
  q = s.quiet

  abbrev P : Machine → Type 0
  P = s.quiet.holds

  abbrev pub Spares : {A : Type 0} → ActionMethod A → Type 0
  Spares m = Keeps s.quiet.holds m

  announce_lock-Spares : (pending : PendingAction) (b : Bool) → Spares (announce_lock c pending b)
  announce_lock-Spares pending true m p = p
  announce_lock-Spares pending false m p = emit-Leaves c q "ResourceLockAcquired" pending m p

  acquire_answer-Spares :
      (pending : PendingAction) (b : Bool) (r : Result ResourceError ResourceLock)
      → Spares (acquire_answer c pending b r)
  unfolding acquire_answer
  acquire_answer-Spares pending b (ok lock) m p =
      then-Keeps P (announce_lock c pending b) (λ _. return (acquired (some lock)))
        (announce_lock-Spares pending b) (λ _ m p. p) m p
  acquire_answer-Spares pending b (raised (resource_conflict x)) m p =
      noted-Leaves c q "ResourceConflictDetected" pending (refused ErrorCode.resource_conflict x) m
        p
  acquire_answer-Spares pending b (raised (version_conflict x)) m p = p
  acquire_answer-Spares pending b (raised (value_error x)) m p = p

  pub acquire_resource_lock-Spares :
      (pending : PendingAction) → Spares (acquire_resource_lock c pending)
  unfolding acquire_resource_lock acquire_lock
  acquire_resource_lock-Spares pending m p =
      elim (Bool-cases (is_empty_text pending.resource_key)) [
        | inl e ↦ rw e p
        | inr e ↦
            let lock = lock_of pending m.session in
            let (r, locks) = acquire lock m.locks in
            rw e (
              acquire_answer-Spares pending (is_owned_by lock m.locks) r
                (record m { locks = locks }) (s.locks m locks p))
      ]

  pub release_resource_lock-Spares :
      (pending : PendingAction) (lock : Option ResourceLock)
      → Spares (release_resource_lock c pending lock)
  unfolding release_resource_lock
  release_resource_lock-Spares pending none m p = p
  release_resource_lock-Spares pending (some lock) m p =
      emit-Leaves c q "ResourceLockReleased" pending (record m { locks = release lock m.locks })
        (s.locks m (release lock m.locks) p)

  pub release_pending_resource-Spares :
      (pending : PendingAction) → Spares (release_pending_resource c pending)
  unfolding release_pending_resource
  release_pending_resource-Spares pending m p =
      elim (Bool-cases (is_empty_text pending.resource_key)) [
        | inl e ↦ rw e p
        | inr e ↦ rw e (release_resource_lock-Spares pending (some (lock_of pending m.session)) m p)
      ]

  call_tool-Spares : (pending : PendingAction) → Spares (call_tool c pending)
  unfolding call_tool
  call_tool-Spares pending m p = s.calls m (tool_call pending ∷ m.calls) p

  find_tool-Spares : (pending : PendingAction) → Spares (find_tool c pending)
  unfolding find_tool
  find_tool-Spares pending m p = p

  invoke-Spares : (pending : PendingAction) → Spares (invoke c pending)
  unfolding invoke
  invoke-Spares pending = then-Keeps P (find_tool c pending) _ (find_tool-Spares pending) λ _.
      emit_then-Leaves c q "ActionStarted" pending _ (
        then-Keeps P (call_tool c pending) _ (call_tool-Spares pending) λ result.
          emit_then-Leaves c q "ActionCompleted" pending
            (update_if_succeeded c pending result >> observe_result c pending result)
            (taken-Leaves c q pending result))

  remember_success-Spares : (x : Checked) (o : ActionOutcome) → Spares (remember_success c x o)
  remember_success-Spares x o m p =
      elim (Bool-cases (x.confirmed && (not x.restricted && is_observed_success o))) [
        | inl e ↦ rw e (
            unfold remember_approval in
            s.approvals m (remembered x.fingerprint m.session.state.approved_fingerprints) p)
        | inr e ↦ rw e p
      ]

  remembered-Spares :
      (x : Checked) (o : ActionOutcome) → Spares (remember_success c x o >> return o)
  remembered-Spares x o =
      then-Keeps P (remember_success c x o) (λ _. return o) (remember_success-Spares x o)
        (λ _ m p. p)

  forget_key-kept : (key : String) (m : Machine) → P m → P (forget_key key m)
  unfolding forget_key
  forget_key-kept key m p = s.keys m (filter (λ k. not (k == key)) m.seen) p

  forget_failure-Spares : (x : Checked) (o : ActionOutcome) → Spares (forget_failure c x o)
  forget_failure-Spares x o m p = elim (Bool-cases (not (is_observed_success o))) [
    | inl e ↦ rw e (forget_key-kept x.pending.idempotency_key m p)
    | inr e ↦ rw e p
  ]

  pub run_pure-Spares : (x : Checked) → Spares (run_pure c x)
  unfolding run_pure
  run_pure-Spares x =
      then-Keeps P (invoke c x.pending) _ (invoke-Spares x.pending) (remembered-Spares x)

  run_fresh-Spares : (x : Checked) → Spares (run_fresh c x)
  unfolding run_fresh
  run_fresh-Spares x = then-Keeps P (invoke c x.pending) _ (invoke-Spares x.pending) λ o.
      then-Keeps P (forget_failure c x o) (λ _. remember_success c x o >> return o)
        (forget_failure-Spares x o) (λ _. remembered-Spares x o)

  fresh_or_reconciled-Spares : (x : Checked) (b : Bool) → Spares (fresh_or_reconciled c x b)
  fresh_or_reconciled-Spares x true = run_fresh-Spares x
  fresh_or_reconciled-Spares x false = reconcile_required-Leaves c q x.pending x.capability x.tool

  run_recorded-Spares : (x : Checked) (b : Bool) → Spares (run_recorded c x b)
  unfolding run_recorded
  run_recorded-Spares x b =
      emit_then-Leaves c q "IdempotencyChecked" x.pending (fresh_or_reconciled c x b)
        (fresh_or_reconciled-Spares x b)

  record_key-Spares : (key : String) → Spares (record_key key)
  unfolding record_key
  record_key-Spares key m p = elim (Bool-cases (contains m.seen key)) [
    | inl e ↦ rw e p
    | inr e ↦ rw e (s.keys m (key ∷ m.seen) p)
  ]

  pub run_effect-Spares : (x : Checked) → Spares (run_effect c x)
  unfolding run_effect
  run_effect-Spares x =
      let key = x.pending.idempotency_key in
      then-Keeps P (record_key key) _ (record_key-Spares key) λ recorded m p.
        let (r, m') = run_recorded c x recorded m in
        let one = run_recorded-Spares x recorded m p in
        written-keeps P r (if recorded then forget_key key else λ m. m) m' one
          (elim recorded as (λ b. P ((if b then forget_key key else λ m. m) m')) [
            | true ↦ forget_key-kept key m' one
            | false ↦ one
          ])
