-- ===== src/Actions/Whole.antt =====
-- What `execute` and `prepare` leave as it was.
use universal_agent.Prelude.{
  String, Bool, true, false, not, ◌&&◌, Option, none, some, List, [], ◌∷◌, ◌>>◌, Result, ok, raised,
  Bool-cases, inl, inr, then-Keeps, contains, String_eq, ◌==◌, finally,
}
use universal_agent.Prelude.Text.{is_empty_text}
use universal_agent.Core.Models.{CapabilityDefinition, Decision, PendingAction, ToolDefinition}
use universal_agent.Coordination.Locks.{ResourceLock}
use universal_agent.Capability.Registry.{
  CapabilityError, CapabilityResolution, resolve_registration,
}
use universal_agent.Actions.Models.{ActionExecutor, ActionMethod, ActionOutcome, Machine}
use universal_agent.Actions.Identity.{ensure_resource_metadata, is_pure, or_empty}
use universal_agent.Actions.Resources.{
  Acquired, acquired, refused, acquire_resource_lock, check_resource_version, check_sandbox, emit,
  release_resource_lock,
}
use universal_agent.Actions.Invoke.{is_confirmation, is_denied, reconcile_required, unless}
use universal_agent.Actions.Run.{
  Checked, await_confirmation, confirm_locked, reconcile_locked, reconcile_seen, run_action,
  run_effect, run_locked, run_pure,
}
use universal_agent.Actions.Execute.{
  checked_action, execute, execute_checked, execute_current, execute_decided, execute_found,
  execute_identified, execute_permitted, execute_resolved, execute_unless_seen, is_domain_changed,
}
use universal_agent.Actions.Frame.{
  check_resource_version-Leaves, check_sandbox-Leaves, emit_then-Leaves, reconcile_required-Leaves,
}
use universal_agent.Actions.Stable.{
  Stable, Spares, acquire_resource_lock-Spares, release_resource_lock-Spares, run_pure-Spares,
  run_effect-Spares,
}
use universal_agent.Actions.Prepare.{
  announce, enrich_decision_arguments, enrich_each, pending_action, prepare, prepare_enriched,
  prepare_found, prepare_resolved, is_skipped, add_provided, after_provided,
}
use universal_agent.Core.Json.{JsonMapping}
use universal_agent.Actions.Models.{ArgumentProvider}

module _ (c : ActionExecutor) (s : Stable) where
  abbrev P : Machine → Type 0
  P = s.quiet.holds

  -- A body under its lock.
  finally-Spares :
      (pending : PendingAction) (lock : Option ResourceLock) (body : ActionMethod ActionOutcome)
      → Spares c s body
      → Spares c s (finally body (release_resource_lock c pending lock))
  finally-Spares pending lock body h m p =
      release_resource_lock-Spares c s pending lock (body m).1 (h m p)

  run_locked-Spares : (x : Checked) (a : Acquired) → Spares c s (run_locked c x a)
  unfolding run_locked
  run_locked-Spares x (refused code reason) m p = p
  run_locked-Spares x (acquired lock) m p = elim (Bool-cases (is_pure x.tool.side_effect)) [
    | inl e ↦ rw e (finally-Spares x.pending lock (run_pure c x) (run_pure-Spares c s x) m p)
    | inr e ↦ rw e (finally-Spares x.pending lock (run_effect c x) (run_effect-Spares c s x) m p)
  ]

  run_action-Spares : (x : Checked) → Spares c s (run_action c x)
  unfolding run_action
  run_action-Spares x m p =
      then-Keeps P (acquire_resource_lock c x.pending) (run_locked c x)
        (acquire_resource_lock-Spares c s x.pending) (run_locked-Spares x) _ (s.pending m none p)

  confirm_locked-Spares : (x : Checked) (a : Acquired) → Spares c s (confirm_locked c x a)
  unfolding confirm_locked
  confirm_locked-Spares x (refused code reason) m p = p
  confirm_locked-Spares x (acquired lock) m p = s.pending m (some x.pending) p

  await_confirmation-Spares : (x : Checked) → Spares c s (await_confirmation c x)
  unfolding await_confirmation
  await_confirmation-Spares x =
      then-Keeps P (acquire_resource_lock c x.pending) (confirm_locked c x)
        (acquire_resource_lock-Spares c s x.pending) (confirm_locked-Spares x)

  reconcile_locked-Spares : (x : Checked) (a : Acquired) → Spares c s (reconcile_locked c x a)
  unfolding reconcile_locked
  reconcile_locked-Spares x (refused code reason) m p = p
  reconcile_locked-Spares x (acquired lock) m p =
      finally-Spares x.pending lock
        (emit c "IdempotencyChecked" x.pending
          >> reconcile_required c x.pending x.capability x.tool)
        (emit_then-Leaves c s.quiet "IdempotencyChecked" x.pending
          (reconcile_required c x.pending x.capability x.tool)
          (reconcile_required-Leaves c s.quiet x.pending x.capability x.tool))
        m p

  reconcile_seen-Spares : (x : Checked) → Spares c s (reconcile_seen c x)
  unfolding reconcile_seen
  reconcile_seen-Spares x m p =
      then-Keeps P (acquire_resource_lock c x.pending) (reconcile_locked c x)
        (acquire_resource_lock-Spares c s x.pending) (reconcile_locked-Spares x) _
        (s.pending m none p)

  execute_current-Spares : (x : Checked) → Spares c s (execute_current c x)
  unfolding execute_current
  execute_current-Spares x m p = elim (Bool-cases (is_confirmation x.verdict.effect)) [
    | inl e ↦ rw e (await_confirmation-Spares x m p)
    | inr e ↦ rw e (run_action-Spares x m p)
  ]

  unless-Spares :
      (o : Option ActionOutcome) (rest : ActionMethod ActionOutcome)
      → Spares c s rest
      → Spares c s (unless o rest)
  unless-Spares none rest h m p = h m p
  unless-Spares (some o) rest h m p = p

  execute_unless_seen-Spares : (x : Checked) (b : Bool) → Spares c s (execute_unless_seen c x b)
  unfolding execute_unless_seen
  execute_unless_seen-Spares x b m p = elim (Bool-cases (not (is_pure x.tool.side_effect) && b)) [
    | inl e ↦ rw e (reconcile_seen-Spares x m p)
    | inr e ↦ rw e (
        then-Keeps P (check_resource_version c x.pending)
          (λ checked. unless checked (execute_current c x))
          (check_resource_version-Leaves c s.quiet x.pending)
          (λ o. unless-Spares o (execute_current c x) (execute_current-Spares x)) m p)
  ]

  execute_permitted-Spares : (x : Checked) → Spares c s (execute_permitted c x)
  unfolding execute_permitted
  execute_permitted-Spares x m p =
      execute_unless_seen-Spares x (contains m.seen x.pending.idempotency_key) m p

  execute_decided-Spares : (x : Checked) → Spares c s (execute_decided c x)
  unfolding execute_decided
  execute_decided-Spares x m p = elim (Bool-cases (is_denied x.verdict.effect)) [
    | inl e ↦ rw e p
    | inr e ↦ rw e (
        then-Keeps P (check_sandbox c x.tool x.pending)
          (λ stopped. unless stopped (execute_permitted c x))
          (check_sandbox-Leaves c s.quiet x.tool x.pending)
          (λ o. unless-Spares o (execute_permitted c x) (execute_permitted-Spares x)) m p)
  ]

  execute_checked-Spares : (x : Checked) → Spares c s (execute_checked c x)
  unfolding execute_checked
  execute_checked-Spares x =
      emit_then-Leaves c s.quiet "PolicyChecked" x.pending (execute_decided c x)
        (execute_decided-Spares x)

  execute_identified-Spares :
      (pending : PendingAction) (capability : CapabilityDefinition) (tool : ToolDefinition)
      (confirmed : Bool)
      → Spares c s (execute_identified c pending capability tool confirmed)
  unfolding execute_identified
  execute_identified-Spares pending capability tool confirmed m p =
      elim (Bool-cases (not (is_pure tool.side_effect) && is_empty_text pending.resource_key)) [
        | inl e ↦ rw e p
        | inr e ↦ rw e (
            execute_checked-Spares (checked_action c pending capability tool confirmed m.session) m
              p)
      ]

  execute_found-Spares :
      (r : Result CapabilityError CapabilityResolution) (pending : PendingAction) (confirmed : Bool)
      → Spares c s (execute_found c r pending confirmed)
  unfolding execute_found execute_resolved
  execute_found-Spares (raised x) pending confirmed m p = p
  execute_found-Spares (ok r) pending confirmed m p =
      elim (Bool-cases (r.tool.definition.name == pending.tool_name)) [
        | inr e ↦ rw e p
        | inl e ↦ elim (Bool-cases (is_domain_changed r.capability_domain pending)) [
          | inl d ↦ rw (e, d) p
          | inr d ↦
              rw (e, d)
                (execute_identified-Spares
                  (ensure_resource_metadata pending r.tool.definition.side_effect) r.capability
                  r.tool.definition confirmed m p)
        ]
      ]

  pub execute-Spares :
      (pending : PendingAction) (confirmed : Bool) → Spares c s (execute c pending confirmed)
  unfolding execute
  execute-Spares pending confirmed =
      execute_found-Spares (resolve_registration c.capabilities c.tools pending.capability) pending
        confirmed

  resolved_event-Spares :
      (pending : PendingAction)
      → Spares c s (emit c "CapabilityResolved" pending >> execute c pending false)
  resolved_event-Spares pending =
      emit_then-Leaves c s.quiet "CapabilityResolved" pending (execute c pending false)
        (execute-Spares pending false)

  announce-Spares : (pending : PendingAction) (b : Bool) → Spares c s (announce c pending b)
  unfolding announce
  announce-Spares pending true =
      emit_then-Leaves c s.quiet "ActionArgumentsEnriched" pending
        (emit c "CapabilityResolved" pending >> execute c pending false)
        (resolved_event-Spares pending)
  announce-Spares pending false = resolved_event-Spares pending

  after_provided-Spares :
      (r : Result String JsonMapping) (found : JsonMapping × Bool)
      (others : JsonMapping × Bool → ActionMethod (JsonMapping × Bool))
      → ((x : JsonMapping × Bool) → Spares c s (others x))
      → Spares c s (after_provided r others found)
  unfolding after_provided
  after_provided-Spares (raised x) found others h m p = p
  after_provided-Spares (ok provided) found others h m p = h (add_provided provided found) m p

  enrich_each-Spares :
      (ps : List ArgumentProvider) (decision : Decision) (capability : CapabilityDefinition)
      (tool : ToolDefinition) (found : JsonMapping × Bool)
      → Spares c s (enrich_each ps decision capability tool found)
  unfolding enrich_each
  enrich_each-Spares [] decision capability tool found m p = p
  enrich_each-Spares (a ∷ rest) decision capability tool found m p =
      let others = enrich_each rest decision capability tool in
      let h = enrich_each-Spares rest decision capability tool in
      elim (Bool-cases (is_skipped a decision)) [
        | inl e ↦ rw e (h found m p)
        | inr e ↦ rw e (
            after_provided-Spares
              (a.provide m (record decision { arguments = found.0 }) capability tool) found others h
              m p)
      ]

  prepare_enriched-Spares :
      (r : CapabilityResolution) (found : Decision × Bool) → Spares c s (prepare_enriched c r found)
  unfolding prepare_enriched
  prepare_enriched-Spares r (decision, b) m p =
      let pending = pending_action c r decision m in
      elim (Bool-cases
        (not (is_pure r.tool.definition.side_effect) && is_empty_text pending.resource_key)) [
          | inl e ↦ rw e p
          | inr e ↦ rw e (announce-Spares pending b m p)
        ]

  prepare_found-Spares :
      (r : Result CapabilityError CapabilityResolution) (decision : Decision)
      → Spares c s (prepare_found c r decision)
  unfolding prepare_found prepare_resolved enrich_decision_arguments
  prepare_found-Spares (raised (CapabilityError.unknown_capability x)) decision m p = p
  prepare_found-Spares (raised (CapabilityError.capability_unavailable x)) decision m p = p
  prepare_found-Spares (raised (CapabilityError.value_error x)) decision m p = p
  prepare_found-Spares (raised (CapabilityError.duplicate_capability x)) decision m p = p
  prepare_found-Spares (ok r) decision m p =
      then-Keeps P
        (enrich_decision_arguments c decision r.capability r.tool.definition r.capability_domain)
        (prepare_enriched c r)
        (λ m p.
          then-Keeps P
            (enrich_each (c.argument_providers r.capability_domain) decision r.capability
              r.tool.definition (decision.arguments, false))
            _
            (enrich_each-Spares (c.argument_providers r.capability_domain) decision r.capability
              r.tool.definition (decision.arguments, false))
            (λ _ m p. p) m p)
        (prepare_enriched-Spares r) m p

  pub prepare-Spares : (decision : Decision) → Spares c s (prepare c decision)
  unfolding prepare
  prepare-Spares decision =
      prepare_found-Spares
        (resolve_registration c.capabilities c.tools (or_empty decision.capability)) decision
