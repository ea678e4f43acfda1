-- ===== src/Actions/Frame.antt =====
-- What the steps of an action leave as it was.
use universal_agent.Prelude.Dict.{Dict}
use universal_agent.Prelude.{
  String, Option, none, some, List, [], ◌∷◌, ◌++◌ as append, Result, ok, raised, Bool-cases, inl,
  inr, Keeps, then-Keeps, return, contains, is_empty, String_eq, not, ◌&&◌, if◌then◌else◌, ◌>>◌,
}
use universal_agent.Prelude.Text.{is_empty_text}
use universal_agent.Core.Json.{JsonMapping}
use universal_agent.Core.Enums.{ErrorCode}
use universal_agent.Core.Models.{
  CapabilityDefinition, PendingAction, ToolCall, ToolDefinition, ToolResult, Observation,
}
use universal_agent.Coordination.Locks.{
  Locks, version_conflict, resource_conflict, value_error, ResourceError,
}
use universal_agent.Coordination.Versions.{verify, set_current, ResourceVersionCheck}
use universal_agent.Actions.Models.{
  ActionError, ActionExecutor, ActionMethod, ActionOutcome, Machine, Reconciler, Reconciled,
  no_result, reconciled, crashed, interrupted, SandboxResult, rejected, observed,
  SandboxActionContext, Emitted,
}
use universal_agent.Actions.Resources.{
  check_resource_version, check_sandbox, sandbox_answer, sandbox_context, emit, observe_result,
  from_tool_result, on_agent_state, set_resource_version, update_resource_version, version_checked,
  version_set, emitted, guarded,
}
use universal_agent.Actions.Identity.{resource_version, pending_domain_identity}
use universal_agent.Actions.Invoke.{
  reconcile_each, reconcile_required, reconciled_with, unless_reconciled, required_result,
  current_version, is_succeeded, after_answer, update_if_succeeded,
}

-- A property of the machine that the events, the versions and the observations do not touch.
pub record Quiet : Type 1 where
  pub holds : Machine → Type 0
  pub events : (m : Machine) (es : List Emitted) → holds m → holds (record m { events = es })
  pub versions : (m : Machine) (vs : Dict String) → holds m → holds (record m { versions = vs })
  pub observations :
      (m : Machine) (os : List Observation)
      → holds m
      → holds (record m {
        session = record m.session { state = record m.session.state { observations = os } };
      })

-- A property of the calls, the idempotency keys and the locks.
abbrev pub Fixed : (List ToolCall → List String → Locks → Type 0) → Machine → Type 0
Fixed R m = R m.calls m.seen m.locks

abbrev pub fixed : (List ToolCall → List String → Locks → Type 0) → Quiet
fixed R = record {
  holds = Fixed R;
  events = λ m es p. p;
  versions = λ m vs p. p;
  observations = λ m os p. p;
}

module _ (c : ActionExecutor) (q : Quiet) where
  abbrev pub Leaves : {A : Type 0} → ActionMethod A → Type 0
  Leaves m = Keeps q.holds m

  emitted-Leaves :
      (o : Option ActionError) (type : String) (pending : PendingAction)
      → Leaves (emitted o type pending)
  unfolding emitted
  emitted-Leaves none type pending m p =
      q.events m (record { type = type; action_id = some pending.action_id } ∷ m.events) p
  emitted-Leaves (some x) type pending m p = p

  pub emit-Leaves : (type : String) (pending : PendingAction) → Leaves (emit c type pending)
  unfolding emit
  emit-Leaves type pending m p = emitted-Leaves (c.emit_raises type m) type pending m p

  -- An event and what follows it.
  pub emit_then-Leaves :
      {A : Type 0} (type : String) (pending : PendingAction) (rest : ActionMethod A)
      → Leaves rest
      → Leaves (emit c type pending >> rest)
  emit_then-Leaves type pending rest h =
      then-Keeps q.holds (emit c type pending) (λ _. rest) (emit-Leaves type pending) (λ _. h)

  -- An event and a value.
  pub noted-Leaves :
      {A : Type 0} (type : String) (pending : PendingAction) (a : A)
      → Leaves (emit c type pending >> return a)
  noted-Leaves type pending a = emit_then-Leaves type pending (return a) (λ m p. p)

  version_checked-Leaves :
      (pending : PendingAction) (r : Result ResourceError ResourceVersionCheck)
      → Leaves (version_checked c pending r)
  unfolding version_checked
  version_checked-Leaves pending (ok check) m p =
      noted-Leaves {A = Option ActionOutcome} "ResourceVersionChecked" pending none m p
  version_checked-Leaves pending (raised (version_conflict x)) m p =
      emit_then-Leaves "ResourceVersionChecked" pending
        (emit c "ResourceConflictDetected" pending
          >> return (some (rejected ErrorCode.resource_conflict x)))
        (noted-Leaves "ResourceConflictDetected" pending
          (some (rejected ErrorCode.resource_conflict x)))
        m p
  version_checked-Leaves pending (raised (resource_conflict x)) m p = p
  version_checked-Leaves pending (raised (value_error x)) m p = p

  pub check_resource_version-Leaves :
      (pending : PendingAction) → Leaves (check_resource_version c pending)
  unfolding check_resource_version
  check_resource_version-Leaves pending m p =
      elim (Bool-cases (is_empty_text pending.resource_key)) [
        | inl e ↦ rw e p
        | inr e ↦ rw e (
            version_checked-Leaves pending
              (verify pending.resource_key pending.resource_version m.versions) m p)
      ]

  version_set-Leaves :
      (pending : PendingAction) (r : Result ResourceError Unit) → Leaves (version_set c pending r)
  unfolding version_set
  version_set-Leaves pending (ok _) m p = emit-Leaves "ResourceVersionUpdated" pending m p
  version_set-Leaves pending (raised x) m p = p

  set_resource_version-Leaves :
      (pending : PendingAction) (version : Option String)
      → Leaves (set_resource_version c pending version)
  unfolding set_resource_version
  set_resource_version-Leaves pending none m p = p
  set_resource_version-Leaves pending (some version) m p =
      let (r, versions) = set_current pending.resource_key version m.versions in
      version_set-Leaves pending r (record m { versions = versions }) (q.versions m versions p)

  update_resource_version-Leaves :
      (pending : PendingAction) (output : JsonMapping)
      → Leaves (update_resource_version c pending output)
  unfolding update_resource_version
  update_resource_version-Leaves pending output m p =
      elim (Bool-cases (is_empty_text pending.resource_key)) [
        | inl e ↦ rw e p
        | inr e ↦ rw e (set_resource_version-Leaves pending (resource_version output) m p)
      ]

  pub update_if_succeeded-Leaves :
      (pending : PendingAction) (result : ToolResult)
      → Leaves (update_if_succeeded c pending result)
  update_if_succeeded-Leaves pending result m p = elim (Bool-cases (is_succeeded result.status)) [
    | inl e ↦ rw e (update_resource_version-Leaves pending result.output m p)
    | inr e ↦ rw e p
  ]

  pub observe_result-Leaves :
      (pending : PendingAction) (result : ToolResult) → Leaves (observe_result c pending result)
  unfolding observe_result
  observe_result-Leaves pending result m p =
      let observation = from_tool_result c pending result m in
      noted-Leaves "ObservationReceived" pending (observed pending observation)
        (on_agent_state (λ s. record s { observations = append s.observations (observation ∷ []) })
          m).1
        (q.observations m (append m.session.state.observations (observation ∷ [])) p)

  sandbox_answer-Leaves :
      (pending : PendingAction) (r : Result String SandboxResult)
      → Leaves (sandbox_answer c pending r)
  unfolding sandbox_answer
  sandbox_answer-Leaves pending (raised x) m p =
      noted-Leaves "SandboxDenied" pending (some (rejected ErrorCode.policy_denied x)) m p
  sandbox_answer-Leaves pending (ok result) m p =
      noted-Leaves "SandboxChecked" pending
        (if not result.permitted
          then some (rejected ErrorCode.policy_denied result.reason)
          else none)
        m p

  guarded-Leaves :
      (o : Option (SandboxActionContext → Result String SandboxResult)) (tool : ToolDefinition)
      (pending : PendingAction)
      → Leaves (guarded c o tool pending)
  unfolding guarded
  guarded-Leaves none tool pending m p = p
  guarded-Leaves (some guard) tool pending m p =
      sandbox_answer-Leaves pending (guard (sandbox_context c tool pending)) m p

  pub check_sandbox-Leaves :
      (tool : ToolDefinition) (pending : PendingAction) → Leaves (check_sandbox c tool pending)
  unfolding check_sandbox
  check_sandbox-Leaves tool pending m p = guarded-Leaves c.sandbox tool pending m p

  -- What is done with a result behind its event.
  pub taken-Leaves :
      (pending : PendingAction) (result : ToolResult)
      → Leaves (update_if_succeeded c pending result >> observe_result c pending result)
  taken-Leaves pending result =
      then-Keeps q.holds (update_if_succeeded c pending result)
        (λ _. observe_result c pending result) (update_if_succeeded-Leaves pending result)
        (λ _. observe_result-Leaves pending result)

  reconciled_with-Leaves :
      (pending : PendingAction) (result : ToolResult) → Leaves (reconciled_with c pending result)
  unfolding reconciled_with
  reconciled_with-Leaves pending result m p =
      emit_then-Leaves "ActionReconciled" pending
        (update_if_succeeded c pending result >> observe_result c pending result)
        (taken-Leaves pending result) m p

  after_answer-Leaves :
      (pending : PendingAction) (a : Reconciled) (others : ActionMethod (Option ActionOutcome))
      → Leaves others
      → Leaves (after_answer c pending a others)
  unfolding after_answer
  after_answer-Leaves pending interrupted others h m p = p
  after_answer-Leaves pending (crashed x) others h m p =
      emit_then-Leaves "ActionReconcileFailed" pending others h m p
  after_answer-Leaves pending no_result others h m p = h m p
  after_answer-Leaves pending (reconciled result) others h m p =
      then-Keeps q.holds (reconciled_with c pending result) (λ outcome. return (some outcome))
        (reconciled_with-Leaves pending result) (λ o m p. p) m p

  reconcile_each-Leaves :
      (pending : PendingAction) (capability : CapabilityDefinition) (tool : ToolDefinition)
      (version : Option String) (rs : List Reconciler)
      → Leaves (reconcile_each c pending capability tool version rs)
  unfolding reconcile_each
  reconcile_each-Leaves pending capability tool version [] m p = p
  reconcile_each-Leaves pending capability tool version (r ∷ rest) m p =
      let h = reconcile_each-Leaves pending capability tool version rest in
      elim (Bool-cases (
        not (is_empty r.capability_names)
        && not (contains r.capability_names pending.capability))) [
          | inl e ↦ rw e (h m p)
          | inr e ↦ rw e (
              after_answer-Leaves pending (r.reconcile m pending capability tool version)
                (reconcile_each c pending capability tool version rest) h m p)
        ]

  unless_reconciled-Leaves :
      (pending : PendingAction) (o : Option ActionOutcome) → Leaves (unless_reconciled c pending o)
  unfolding unless_reconciled
  unless_reconciled-Leaves pending (some outcome) m p = p
  unless_reconciled-Leaves pending none m p =
      emit_then-Leaves "ActionReconcileRequired" pending
        (observe_result c pending (required_result c pending))
        (observe_result-Leaves pending (required_result c pending)) m p

  pub reconcile_required-Leaves :
      (pending : PendingAction) (capability : CapabilityDefinition) (tool : ToolDefinition)
      → Leaves (reconcile_required c pending capability tool)
  unfolding reconcile_required
  reconcile_required-Leaves pending capability tool m p =
      let version = current_version c pending m in
      let rs = c.reconcilers (pending_domain_identity pending) in
      then-Keeps q.holds (reconcile_each c pending capability tool version rs)
        (unless_reconciled c pending) (reconcile_each-Leaves pending capability tool version rs)
        (unless_reconciled-Leaves pending) m p
