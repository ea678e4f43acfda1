-- ===== src/Actions/Resources.antt =====
-- The helpers of `ActionExecutor` around a tool: its events, the registries of locks, versions and
-- idempotency keys, the sandbox and the observations, src/universal_agent/runtime/actions.py and
-- idempotency.py.
use Prim.Native.String.{◌++◌}
use universal_agent.Prelude.{
  String, Bool, true, false, not, Option, none, some, [], ◌∷◌, ◌++◌ as append, filter, contains,
  if◌then◌else◌, Result, ok, raised, return, throw, gets, modify, ◌>>=◌, ◌>>◌, ◌==◌, String_eq,
}
use universal_agent.Prelude.Text.{is_empty_text}
use universal_agent.Core.Json.{JsonMapping}
use universal_agent.Core.Enums.{ErrorCode}
use universal_agent.Core.Models.{AgentState, Observation, PendingAction, ToolDefinition, ToolResult}
use universal_agent.Coordination.Locks.{
  ResourceLock, ResourceError, resource_conflict, version_conflict, acquire, is_owned_by, release,
}
use universal_agent.Coordination.Versions.{ResourceVersionCheck, set_current, verify}
use universal_agent.Runtime.Transitions.{SessionRuntimeState}
use universal_agent.Actions.Models.{
  ActionOutcome, ActionMethod, Machine, ActionExecutor, SandboxResult, SandboxActionContext,
  rejected, observed, resource_error, ActionError,
}
use universal_agent.Actions.Identity.{resource_version}

-- A write to the state of the session.
abbrev pub on_agent_state : (AgentState String → AgentState String) → ActionMethod Unit
on_agent_state f =
    modify (λ m. record m { session = record m.session { state = f m.session.state } })

abbrev pub with_pending : Option PendingAction → AgentState String → AgentState String
with_pending pending state = record state { pending_action = pending }

-- `InMemoryIdempotencyStore`
abbrev pub seen : String → Machine → Bool
seen key m = contains m.seen key

unfoldable pub record_key : String → ActionMethod Bool
record_key key m =
    if contains m.seen key then (ok false, m) else (ok true, record m { seen = key ∷ m.seen })

unfoldable pub forget_key : String → Machine → Machine
forget_key key m = record m { seen = filter (λ k. not (k == key)) m.seen }

-- The lock of an action.
unfoldable pub lock_of : PendingAction → SessionRuntimeState → ResourceLock
lock_of pending session = record {
  resource_key = pending.resource_key;
  action_id = pending.action_id;
  session_id = session.state.session_id;
  task_id = session.state.current_task;
}

-- What `_acquire_resource_lock` returns: a lock, no lock, or the outcome that rejects the action.
pub data Acquired : Type 0 where
  acquired : Option ResourceLock → Acquired
  refused : ErrorCode → String → Acquired

-- The event, unless its emitter raises.
unfoldable pub emitted : Option ActionError → String → PendingAction → ActionMethod Unit
emitted (some x) type pending = throw x
emitted none type pending = modify (λ m. record m {
  events = record { type = type; action_id = some pending.action_id } ∷ m.events;
})

module _ (c : ActionExecutor) where
  -- `emit`, which may raise.
  unfoldable pub emit : String → PendingAction → ActionMethod Unit
  unfolding emitted
  emit type pending m = emitted (c.emit_raises type m) type pending m

  abbrev pub announce_lock : PendingAction → Bool → ActionMethod Unit
  announce_lock pending already_owned =
      if already_owned then return tt else emit "ResourceLockAcquired" pending

  -- What follows the call of `acquire`.
  unfoldable pub acquire_answer :
      PendingAction → Bool → Result ResourceError ResourceLock → ActionMethod Acquired
  acquire_answer pending already_owned (ok lock) = do
    announce_lock pending already_owned
    return (acquired (some lock))
  acquire_answer pending already_owned (raised (resource_conflict x)) = do
    emit "ResourceConflictDetected" pending
    return (refused ErrorCode.resource_conflict x)
  acquire_answer pending already_owned (raised x) = throw (resource_error x)

  unfoldable pub acquire_lock : PendingAction → Bool → ActionMethod Acquired
  unfolding acquire_answer
  acquire_lock pending already_owned m =
      let (r, locks) = acquire (lock_of pending m.session) m.locks in
      acquire_answer pending already_owned r (record m { locks = locks })

  -- `_acquire_resource_lock`
  unfoldable pub acquire_resource_lock : PendingAction → ActionMethod Acquired
  unfolding acquire_lock
  acquire_resource_lock pending =
      if is_empty_text pending.resource_key
      then return (acquired none)
      else gets (λ m. is_owned_by (lock_of pending m.session) m.locks) >>= acquire_lock pending

  -- `_release_resource_lock`
  unfoldable pub release_resource_lock : PendingAction → Option ResourceLock → ActionMethod Unit
  unfolding emit
  release_resource_lock pending none = return tt
  release_resource_lock pending (some lock) = do
    modify (λ m. record m { locks = release lock m.locks })
    emit "ResourceLockReleased" pending

  -- `release_pending_resource`
  unfoldable pub release_pending_resource : PendingAction → ActionMethod Unit
  unfolding release_resource_lock
  release_pending_resource pending =
      if is_empty_text pending.resource_key
      then return tt
      else gets (λ m. some (lock_of pending m.session)) >>= release_resource_lock pending

  -- What follows the call of `verify`.
  unfoldable pub version_checked :
      PendingAction
      → Result ResourceError ResourceVersionCheck
      → ActionMethod (Option ActionOutcome)
  version_checked pending (ok check) = do emit "ResourceVersionChecked" pending; return none
  version_checked pending (raised (version_conflict x)) = do
    emit "ResourceVersionChecked" pending
    emit "ResourceConflictDetected" pending
    return (some (rejected ErrorCode.resource_conflict x))
  version_checked pending (raised x) = throw (resource_error x)

  -- `_check_resource_version`
  unfoldable pub check_resource_version : PendingAction → ActionMethod (Option ActionOutcome)
  unfolding version_checked
  check_resource_version pending =
      if is_empty_text pending.resource_key
      then return none
      else gets (λ m. verify pending.resource_key pending.resource_version m.versions)
        >>= version_checked pending

  -- What follows the call of `set_current`.
  unfoldable pub version_set : PendingAction → Result ResourceError Unit → ActionMethod Unit
  version_set pending (ok _) = emit "ResourceVersionUpdated" pending
  version_set pending (raised x) = throw (resource_error x)

  -- The part of `_update_resource_version` for the version that the output has.
  unfoldable pub set_resource_version : PendingAction → Option String → ActionMethod Unit
  unfolding version_set
  set_resource_version pending none = return tt
  set_resource_version pending (some version) = λ m.
      let (r, versions) = set_current pending.resource_key version m.versions in
      version_set pending r (record m { versions = versions })

  -- `_update_resource_version`
  unfoldable pub update_resource_version : PendingAction → JsonMapping → ActionMethod Unit
  unfolding set_resource_version
  update_resource_version pending output =
      if is_empty_text pending.resource_key
      then return tt
      else set_resource_version pending (resource_version output)

  -- `ObservationFactory.from_tool_result`
  unfoldable pub from_tool_result : PendingAction → ToolResult → Machine → Observation
  from_tool_result pending result m = record {
    id = c.new_observation_id m;
    action_id = pending.action_id;
    task_id = m.session.state.current_task;
    source = pending.capability ++ (":" ++ pending.tool_name);
    status = result.status;
    values = c.redact_sensitive_mapping result.output;
    observed_at = c.utc_now m;
    error = elim result.error [ none ↦ none | some x ↦ some (c.redact_sensitive_text x) ];
    error_code = result.error_code;
  }

  -- The observation is made, kept in the state and emitted.
  unfoldable pub observe_result : PendingAction → ToolResult → ActionMethod ActionOutcome
  unfolding emit from_tool_result
  observe_result pending result = do
    observation ← gets (from_tool_result pending result)
    on_agent_state (λ s. record s { observations = append s.observations (observation ∷ []) })
    emit "ObservationReceived" pending
    return (observed pending observation)

  abbrev pub sandbox_context : ToolDefinition → PendingAction → SandboxActionContext
  sandbox_context tool pending = record {
    risk = tool.risk;
    side_effect = tool.side_effect;
    path = if is_empty_text pending.resource_key then pending.target else some pending.resource_key;
    tool = tool;
    arguments = pending.arguments;
  }

  -- What follows the answer of the sandbox.
  unfoldable pub sandbox_answer :
      PendingAction → Result String SandboxResult → ActionMethod (Option ActionOutcome)
  sandbox_answer pending (raised x) = do
    emit "SandboxDenied" pending
    return (some (rejected ErrorCode.policy_denied x))
  sandbox_answer pending (ok result) = do
    emit "SandboxChecked" pending
    return (
        if not result.permitted
        then some (rejected ErrorCode.policy_denied result.reason)
        else none)

  -- `_check_sandbox`, for the sandbox of the executor.
  unfoldable pub guarded :
      Option (SandboxActionContext → Result String SandboxResult)
      → ToolDefinition
      → PendingAction
      → ActionMethod (Option ActionOutcome)
  unfolding sandbox_answer
  guarded none tool pending = return none
  guarded (some guard) tool pending = sandbox_answer pending (guard (sandbox_context tool pending))

  unfoldable pub check_sandbox :
      ToolDefinition → PendingAction → ActionMethod (Option ActionOutcome)
  unfolding guarded
  check_sandbox tool pending = guarded c.sandbox tool pending
