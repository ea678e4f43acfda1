-- ===== src/Actions/Execute.antt =====
-- `ActionExecutor.execute`, src/universal_agent/runtime/actions.py.
use universal_agent.Prelude.{
  String, Bool, true, false, not, ◌&&◌, ◌||◌, Option, none, some, List, [], contains, if◌then◌else◌,
  ok, raised, return, ◌>>=◌, ◌>>◌, ◌==◌, String_eq, gets, Result,
}
use universal_agent.Prelude.Dict.{get}
use universal_agent.Prelude.Text.{is_empty_text}
use universal_agent.Core.Enums.{ErrorCode}
use universal_agent.Core.Models.{
  CapabilityDefinition, DomainIdentity, PendingAction, PolicyContext, PolicyResult, ToolDefinition,
}
use universal_agent.Capability.Registry.{
  CapabilityError, CapabilityResolution, resolve_registration,
}
use universal_agent.Policy.{check}
use universal_agent.Runtime.Transitions.{SessionRuntimeState}
use universal_agent.Actions.Models.{ActionOutcome, ActionMethod, ActionExecutor, rejected}
use universal_agent.Actions.Identity.{
  action_fingerprint, ensure_resource_metadata, is_pure, read_only_policy_result,
}
use universal_agent.Actions.Resources.{check_resource_version, check_sandbox, emit, seen}
use universal_agent.Actions.Invoke.{unless, is_denied, is_confirmation}
use universal_agent.Actions.Run.{Checked, run_action, await_confirmation, reconcile_seen}

-- `state.current_task.required_criteria`; an id that the table lacks has no task.
abbrev pub required_criteria : SessionRuntimeState → List String
required_criteria session = elim (get session.tasks.tasks session.state.current_task) [
  | none ↦ []
  | some task ↦ task.required_criteria
]

abbrev pub needs_identity : String
needs_identity = "side-effecting action requires a resource identity"

-- Whether the domain of the capability is another one than the action's.
abbrev pub is_domain_changed : Option DomainIdentity → PendingAction → Bool
is_domain_changed none pending = false
is_domain_changed (some d) pending =
    not (pending.domain_name == d.name) || not (pending.domain_version == d.version)

abbrev pub capability_message : CapabilityError → String
capability_message (CapabilityError.value_error x) = x
capability_message (CapabilityError.duplicate_capability x) = x
capability_message (CapabilityError.unknown_capability x) = x
capability_message (CapabilityError.capability_unavailable x) = x

module _ (c : ActionExecutor) where
  -- The part of `execute` behind the check of the version.
  unfoldable pub execute_current : Checked → ActionMethod ActionOutcome
  unfolding run_action await_confirmation
  execute_current x =
      if is_confirmation x.verdict.effect then await_confirmation c x else run_action c x

  -- The part behind the sandbox.
  unfoldable pub execute_unless_seen : Checked → Bool → ActionMethod ActionOutcome
  unfolding execute_current reconcile_seen
  execute_unless_seen x is_seen =
      if not (is_pure x.tool.side_effect) && is_seen
      then reconcile_seen c x
      else check_resource_version c x.pending >>= λ checked. unless checked (execute_current x)

  unfoldable pub execute_permitted : Checked → ActionMethod ActionOutcome
  unfolding execute_unless_seen
  execute_permitted x = do
    is_seen ← gets (seen x.pending.idempotency_key)
    execute_unless_seen x is_seen

  -- The part behind the verdict.
  unfoldable pub execute_decided : Checked → ActionMethod ActionOutcome
  unfolding execute_permitted
  execute_decided x =
      if is_denied x.verdict.effect
      then return (rejected ErrorCode.policy_denied x.verdict.reason)
      else check_sandbox c x.tool x.pending >>= λ stopped. unless stopped (execute_permitted x)

  unfoldable pub execute_checked : Checked → ActionMethod ActionOutcome
  unfolding execute_decided
  execute_checked x = do emit c "PolicyChecked" x.pending; execute_decided x

  unfoldable pub policy_context :
      PendingAction
      → CapabilityDefinition
      → ToolDefinition
      → Bool
      → SessionRuntimeState
      → PolicyContext
  policy_context pending capability tool confirmed session = record {
    session_id = session.state.session_id;
    goal_id = session.state.goal.id;
    task_id = session.state.current_task;
    action_id = pending.action_id;
    capability = capability;
    tool = tool;
    target = pending.target;
    arguments = pending.arguments;
    environment = c.environment;
    confirmed = confirmed;
    goal_success_criteria = session.state.goal.success_criteria;
    task_required_criteria = required_criteria session;
  }

  -- `read_only_result or self.components.policy_engine.check(...)`
  unfoldable pub verdict_of :
      Option PolicyResult
      → PendingAction
      → CapabilityDefinition
      → ToolDefinition
      → Bool
      → SessionRuntimeState
      → PolicyResult
  unfolding policy_context
  verdict_of (some result) pending capability tool confirmed session = result
  verdict_of none pending capability tool confirmed session =
      check c.policy_engine (policy_context pending capability tool confirmed session)

  -- The variables for an action whose metadata are ensured.
  unfoldable pub checked_action :
      PendingAction → CapabilityDefinition → ToolDefinition → Bool → SessionRuntimeState → Checked
  unfolding verdict_of
  checked_action pending capability tool confirmed session =
      let fingerprint = action_fingerprint c.dumps_json pending in
      let confirmed_effective =
        confirmed || contains session.state.approved_fingerprints fingerprint in
      let restricted = read_only_policy_result session.state capability tool in
      record {
        pending = pending;
        capability = capability;
        tool = tool;
        fingerprint = fingerprint;
        confirmed = confirmed_effective;
        restricted = elim restricted [ none ↦ false | some _ ↦ true ];
        verdict = verdict_of restricted pending capability tool confirmed_effective session;
      }

  -- The part behind the resolution, for an action whose metadata are ensured.
  unfoldable pub execute_identified :
      PendingAction → CapabilityDefinition → ToolDefinition → Bool → ActionMethod ActionOutcome
  unfolding execute_checked checked_action
  execute_identified pending capability tool confirmed m =
      if not (is_pure tool.side_effect) && is_empty_text pending.resource_key
      then (ok (rejected ErrorCode.validation_error needs_identity), m)
      else execute_checked (checked_action pending capability tool confirmed m.session) m

  unfoldable pub execute_resolved :
      CapabilityResolution → PendingAction → Bool → ActionMethod ActionOutcome
  unfolding execute_identified
  execute_resolved resolution pending confirmed =
      if not (resolution.tool.definition.name == pending.tool_name)
      then return (rejected ErrorCode.invalid_state "pending action tool resolution changed")
      else if is_domain_changed resolution.capability_domain pending
      then return (rejected ErrorCode.invalid_state "pending action domain resolution changed")
      else execute_identified
          (ensure_resource_metadata pending resolution.tool.definition.side_effect)
          resolution.capability resolution.tool.definition confirmed

  -- What follows the resolution.
  unfoldable pub execute_found :
      Result CapabilityError CapabilityResolution
      → PendingAction
      → Bool
      → ActionMethod ActionOutcome
  unfolding execute_resolved
  execute_found (raised x) pending confirmed =
      return (rejected ErrorCode.invalid_state (capability_message x))
  execute_found (ok resolution) pending confirmed = execute_resolved resolution pending confirmed

  -- `execute`; its parameter `remember` is not read.
  unfoldable pub execute : PendingAction → Bool → ActionMethod ActionOutcome
  unfolding execute_found
  execute pending confirmed =
      execute_found (resolve_registration c.capabilities c.tools pending.capability) pending
        confirmed
