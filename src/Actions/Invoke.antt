-- ===== src/Actions/Invoke.antt =====
-- The call of a tool, and the reconciliation of an action that has a record already,
-- src/universal_agent/runtime/actions.py.
use universal_agent.Prelude.{
  String, Bool, true, false, not, ◌&&◌, Option, none, some, List, [], ◌∷◌, contains, is_empty,
  if◌then◌else◌, ok, raised, return, throw, lift, gets, ◌>>=◌, ◌>>◌, String_eq,
}
use universal_agent.Prelude.Text.{is_empty_text}
use universal_agent.Core.Json.{JsonValue, JsonMapping}
use universal_agent.Core.Enums.{ErrorCode, ObservationStatus, PolicyEffect}
use universal_agent.Core.Models.{CapabilityDefinition, PendingAction, ToolDefinition, ToolResult}
use universal_agent.Coordination.Versions.{current}
use universal_agent.Tools.Registry.{resolve_tool}
use universal_agent.Tools.Invoke.{execute_tool}
use universal_agent.Actions.Models.{
  ActionOutcome, ActionMethod, ActionExecutor, Machine, Reconciler, observed, tool_error, no_result,
  reconciled, crashed, interrupted, cancelled, Reconciled,
}
use universal_agent.Actions.Identity.{pending_domain_identity, tool_call}
use universal_agent.Actions.Resources.{emit, observe_result, update_resource_version}

abbrev pub is_succeeded : ObservationStatus → Bool
is_succeeded ObservationStatus.succeeded = true
is_succeeded _ = false

abbrev pub is_denied : PolicyEffect → Bool
is_denied PolicyEffect.deny = true
is_denied _ = false

abbrev pub is_confirmation : PolicyEffect → Bool
is_confirmation PolicyEffect.require_confirmation = true
is_confirmation _ = false

abbrev pub is_observed_success : ActionOutcome → Bool
is_observed_success (observed pending observation) = is_succeeded observation.status
is_observed_success _ = false

-- A check that may end the call with an outcome.
abbrev pub unless : Option ActionOutcome → ActionMethod ActionOutcome → ActionMethod ActionOutcome
unless (some outcome) rest = return outcome
unless none rest = rest

module _ (c : ActionExecutor) where
  -- The call of the tool runtime, which is cancelled or answered.
  unfoldable pub call_tool : PendingAction → ActionMethod ToolResult
  call_tool pending m = (
    if c.is_interrupted (tool_call pending) m
        then raised cancelled
        else ok (
            execute_tool (c.answer m) c.resolve_secret_arguments c.validate_tool_arguments c.tools
              (tool_call pending)),
    record m { calls = tool_call pending ∷ m.calls },
  )

  -- `self.components.tools.resolve(pending.tool_name)`
  unfoldable pub find_tool : PendingAction → ActionMethod Unit
  find_tool pending = lift (elim (resolve_tool c.tools pending.tool_name) [
    | raised x ↦ raised (tool_error x)
    | ok tool ↦ ok tt
  ])

  -- The version of the resource that the output of a success has.
  abbrev pub update_if_succeeded : PendingAction → ToolResult → ActionMethod Unit
  update_if_succeeded pending result =
      if is_succeeded result.status
      then update_resource_version c pending result.output
      else return tt

  -- `_invoke`
  unfoldable pub invoke : PendingAction → ActionMethod ActionOutcome
  unfolding call_tool find_tool
  invoke pending = do
    find_tool pending
    emit c "ActionStarted" pending
    result ← call_tool pending
    emit c "ActionCompleted" pending
    update_if_succeeded pending result
    observe_result c pending result

  -- What follows the result of a reconciler.
  unfoldable pub reconciled_with : PendingAction → ToolResult → ActionMethod ActionOutcome
  reconciled_with pending result = do
    emit c "ActionReconciled" pending
    update_if_succeeded pending result
    observe_result c pending result

  abbrev pub current_version : PendingAction → Machine → Option String
  current_version pending m =
      if is_empty_text pending.resource_key then none else current pending.resource_key m.versions

  -- The body of the loop of `_reconcile_action` for an answer, with the rest of the loop.
  unfoldable pub after_answer :
      PendingAction
      → Reconciled
      → ActionMethod (Option ActionOutcome)
      → ActionMethod (Option ActionOutcome)
  unfolding reconciled_with
  after_answer pending interrupted others = throw cancelled
  after_answer pending (crashed x) others = do emit c "ActionReconcileFailed" pending; others
  after_answer pending no_result others = others
  after_answer pending (reconciled result) others = do
    outcome ← reconciled_with pending result
    return (some outcome)

  -- The loop; the version is read before it.
  unfoldable pub reconcile_each :
      PendingAction
      → CapabilityDefinition
      → ToolDefinition
      → Option String
      → List Reconciler
      → ActionMethod (Option ActionOutcome)
  unfolding after_answer
  reconcile_each pending capability tool version [] = return none
  reconcile_each pending capability tool version (r ∷ rest) =
      let others = reconcile_each pending capability tool version rest in
      if not (is_empty r.capability_names) && not (contains r.capability_names pending.capability)
      then others
      else gets (λ m. r.reconcile m pending capability tool version) >>= λ answer.
          after_answer pending answer others

  abbrev pub required_result : PendingAction → ToolResult
  required_result pending = record {
    status = ObservationStatus.unknown;
    output = JsonMapping.field "reconcile_required" (JsonValue.bool true) (
        JsonMapping.field "idempotency_key" (JsonValue.text pending.idempotency_key) (
          JsonMapping.field "parameters_hash" (JsonValue.text pending.parameters_hash) (
            JsonMapping.field "resource_key" (JsonValue.text pending.resource_key)
              JsonMapping.end)));
    error =
        some
          "side-effecting action already has an execution record; reconcile action outcome before retry";
    error_code = some ErrorCode.resource_conflict;
  }

  -- The part of `_reconcile_required` behind the reconcilers.
  unfoldable pub unless_reconciled :
      PendingAction → Option ActionOutcome → ActionMethod ActionOutcome
  unless_reconciled pending (some outcome) = return outcome
  unless_reconciled pending none = do
    emit c "ActionReconcileRequired" pending
    observe_result c pending (required_result pending)

  -- `_reconcile_required`
  unfoldable pub reconcile_required :
      PendingAction → CapabilityDefinition → ToolDefinition → ActionMethod ActionOutcome
  unfolding reconcile_each unless_reconciled
  reconcile_required pending capability tool = do
    version ← gets (current_version pending)
    outcome ←
        reconcile_each pending capability tool version
          (c.reconcilers (pending_domain_identity pending))
    unless_reconciled pending outcome
