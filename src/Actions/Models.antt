-- ===== src/Actions/Models.antt =====
-- The values that pass between the executor of actions and its callers, src/universal_agent/runtime/actions.py,
-- and the objects that one call reads and writes.
use universal_agent.Prelude.{ℕ, String, Bool, Option, List, Method, Result}
use universal_agent.Prelude.Dict.{Dict}
use universal_agent.Core.Json.{JsonMapping}
use universal_agent.Core.Enums.{ErrorCode, RiskLevel, SideEffect}
use universal_agent.Core.Models.{
  CapabilityDefinition, Decision, DomainIdentity, Observation, PendingAction, ToolCall,
  ToolDefinition, ToolResult,
}
use universal_agent.Coordination.Locks.{Locks, ResourceError}
use universal_agent.Tools.Registry.{Tools, ToolError}
use universal_agent.Tools.Invoke.{ToolAnswer}
use universal_agent.Capability.Registry.{Capabilities}
use universal_agent.Policy.{PolicyEngine}
use universal_agent.Runtime.Transitions.{SessionRuntimeState}

-- `ActionRejected`, `ConfirmationRequired` and `ActionObserved`.
pub data ActionOutcome : Type 0 where
  rejected : ErrorCode → String → ActionOutcome
  confirmation_required : PendingAction → String → ActionOutcome
  observed : PendingAction → Observation → ActionOutcome

-- An exception that leaves a call: the cancellation of the running task, an error of the resource
-- registries or of the tools, or any other, with its text.
pub data ActionError : Type 0 where
  cancelled : ActionError
  resource_error : ResourceError → ActionError
  tool_error : ToolError → ActionError
  failed : String → ActionError

-- An event that was emitted; its data are not carried.
pub record Emitted : Type 0 where
  pub type : String
  pub action_id : Option String

-- What one action reads and writes: the session, the registries of locks and of versions, the
-- idempotency keys, and, newest first, the events emitted and the calls given to a tool.
pub record Machine : Type 0 where
  pub session : SessionRuntimeState
  pub locks : Locks
  pub versions : Dict String
  pub seen : List String
  pub events : List Emitted
  pub calls : List ToolCall

abbrev pub ActionMethod : Type 0 → Type 0
ActionMethod A = Method ActionError Machine A

-- What the executor of a sandbox gives; `SandboxViolation` is its text.
pub record SandboxResult : Type 0 where
  pub permitted : Bool
  pub reason : String
  pub executed : Bool

pub record SandboxActionContext : Type 0 where
  pub risk : RiskLevel
  pub side_effect : SideEffect
  pub path : Option String
  pub tool : ToolDefinition
  pub arguments : JsonMapping

-- What a reconciler gives: no result, a result, an exception, or the cancellation of the task.
pub data Reconciled : Type 0 where
  no_result : Reconciled
  reconciled : ToolResult → Reconciled
  crashed : String → Reconciled
  interrupted : Reconciled

-- A reconciler of a domain. It is given the action, its capability and tool, the known version of
-- the resource, and the session; as the world and the evidence of a session are not carried, it may
-- answer by the whole history in the machine.
pub record Reconciler : Type 0 where
  pub name : String
  pub capability_names : List String
  pub reconcile :
      Machine → PendingAction → CapabilityDefinition → ToolDefinition → Option String → Reconciled

-- A provider of arguments, given the same history, the decision, its capability and tool; it may raise.
pub record ArgumentProvider : Type 0 where
  pub capability_names : List String
  pub provide :
      Machine → Decision → CapabilityDefinition → ToolDefinition → Result String JsonMapping

-- The fields of an `ActionExecutor`, and what lies behind them: the plugins of the domains, the
-- sandbox, the journal of events, the tools, the clock and the codecs.
pub record ActionExecutor : Type 0 where
  pub capabilities : Capabilities
  pub tools : Tools
  pub policy_engine : PolicyEngine
  pub environment : JsonMapping
  pub argument_providers : Option DomainIdentity → List ArgumentProvider
  pub reconcilers : Option DomainIdentity → List Reconciler
  pub sandbox : Option (SandboxActionContext → Result String SandboxResult)
  -- the exception of an `emit`, if it raises one, and whether the task is cancelled while a tool runs
  pub emit_raises : String → Machine → Option ActionError
  pub is_interrupted : ToolCall → Machine → Bool
  pub answer : Machine → ToolDefinition → JsonMapping → ToolAnswer
  pub resolve_secret_arguments : JsonMapping → Result String JsonMapping
  pub validate_tool_arguments : ToolDefinition → JsonMapping → Option String
  pub new_action_id : Machine → String
  pub new_observation_id : Machine → String
  pub utc_now : Machine → ℕ
  pub dumps_json : JsonMapping → String
  pub sha256_hexdigest : String → String
  pub redact_sensitive_mapping : JsonMapping → JsonMapping
  pub redact_sensitive_text : String → String
