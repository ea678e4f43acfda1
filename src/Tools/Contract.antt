-- ===== src/Tools/Contract.antt =====
-- When a tool has run.
use universal_agent.Prelude.{◌⊎◌, Mem}
use universal_agent.Core.Models.{DomainIdentity}
use universal_agent.Prelude.{◌≡◌, String, Option, none, some, Result, ok}
use universal_agent.Prelude.Dict.{get}
use universal_agent.Core.Json.{JsonMapping}
use universal_agent.Core.Enums.{ObservationStatus}
use universal_agent.Core.Models.{ToolCall, ToolDefinition, ToolResult}
use universal_agent.Tools.Registry.{Tools, ToolRegistration}
use universal_agent.Tools.Invoke.{
  ToolAnswer, output, execute_tool, execute_registered, execute_with,
}

-- Where the tool has a domain, the call names it, or it names none.
abbrev pub Agrees : Option DomainIdentity → ToolCall → Type 0
Agrees identity call =
    (d : DomainIdentity)
    → identity ≡ some d
    → ((call.domain_name ≡ "") × (call.domain_version ≡ ""))
      ⊎ ((call.domain_name ≡ d.name) × (call.domain_version ≡ d.version))

-- A call that passed every check and was answered with an output.
pub record Passed (answer : ToolDefinition → JsonMapping → ToolAnswer)
    (resolve_secret_arguments : JsonMapping → Result String JsonMapping)
    (validate_tool_arguments : ToolDefinition → JsonMapping → Option String) (tools : Tools)
    (call : ToolCall) (values : JsonMapping) : Type 0 where
  pub registration : ToolRegistration
  pub found : get tools call.tool_name ≡ some registration
  pub same_domain : Agrees registration.domain_identity call
  pub implemented : Mem call.capability registration.definition.capabilities
  pub arguments : JsonMapping
  pub resolved : resolve_secret_arguments call.arguments ≡ ok arguments
  pub valid : validate_tool_arguments registration.definition arguments ≡ none
  pub answered : answer registration.definition arguments ≡ output values

-- The result of a call that succeeds.
abbrev pub success : JsonMapping → ToolResult
success values = record {
  status = ObservationStatus.succeeded;
  output = values;
  error = none;
  error_code = none;
}

module _ (answer : ToolDefinition → JsonMapping → ToolAnswer)
    (resolve_secret_arguments : JsonMapping → Result String JsonMapping)
    (validate_tool_arguments : ToolDefinition → JsonMapping → Option String) (tools : Tools)
    (call : ToolCall) where
  abbrev run : ToolResult
  run = execute_tool answer resolve_secret_arguments validate_tool_arguments tools call

  abbrev run_registered : ToolRegistration → ToolResult
  run_registered r =
      execute_registered answer resolve_secret_arguments validate_tool_arguments r call

  abbrev run_with : ToolRegistration → Result String JsonMapping → ToolResult
  run_with r arguments =
      execute_with answer resolve_secret_arguments validate_tool_arguments r.definition
        call.tool_name arguments
