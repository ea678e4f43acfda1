-- ===== src/Tools/Invoke.antt =====
-- `ToolRuntime.execute` of src/universal_agent/tools/runtime.py. The tool itself, the resolution of
-- secrets and the argument contract (a JSON schema) are parameters.
use Prim.Native.String.{◌++◌}
use universal_agent.Prelude.{
  String, Bool, false, not, ◌&&◌, ◌||◌, Option, none, some, if◌then◌else◌, Result, ok, raised, ◌==◌,
  String_eq,
}
use universal_agent.Prelude.Text.{is_empty_text}
use universal_agent.Core.Json.{JsonMapping}
use universal_agent.Core.Enums.{ObservationStatus, ErrorCode}
use universal_agent.Core.Models.{DomainIdentity, ToolCall, ToolDefinition, ToolResult}
use universal_agent.Tools.Registry.{
  Tools, ToolError, ToolRegistration, value_error, duplicate_tool, unknown_tool, resolve_tool,
  implements,
}

-- What the `execute` of a tool gives: its output, a timeout, `UncertainToolExecutionError`,
-- `ToolPermissionError` or any other exception, with the exception's text.
pub data ToolAnswer : Type 0 where
  output : JsonMapping → ToolAnswer
  timed_out : ToolAnswer
  uncertain denied crashed : String → ToolAnswer

abbrev pub error_message : ToolError → String
error_message (value_error x) = x
error_message (duplicate_tool x) = x
error_message (unknown_tool x) = x

abbrev pub failed_result : ObservationStatus → String → ErrorCode → ToolResult
failed_result status error error_code = record {
  status = status;
  output = JsonMapping.end;
  error = some error;
  error_code = some error_code;
}

unfoldable pub answer_result : String → ToolAnswer → ToolResult
answer_result tool_name (output values) = record {
  status = ObservationStatus.succeeded;
  output = values;
  error = none;
  error_code = none;
}
answer_result tool_name timed_out =
    failed_result ObservationStatus.timed_out ("tool timed out: " ++ tool_name) ErrorCode.timeout
answer_result tool_name (uncertain x) =
    failed_result ObservationStatus.unknown ("tool outcome unknown: " ++ x)
      ErrorCode.unknown_execution
answer_result tool_name (denied x) =
    failed_result ObservationStatus.failed ("tool denied: " ++ x) ErrorCode.permission_denied
answer_result tool_name (crashed x) =
    failed_result ObservationStatus.failed ("tool failed: " ++ x) ErrorCode.tool_failure

-- Whether a call that names a domain names another one than the tool's.
abbrev pub is_other_domain : Option DomainIdentity → ToolCall → Bool
is_other_domain none call = false
is_other_domain (some identity) call =
    (not (is_empty_text call.domain_name) || not (is_empty_text call.domain_version))
    && (not (call.domain_name == identity.name) || not (call.domain_version == identity.version))

abbrev pub domain_text : Option DomainIdentity → String
domain_text none = ""
domain_text (some identity) = identity.name ++ ("@" ++ identity.version)

module _ (answer : ToolDefinition → JsonMapping → ToolAnswer)
    (resolve_secret_arguments : JsonMapping → Result String JsonMapping)
    (validate_tool_arguments : ToolDefinition → JsonMapping → Option String) where
  -- The part behind the checks of the call, with the secrets resolved.
  unfoldable pub execute_with : ToolDefinition → String → Result String JsonMapping → ToolResult
  execute_with definition tool_name (raised x) =
      failed_result ObservationStatus.failed x ErrorCode.validation_error
  execute_with definition tool_name (ok arguments) =
      elim (validate_tool_arguments definition arguments) [
        | some x ↦ failed_result ObservationStatus.failed x ErrorCode.validation_error
        | none ↦ answer_result tool_name (answer definition arguments)
      ]

  unfoldable pub execute_registered : ToolRegistration → ToolCall → ToolResult
  execute_registered registration call =
      if is_other_domain registration.domain_identity call
      then failed_result ObservationStatus.failed
          ("tool domain mismatch: "
            ++ (call.domain_name
                ++ ("@"
                    ++ (call.domain_version
                        ++ (" != " ++ domain_text registration.domain_identity)))))
          ErrorCode.validation_error
      else if not (implements call.capability registration)
      then failed_result ObservationStatus.failed
          ("tool does not implement capability: " ++ call.capability) ErrorCode.validation_error
      else execute_with registration.definition call.tool_name
          (resolve_secret_arguments call.arguments)

  unfoldable pub execute_tool : Tools → ToolCall → ToolResult
  unfolding execute_registered execute_with
  execute_tool tools call = elim (resolve_tool tools call.tool_name) [
    | raised x ↦ failed_result ObservationStatus.failed (error_message x) ErrorCode.unknown_tool
    | ok registration ↦ execute_registered registration call
  ]
