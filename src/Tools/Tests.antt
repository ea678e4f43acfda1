-- ===== src/Tools/Tests.antt =====
-- A tool at work.
use universal_agent.Prelude.Int.{pos}
use universal_agent.Prelude.{◌≡◌, refl, String, none, [], ◌∷◌, Option, Result, ok}
use universal_agent.Prelude.Text.{is_blank}
use universal_agent.Prelude.Dict.{get, has, put}
use universal_agent.Core.Json.{JsonMapping}
use universal_agent.Core.Enums.{RiskLevel, SideEffect}
use universal_agent.Core.Models.{ToolCall, ToolDefinition}
use universal_agent.Tools.Registry.{Tools, register_tool, resolve_tool}
use universal_agent.Tools.Invoke.{ToolAnswer, output, execute_tool, answer_result}
use universal_agent.Tools.Contract.{success}

abbrev reader : ToolDefinition
reader = record {
  name = "reader";
  description = "reads";
  capabilities = "read" ∷ [];
  required_arguments = [];
  side_effect = SideEffect.none;
  risk = RiskLevel.low;
  priority = pos 100;
  argument_schema = JsonMapping.end;
}

tools : Tools
unfolding register_tool
tools = (register_tool reader none []).1

abbrev call : ToolCall
call = record {
  action_id = "a";
  tool_name = "reader";
  capability = "read";
  arguments = JsonMapping.end;
  target = none;
  domain_name = "";
  domain_version = "";
  idempotency_key = "k";
  parameters_hash = "h";
  attempt = 1;
  resource_key = "";
  resource_version = none;
}

abbrev answer : ToolDefinition → JsonMapping → ToolAnswer
answer definition arguments = output arguments

abbrev resolve : JsonMapping → Result String JsonMapping
resolve arguments = ok arguments

abbrev valid : ToolDefinition → JsonMapping → Option String
valid definition arguments = none

call-succeeds : execute_tool answer resolve valid tools call ≡ success JsonMapping.end
unfolding tools execute_tool resolve_tool get is_blank has put answer_result
call-succeeds = refl
