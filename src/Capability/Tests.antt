-- ===== src/Capability/Tests.antt =====
-- The choice between two tools.
use universal_agent.Prelude.{◌≡◌, refl, ℕ, String, none, [], ◌∷◌, ok}
use universal_agent.Prelude.Text.{is_blank}
use universal_agent.Prelude.Int.{pos}
use universal_agent.Prelude.Dict.{get, has, put, values}
use universal_agent.Core.Json.{JsonMapping}
use universal_agent.Core.Enums.{CapabilityCategory, RiskLevel, SideEffect}
use universal_agent.Core.Models.{CapabilityDefinition, ToolDefinition}
use universal_agent.Tools.Registry.{Tools, register_tool, registrations_for_capability}
use universal_agent.Capability.Registry.{
  Capabilities, CapabilityResolution, register_capability, resolve_registration, resolve_capability,
  goes_before,
}
use universal_agent.Capability.Choice.{Resolved, resolve_registration-Resolved}

abbrev tool : String → ℕ → ToolDefinition
tool name priority = record {
  name = name;
  description = "reads";
  capabilities = "read" ∷ [];
  required_arguments = [];
  side_effect = SideEffect.none;
  risk = RiskLevel.low;
  priority = pos priority;
  argument_schema = JsonMapping.end;
}

abbrev read : CapabilityDefinition
read = record {
  name = "read";
  description = "reads";
  category = CapabilityCategory.observation;
  risk = RiskLevel.low;
}

tools : Tools
unfolding register_tool
tools = (register_tool (tool "fast" 10) none (register_tool (tool "slow" 20) none []).1).1

capabilities : Capabilities
unfolding register_capability
capabilities = (register_capability read none []).1

abbrev fast : CapabilityResolution
fast = record {
  capability = read;
  tool = record { definition = tool "fast" 10; domain_identity = none };
  capability_domain = none;
  tool_domain = none;
}

fast-chosen : resolve_registration capabilities tools "read" ≡ ok fast
unfolding resolve_registration tools capabilities resolve_capability get is_blank has put
    registrations_for_capability values goes_before
fast-chosen = refl

-- Of two tools, the one of the smaller priority.
resolve_registration-Resolved_example : Resolved capabilities tools "read" fast
resolve_registration-Resolved_example =
    resolve_registration-Resolved capabilities tools "read" fast fast-chosen
