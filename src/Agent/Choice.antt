-- ===== src/Agent/Choice.antt =====
-- What the model may choose and whether its choice is accepted, src/universal_agent/runtime:
-- capabilities.py, controls.py and decision.py.
use Prim.Native.String.{◌++◌}
use universal_agent.Prelude.{
  String, Bool, true, false, not, ◌&&◌, ◌||◌, Option, none, some, List, [], ◌∷◌, any, contains,
  filter, find?, map, if◌then◌else◌, Result, ok, raised, ◌==◌, String_eq,
}
use universal_agent.Core.Json.{JsonMapping, is_empty_mapping}
use universal_agent.Core.Enums.{DecisionType, ErrorCode}
use universal_agent.Core.Models.{
  AgentState, CapabilityDefinition, CapabilityInputContract, Decision, ToolDefinition,
}
use universal_agent.Core.Decisions.{is_some}
use universal_agent.Tools.Registry.{Tools}
use universal_agent.Capability.Registry.{
  Capabilities, CapabilityError, CapabilityResolution, CapabilityRegistration, all_capabilities,
  resolve_capability, resolve_registration,
}
use universal_agent.Actions.Identity.{is_mutation, or_empty}
use universal_agent.Actions.Execute.{capability_message}

abbrev pub is_execute : DecisionType → Bool
is_execute DecisionType.execute = true
is_execute _ = false

abbrev pub is_finish : DecisionType → Bool
is_finish DecisionType.finish = true
is_finish _ = false

-- `normalize_runtime_decision`
unfoldable pub normalize_runtime_decision : Decision → Decision
normalize_runtime_decision decision =
    if not (is_finish decision.type)
    then decision
    else if not (is_some decision.capability)
        && (not (is_some decision.target) && is_empty_mapping decision.arguments)
    then decision
    else record decision {
      capability = none;
      target = none;
      arguments = JsonMapping.end;
      expected_observations = [];
    }

abbrev pub contract_of : CapabilityDefinition → ToolDefinition → CapabilityInputContract
contract_of capability tool = record {
  capability = capability.name;
  required_arguments = tool.required_arguments;
  argument_schema = tool.argument_schema;
}

-- The body of the loop of `CapabilityAdvisor.context`, with the rest of the loop.
unfoldable pub with_resolved :
    CapabilityDefinition
    → Result CapabilityError CapabilityResolution
    → List CapabilityDefinition × List CapabilityInputContract
    → List CapabilityDefinition × List CapabilityInputContract
with_resolved capability (raised x) rest = rest
with_resolved capability (ok resolution) (executable, contracts) =
    (capability ∷ executable, contract_of capability resolution.tool.definition ∷ contracts)

unfoldable pub context_of :
    Capabilities
    → Tools
    → List CapabilityDefinition
    → List CapabilityDefinition × List CapabilityInputContract
unfolding with_resolved
context_of capabilities tools [] = ([], [])
context_of capabilities tools (capability ∷ rest) =
    with_resolved capability (resolve_registration capabilities tools capability.name)
      (context_of capabilities tools rest)

-- `CapabilityAdvisor.context`
unfoldable pub capability_context :
    Capabilities → Tools → List CapabilityDefinition × List CapabilityInputContract
unfolding context_of
capability_context capabilities tools =
    context_of capabilities tools (all_capabilities capabilities)

abbrev pub allowed_names : List CapabilityDefinition → List String
allowed_names capabilities = map (λ c. c.name) (filter (λ c. not (is_mutation c)) capabilities)

-- `constrain_capability_context`
unfoldable pub constrain_capability_context :
    AgentState String
    → List CapabilityDefinition × List CapabilityInputContract
    → List CapabilityDefinition × List CapabilityInputContract
constrain_capability_context state (capabilities, contracts) =
    if not state.read_only then (capabilities, contracts) else (
      filter (λ c. contains (allowed_names capabilities) c.name) capabilities,
      filter (λ c. contains (allowed_names capabilities) c.capability) contracts,
    )

abbrev pub denied_reason : CapabilityDefinition → String
denied_reason capability =
    "read-only session cannot execute mutation capability: " ++ capability.name

-- `validate_session_constraints`
unfoldable pub validate_session_constraints :
    AgentState String → Decision → List CapabilityDefinition → Option (ErrorCode × String)
validate_session_constraints state decision capabilities =
    if not state.read_only || not (is_execute decision.type)
    then none
    else elim (find? (λ c. c.name == or_empty decision.capability) capabilities) [
      | none ↦ none
      | some capability ↦
          if not (is_mutation capability)
          then none
          else some (ErrorCode.policy_denied, denied_reason capability)
    ]

-- `{item.capability: item for item in input_contracts}.get(capability)`: the last one counts.
unfoldable pub last_contract :
    List CapabilityInputContract → String → Option CapabilityInputContract
last_contract [] capability = none
last_contract (c ∷ rest) capability =
    let later = last_contract rest capability in
    elim later [
      | some found ↦ some found
      | none ↦ if c.capability == capability then some c else none
    ]

-- The check of the arguments against the contract.
unfoldable pub argument_error :
    (CapabilityInputContract → JsonMapping → Option String)
    → String
    → JsonMapping
    → Option CapabilityInputContract
    → Option (ErrorCode × String)
argument_error validate capability arguments none = none
argument_error validate capability arguments (some contract) = elim (validate contract arguments) [
  | none ↦ none
  | some x ↦ some (
    ErrorCode.validation_error,
    "invalid decision arguments for capability " ++ (capability ++ (": " ++ x)),
  )
]

-- The error for a capability that the context lacks.
unfoldable pub missing_capability :
    String → Result CapabilityError CapabilityRegistration → Option (ErrorCode × String)
missing_capability capability (raised x) = some (ErrorCode.unknown_capability, capability_message x)
missing_capability capability (ok found) = some (
  ErrorCode.no_capability_tool,
  "capability is not executable in current context: " ++ capability,
)

-- `CapabilityAdvisor.validate_decision_context`
unfoldable pub validate_decision_context :
    (CapabilityInputContract → JsonMapping → Option String)
    → Capabilities
    → Decision
    → List CapabilityDefinition × List CapabilityInputContract
    → Option (ErrorCode × String)
unfolding last_contract argument_error missing_capability
validate_decision_context validate registry decision (capabilities, contracts) =
    let capability = or_empty decision.capability in
    if not (is_execute decision.type)
    then none
    else if any (λ c. c.name == capability) capabilities
    then argument_error validate capability decision.arguments (last_contract contracts capability)
    else missing_capability capability (resolve_capability registry capability)
