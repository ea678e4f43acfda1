-- ===== src/Tools/Registry.antt =====
-- `ToolRegistry` of src/universal_agent/tools/runtime.py. A registered tool is its definition; what
-- its `execute` answers is a parameter of the runtime that calls it.
use Prim.Native.String.{◌++◌}
use universal_agent.Prelude.{
  String, Bool, Option, none, some, List, [], ◌∷◌, filter, contains, is_empty, if◌then◌else◌, ok,
  raised, Result, Method, String_eq,
}
use universal_agent.Prelude.Text.{is_blank, text_leb}
use universal_agent.Prelude.Dict.{Dict, get, has, put, values}
use universal_agent.Core.Models.{DomainIdentity, ToolDefinition}

-- `ValueError`, `DuplicateToolError` and `UnknownToolError`, with their messages.
pub data ToolError : Type 0 where
  value_error duplicate_tool unknown_tool : String → ToolError

pub record ToolRegistration : Type 0 where
  pub definition : ToolDefinition
  pub domain_identity : Option DomainIdentity

abbrev pub Tools : Type 0
Tools = Dict ToolRegistration

unfoldable pub register_tool : ToolDefinition → Option DomainIdentity → Method ToolError Tools Unit
register_tool definition domain_identity tools =
    if is_blank definition.name
    then (raised (value_error "tool name must not be empty"), tools)
    else if is_empty definition.capabilities
    then (
      raised (value_error ("tool must implement at least one capability: " ++ definition.name)),
      tools,
    )
    else if has tools definition.name
    then (raised (duplicate_tool ("tool already registered: " ++ definition.name)), tools)
    else (
      ok tt,
      put tools definition.name
          (record { definition = definition; domain_identity = domain_identity }),
    )

unfoldable pub resolve_tool : Tools → String → Result ToolError ToolRegistration
resolve_tool tools name = elim (get tools name) [
  | none ↦ raised (unknown_tool ("unknown tool: " ++ name))
  | some registration ↦ ok registration
]

abbrev pub implements : String → ToolRegistration → Bool
implements capability registration = contains registration.definition.capabilities capability

unfoldable pub registrations_for_capability : Tools → String → List ToolRegistration
registrations_for_capability tools capability = filter (implements capability) (values tools)

-- `sorted(self._tools.values(), key=lambda item: item.tool.definition.name)`
unfoldable pub insert_tool : ToolRegistration → List ToolRegistration → List ToolRegistration
insert_tool t [] = t ∷ []
insert_tool t (u ∷ rest) =
    let others = insert_tool t rest in
    if text_leb t.definition.name u.definition.name then t ∷ u ∷ rest else u ∷ others

unfoldable pub sort_tools : List ToolRegistration → List ToolRegistration
unfolding insert_tool
sort_tools [] = []
sort_tools (t ∷ rest) = insert_tool t (sort_tools rest)

unfoldable pub all_tools : Tools → List ToolRegistration
all_tools tools = sort_tools (values tools)
