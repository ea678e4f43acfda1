-- ===== src/Capability/Registry.antt =====
-- `CapabilityRegistry` and `CapabilityResolver` of src/universal_agent/capability/registry.py.
use Prim.Native.String.{◌++◌}
use universal_agent.Prelude.{
  String, Bool, false, not, ◌&&◌, ◌||◌, Option, none, some, List, [], ◌∷◌, map, if◌then◌else◌, ok,
  raised, Result, Method, ◌==◌, String_eq, ℕ_eq,
}
use universal_agent.Prelude.Text.{is_blank, text_leb}
use universal_agent.Prelude.Dict.{Dict, get, has, put, values}
use universal_agent.Core.Models.{CapabilityDefinition, DomainIdentity}
use universal_agent.Prelude.Int.{leb_ℤ}
use universal_agent.Tools.Registry.{Tools, ToolRegistration, registrations_for_capability}

-- `ValueError`, `DuplicateCapabilityError`, `UnknownCapabilityError` and `CapabilityUnavailableError`.
pub data CapabilityError : Type 0 where
  value_error duplicate_capability unknown_capability capability_unavailable :
      String → CapabilityError

pub record CapabilityRegistration : Type 0 where
  pub definition : CapabilityDefinition
  pub domain_identity : Option DomainIdentity

pub record CapabilityResolution : Type 0 where
  pub capability : CapabilityDefinition
  pub tool : ToolRegistration
  pub capability_domain : Option DomainIdentity
  pub tool_domain : Option DomainIdentity

abbrev pub Capabilities : Type 0
Capabilities = Dict CapabilityRegistration

unfoldable pub register_capability :
    CapabilityDefinition → Option DomainIdentity → Method CapabilityError Capabilities Unit
register_capability capability domain_identity capabilities =
    if is_blank capability.name
    then (raised (value_error "capability name must not be empty"), capabilities)
    else if has capabilities capability.name
    then (
      raised (duplicate_capability ("capability already registered: " ++ capability.name)),
      capabilities,
    )
    else (
      ok tt,
      put capabilities capability.name
          (record { definition = capability; domain_identity = domain_identity }),
    )

-- `CapabilityRegistry.resolve_registration`
unfoldable pub resolve_capability :
    Capabilities → String → Result CapabilityError CapabilityRegistration
resolve_capability capabilities name = elim (get capabilities name) [
  | none ↦ raised (unknown_capability ("unknown capability: " ++ name))
  | some registration ↦ ok registration
]

-- `sorted(self._capabilities.values(), key=lambda item: item.definition.name)`
unfoldable pub insert_capability :
    CapabilityRegistration → List CapabilityRegistration → List CapabilityRegistration
insert_capability c [] = c ∷ []
insert_capability c (d ∷ rest) =
    let others = insert_capability c rest in
    if text_leb c.definition.name d.definition.name then c ∷ d ∷ rest else d ∷ others

unfoldable pub sort_capabilities : List CapabilityRegistration → List CapabilityRegistration
unfolding insert_capability
sort_capabilities [] = []
sort_capabilities (c ∷ rest) = insert_capability c (sort_capabilities rest)

-- `CapabilityRegistry.all`
unfoldable pub all_capabilities : Capabilities → List CapabilityDefinition
all_capabilities capabilities = map (λ c. c.definition) (sort_capabilities (values capabilities))

-- `(priority, name) < (priority, name)`: whether `a` goes before `b`.
unfoldable pub goes_before : ToolRegistration → ToolRegistration → Bool
goes_before a b =
    not (leb_ℤ b.definition.priority a.definition.priority)
    || (leb_ℤ a.definition.priority b.definition.priority
        && not (text_leb b.definition.name a.definition.name))

-- `min(candidates, key=...)`: the first of the least.
unfoldable pub least : ToolRegistration → List ToolRegistration → ToolRegistration
least best [] = best
least best (t ∷ rest) = least (if goes_before t best then t else best) rest

abbrev pub same_identity : DomainIdentity → DomainIdentity → Bool
same_identity a b = (a.name == b.name) && (a.version == b.version)

-- Whether `_validate_domain_match` raises.
unfoldable pub is_domain_mismatch : Option DomainIdentity → Option DomainIdentity → Bool
is_domain_mismatch none _ = false
is_domain_mismatch (some a) none = false
is_domain_mismatch (some a) (some b) = not (same_identity a b)

abbrev pub identity_text : Option DomainIdentity → String
identity_text none = ""
identity_text (some d) = d.name ++ ("@" ++ d.version)

abbrev pub mismatch : CapabilityRegistration → ToolRegistration → CapabilityError
mismatch capability tool = capability_unavailable (
    "capability tool domain mismatch: "
    ++ (capability.definition.name
        ++ (" belongs to "
            ++ (identity_text capability.domain_identity
                ++ (", but tool "
                    ++ (tool.definition.name
                        ++ (" belongs to " ++ identity_text tool.domain_identity)))))))

unfoldable pub validated :
    CapabilityRegistration → ToolRegistration → Result CapabilityError CapabilityResolution
unfolding is_domain_mismatch
validated capability tool =
    if is_domain_mismatch capability.domain_identity tool.domain_identity
    then raised (mismatch capability tool)
    else ok (record {
      capability = capability.definition;
      tool = tool;
      capability_domain = capability.domain_identity;
      tool_domain = tool.domain_identity;
    })

unfoldable pub choose :
    String
    → CapabilityRegistration
    → List ToolRegistration
    → Result CapabilityError CapabilityResolution
unfolding least validated
choose name capability [] =
    raised (capability_unavailable ("no tool implements capability: " ++ name))
choose name capability (t ∷ rest) = validated capability (least t rest)

-- `CapabilityResolver.resolve_registration`
unfoldable pub resolve_registration :
    Capabilities → Tools → String → Result CapabilityError CapabilityResolution
unfolding choose
resolve_registration capabilities tools name = elim (resolve_capability capabilities name) [
  | raised x ↦ raised x
  | ok capability ↦ choose name capability (registrations_for_capability tools name)
]
