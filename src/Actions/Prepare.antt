-- ===== src/Actions/Prepare.antt =====
-- `ActionExecutor.prepare`: from a decision to an action, src/universal_agent/runtime/actions.py.
use universal_agent.Prelude.{
  String, Bool, true, false, not, ◌&&◌, ◌||◌, Option, none, some, List, [], ◌∷◌, contains, is_empty,
  if◌then◌else◌, ok, raised, return, throw, ◌>>=◌, ◌>>◌, ◌==◌, String_eq, Result, gets,
}
use universal_agent.Prelude.Text.{is_empty_text}
use universal_agent.Core.Json.{JsonValue, JsonMapping}
use universal_agent.Core.Enums.{ErrorCode}
use universal_agent.Core.Models.{
  CapabilityDefinition, Decision, DomainIdentity, PendingAction, ToolDefinition,
}
use universal_agent.Capability.Registry.{
  CapabilityError, CapabilityResolution, resolve_registration,
}
use universal_agent.Actions.Models.{
  ActionOutcome, ActionMethod, ActionExecutor, ArgumentProvider, Machine, rejected, failed,
}
use universal_agent.Actions.Identity.{
  action_parameters_hash, idempotency_key, is_pure, or_empty, resource_metadata,
}
use universal_agent.Actions.Resources.{emit}
use universal_agent.Actions.Execute.{execute, needs_identity, capability_message}

-- `key in arguments`
unfoldable pub has_member : JsonMapping → String → Bool
has_member JsonMapping.end key = false
has_member (JsonMapping.field k v rest) key = k == key || has_member rest key

-- `arguments[key] = value` for a new key.
unfoldable pub add_member : JsonMapping → String → JsonValue → JsonMapping
add_member JsonMapping.end key value = JsonMapping.field key value JsonMapping.end
add_member (JsonMapping.field k v rest) key value =
    JsonMapping.field k v (add_member rest key value)

-- The loop over `provided.items()`: the arguments, and whether a name was added.
unfoldable pub add_provided : JsonMapping → JsonMapping × Bool → JsonMapping × Bool
unfolding has_member add_member
add_provided JsonMapping.end (arguments, added) = (arguments, added)
add_provided (JsonMapping.field key value rest) (arguments, added) =
    if has_member arguments key
    then add_provided rest (arguments, added)
    else add_provided rest (add_member arguments key value, true)

-- `provider.capability_names and decision.capability not in provider.capability_names`
abbrev pub is_skipped : ArgumentProvider → Decision → Bool
is_skipped provider decision = elim decision.capability [
  | none ↦ not (is_empty provider.capability_names)
  | some name ↦
      not (is_empty provider.capability_names) && not (contains provider.capability_names name)
]

-- What follows the answer of a provider, with the rest of the loop.
unfoldable pub after_provided :
    Result String JsonMapping
    → (JsonMapping × Bool → ActionMethod (JsonMapping × Bool))
    → JsonMapping × Bool
    → ActionMethod (JsonMapping × Bool)
unfolding add_provided
after_provided (raised x) others found = throw (failed x)
after_provided (ok provided) others found = others (add_provided provided found)

-- The loop of `_enrich_decision_arguments`.
unfoldable pub enrich_each :
    List ArgumentProvider
    → Decision
    → CapabilityDefinition
    → ToolDefinition
    → JsonMapping × Bool
    → ActionMethod (JsonMapping × Bool)
unfolding after_provided
enrich_each [] decision capability tool found = return found
enrich_each (p ∷ rest) decision capability tool found =
    let others = enrich_each rest decision capability tool in
    if is_skipped p decision
    then others found
    else gets (λ m. p.provide m (record decision { arguments = found.0 }) capability tool)
      >>= λ provided. after_provided provided others found

abbrev pub domain_name : Option DomainIdentity → String
domain_name none = ""
domain_name (some d) = d.name

abbrev pub domain_version : Option DomainIdentity → String
domain_version none = ""
domain_version (some d) = d.version

module _ (c : ActionExecutor) where
  -- `_enrich_decision_arguments`: the decision, and whether an argument was added.
  unfoldable pub enrich_decision_arguments :
      Decision
      → CapabilityDefinition
      → ToolDefinition
      → Option DomainIdentity
      → ActionMethod (Decision × Bool)
  unfolding enrich_each
  enrich_decision_arguments decision capability tool domain = do
    (arguments, added) ←
        enrich_each (c.argument_providers domain) decision capability tool
          (decision.arguments, false)
    return (if added then record decision { arguments = arguments } else decision, added)

  -- The action for a decision whose arguments are complete.
  unfoldable pub pending_action : CapabilityResolution → Decision → Machine → PendingAction
  unfolding resource_metadata
  pending_action resolution decision m =
      let hash = action_parameters_hash c.dumps_json c.sha256_hexdigest decision in
      let (key, version) =
        resource_metadata resolution.tool.definition.side_effect resolution.capability.name
          decision.target decision.arguments in
      record {
        action_id = c.new_action_id m;
        capability = resolution.capability.name;
        tool_name = resolution.tool.definition.name;
        target = decision.target;
        arguments = decision.arguments;
        domain_name = domain_name resolution.capability_domain;
        domain_version = domain_version resolution.capability_domain;
        idempotency_key =
            idempotency_key m.session.state.session_id m.session.state.current_task hash;
        parameters_hash = hash;
        attempt = 1;
        resource_key = key;
        resource_version = version;
      }

  -- The events of a new action, and its execution.
  unfoldable pub announce : PendingAction → Bool → ActionMethod ActionOutcome
  announce pending enriched = do
    if enriched then emit c "ActionArgumentsEnriched" pending else return tt
    emit c "CapabilityResolved" pending
    execute c pending false

  -- The part behind the enrichment.
  unfoldable pub prepare_enriched :
      CapabilityResolution → Decision × Bool → ActionMethod ActionOutcome
  unfolding pending_action announce
  prepare_enriched resolution (decision, enriched) m =
      let pending = pending_action resolution decision m in
      if not (is_pure resolution.tool.definition.side_effect) && is_empty_text pending.resource_key
      then (ok (rejected ErrorCode.validation_error needs_identity), m)
      else announce pending enriched m

  unfoldable pub prepare_resolved : CapabilityResolution → Decision → ActionMethod ActionOutcome
  unfolding enrich_decision_arguments prepare_enriched
  prepare_resolved resolution decision = do
    enriched ←
        enrich_decision_arguments decision resolution.capability resolution.tool.definition
          resolution.capability_domain
    prepare_enriched resolution enriched

  -- What follows the resolution, which raises no other error than the two handled.
  unfoldable pub prepare_found :
      Result CapabilityError CapabilityResolution → Decision → ActionMethod ActionOutcome
  unfolding prepare_resolved
  prepare_found (raised (CapabilityError.unknown_capability x)) decision =
      return (rejected ErrorCode.unknown_capability x)
  prepare_found (raised (CapabilityError.capability_unavailable x)) decision =
      return (rejected ErrorCode.no_capability_tool x)
  prepare_found (raised x) decision = throw (failed (capability_message x))
  prepare_found (ok resolution) decision = prepare_resolved resolution decision

  -- `prepare`
  unfoldable pub prepare : Decision → ActionMethod ActionOutcome
  unfolding prepare_found
  prepare decision =
      prepare_found (resolve_registration c.capabilities c.tools (or_empty decision.capability))
        decision
