-- ===== src/Actions/Identity.antt =====
-- Which action and which resource a decision is about, src/universal_agent/runtime/actions.py.
use Prim.Native.String.{◌++◌}
use universal_agent.Prelude.{
  ℕ, zero, suc, ◌-◌, String, Bool, true, false, not, ◌&&◌, ◌||◌, Option, none, some, List, [], ◌∷◌,
  ◌++◌ as append, filter, length, if◌then◌else◌, ◌==◌, String_eq,
}
use universal_agent.Prelude.Int.{ℤ, pos, negsuc}
use universal_agent.Prelude.Text.{is_blank, is_empty_text, strip, decimal, prefix}
use universal_agent.Core.Json.{JsonValue, JsonMapping}
use universal_agent.Core.Enums.{SideEffect, CapabilityCategory, PolicyEffect}
use universal_agent.Core.Models.{
  AgentState, CapabilityDefinition, Decision, DomainIdentity, PendingAction, PolicyResult, ToolCall,
  ToolDefinition,
}

-- `arguments.get(key)`
unfoldable pub member : JsonMapping → String → Option JsonValue
member JsonMapping.end key = none
member (JsonMapping.field k v rest) key = if k == key then some v else member rest key

-- A value that is a text and not blank, stripped.
unfoldable pub stripped_text : Option JsonValue → Option String
stripped_text (some (JsonValue.text t)) = if is_blank t then none else some (strip t)
stripped_text _ = none

-- The first of the keys whose value is such a text.
unfoldable pub first_text : List String → JsonMapping → Option String
unfolding stripped_text member
first_text [] arguments = none
first_text (key ∷ rest) arguments =
    let others = first_text rest arguments in
    elim (stripped_text (member arguments key)) [ some t ↦ some t | none ↦ others ]

-- The part of `_resource_key` behind its loop.
unfoldable pub named_key : String → JsonMapping → String
named_key capability arguments = elim (stripped_text (member arguments "name")) [
  | none ↦ ""
  | some name ↦ elim (stripped_text (member arguments "namespace")) [
    | some namespace ↦ namespace ++ ("/" ++ name)
    | none ↦ capability ++ (":" ++ name)
  ]
]

abbrev pub stripped_target : Option String → Option String
stripped_target none = none
stripped_target (some t) = if is_blank t then none else some (strip t)

-- `_resource_key`
unfoldable pub resource_key : String → Option String → JsonMapping → String
unfolding first_text named_key
resource_key capability target arguments = elim (stripped_target target) [
  | some t ↦ t
  | none ↦ elim (first_text ("resource_key" ∷ "resource" ∷ "target" ∷ "id" ∷ []) arguments) [
    | some t ↦ t
    | none ↦ named_key capability arguments
  ]
]

-- `str(value)`
abbrev pub int_text : ℤ → String
int_text (pos n) = decimal n
int_text (negsuc n) = "-" ++ decimal (suc n)

-- A value that is a text and not blank, or a number that is no Boolean.
unfoldable pub version_text : Option JsonValue → Option String
version_text (some (JsonValue.text t)) = if is_blank t then none else some (strip t)
version_text (some (JsonValue.int n)) = some (int_text n)
version_text _ = none

-- The loop of `_resource_version`.
unfoldable pub first_version : List String → JsonMapping → Option String
unfolding version_text member
first_version [] arguments = none
first_version (key ∷ rest) arguments =
    let others = first_version rest arguments in
    elim (version_text (member arguments key)) [ some t ↦ some t | none ↦ others ]

-- `_resource_version`
unfoldable pub resource_version : JsonMapping → Option String
resource_version arguments =
    first_version ("resource_version" ∷ "resourceVersion" ∷ "version" ∷ "revision" ∷ []) arguments

abbrev pub is_pure : SideEffect → Bool
is_pure SideEffect.none = true
is_pure _ = false

-- `_resource_metadata`
unfoldable pub resource_metadata :
    SideEffect → String → Option String → JsonMapping → String × Option String
unfolding resource_key resource_version
resource_metadata side_effect capability target arguments =
    if is_pure side_effect
    then ("", none)
    else (resource_key capability target arguments, resource_version arguments)

-- `_ensure_resource_metadata`
unfoldable pub ensure_resource_metadata : PendingAction → SideEffect → PendingAction
unfolding resource_metadata
ensure_resource_metadata pending side_effect =
    let (key, version) =
      resource_metadata side_effect pending.capability pending.target pending.arguments in
    if is_pure side_effect || not (is_empty_text pending.resource_key)
    then pending
    else if is_empty_text key && (elim version [ none ↦ true | some v ↦ false ])
    then pending
    else record pending { resource_key = key; resource_version = version }

abbrev pub or_empty : Option String → String
or_empty none = ""
or_empty (some t) = t

-- `_action_fingerprint`, with `dumps_json`.
unfoldable pub action_fingerprint : (JsonMapping → String) → PendingAction → String
action_fingerprint dumps_json pending =
    pending.capability
    ++ ("|" ++ (or_empty pending.target ++ ("|" ++ dumps_json pending.arguments)))

abbrev pub json_text : Option String → JsonValue
json_text none = JsonValue.null
json_text (some t) = JsonValue.text t

-- `_action_parameters_hash`; the keys of the payload are sorted by `dumps_json`.
unfoldable pub action_parameters_hash :
    (JsonMapping → String) → (String → String) → Decision → String
action_parameters_hash dumps_json sha256_hexdigest decision = sha256_hexdigest (
    dumps_json (
      JsonMapping.field "arguments" (JsonValue.object decision.arguments) (
        JsonMapping.field "capability" (json_text decision.capability)
          (JsonMapping.field "target" (json_text decision.target) JsonMapping.end))))

-- `_idempotency_key`
unfoldable pub idempotency_key : String → String → String → String
idempotency_key session_id task_id parameters_hash =
    session_id ++ (":" ++ (task_id ++ (":" ++ prefix 16 parameters_hash)))

-- `_APPROVED_FINGERPRINT_LIMIT`
abbrev pub approved_fingerprint_limit : ℕ
approved_fingerprint_limit = 32

-- The items behind the first `n`.
unfoldable pub drop_text : ℕ → List String → List String
drop_text zero items = items
drop_text (suc n) [] = []
drop_text (suc n) (x ∷ rest) = drop_text n rest

-- `items[-limit:]`
unfoldable pub last_items : ℕ → List String → List String
unfolding drop_text
last_items limit items = drop_text (length items - limit) items

-- The fingerprints that `_remember_approval` writes.
unfoldable pub remembered : String → List String → List String
unfolding last_items
remembered fingerprint approved =
    last_items approved_fingerprint_limit
      (append (filter (λ item. not (item == fingerprint)) approved) (fingerprint ∷ []))

-- `_remember_approval`
unfoldable pub remember_approval : String → AgentState String → AgentState String
unfolding remembered
remember_approval fingerprint state = record state {
  approved_fingerprints = remembered fingerprint state.approved_fingerprints;
}

abbrev pub is_mutation : CapabilityDefinition → Bool
is_mutation capability = elim capability.category [ CapabilityCategory.mutation ↦ true | _ ↦ false ]

-- `_read_only_policy_result`
unfoldable pub read_only_policy_result :
    AgentState String → CapabilityDefinition → ToolDefinition → Option PolicyResult
read_only_policy_result state capability tool =
    if not state.read_only
    then none
    else if not (is_mutation capability) && is_pure tool.side_effect
    then none
    else some (record {
      effect = PolicyEffect.deny;
      reason = "read-only session cannot execute side-effecting capability: " ++ capability.name;
      policy_name = "runtime-read-only";
    })

-- `_tool_call`
unfoldable pub tool_call : PendingAction → ToolCall
tool_call pending = record {
  action_id = pending.action_id;
  tool_name = pending.tool_name;
  capability = pending.capability;
  arguments = pending.arguments;
  target = pending.target;
  domain_name = pending.domain_name;
  domain_version = pending.domain_version;
  idempotency_key = pending.idempotency_key;
  parameters_hash = pending.parameters_hash;
  attempt = pending.attempt;
  resource_key = pending.resource_key;
  resource_version = pending.resource_version;
}

-- `_pending_domain_identity`
unfoldable pub pending_domain_identity : PendingAction → Option DomainIdentity
pending_domain_identity pending =
    if not (is_empty_text pending.domain_name) && not (is_empty_text pending.domain_version)
    then some (record { name = pending.domain_name; version = pending.domain_version })
    else none
