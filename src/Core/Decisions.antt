-- ===== src/Core/Decisions.antt =====
-- `Decision.validate` of src/universal_agent/core/models.py.
use Prim.Native.String.{◌++◌}
use universal_agent.Prelude.{
  ◌≡◌, ◌↔◌, refl, String, Bool, true, false, not, ◌||◌, Option, none, some, is_empty, if◌then◌else◌,
  Result, ok, raised, arith,
}
use universal_agent.Prelude.Text.{is_blank, is_empty_text}
use universal_agent.Core.Json.{JsonMapping, is_empty_mapping}
use universal_agent.Core.Enums.{DecisionType}
use universal_agent.Core.Models.{Decision}

-- Truthiness of an optional text.
abbrev pub is_given : Option String → Bool
is_given none = false
is_given (some t) = not (is_empty_text t)

abbrev pub is_some : Option String → Bool
is_some none = false
is_some (some t) = true

-- `type.value`
abbrev pub type_value : DecisionType → String
type_value DecisionType.execute = "execute"
type_value DecisionType.wait = "wait"
type_value DecisionType.ask_user = "ask_user"
type_value DecisionType.finish = "finish"

-- `self.capability is not None or self.arguments or self.target is not None`
abbrev pub has_action : Decision → Bool
has_action d = is_some d.capability || (not (is_empty_mapping d.arguments) || is_some d.target)

-- The checks behind the one of the reason.
unfoldable pub validate_type : DecisionType → Decision → Result String Unit
validate_type DecisionType.execute d =
    if not (is_given d.capability)
    then raised "execute decision requires capability"
    else if is_empty d.expected_observations
    then raised "execute decision requires expected_observations"
    else ok tt
validate_type DecisionType.ask_user d =
    if has_action d
    then raised "ask_user decision cannot include an action"
    else if not (is_given d.message)
    then raised "ask_user decision requires message"
    else ok tt
validate_type type d =
    if has_action d then raised (type_value type ++ " decision cannot include an action") else ok tt

unfoldable pub validate : Decision → Result String Unit
unfolding validate_type
validate d =
    if is_blank d.reason then raised "decision reason must not be empty" else validate_type d.type d

-- What a valid decision has, by its type.
abbrev pub WellFormed : DecisionType → Decision → Type 0
WellFormed DecisionType.execute d =
    ((c : String) × (d.capability ≡ some c) × (is_empty_text c ≡ false))
    × (is_empty d.expected_observations ≡ false)
WellFormed DecisionType.ask_user d =
    ((d.capability ≡ none) × (d.target ≡ none) × (d.arguments ≡ JsonMapping.end))
    × ((m : String) × (d.message ≡ some m) × (is_empty_text m ≡ false))
WellFormed type d = (d.capability ≡ none) × (d.target ≡ none) × (d.arguments ≡ JsonMapping.end)

given_text :
    (o : Option String)
    → is_given o ≡ true
    → (t : String) × (o ≡ some t) × (is_empty_text t ≡ false)
given_text none h = absurd (ground arith)
given_text (some t) h = (t, refl, ground arith)

no_action :
    (d : Decision)
    → has_action d ≡ false
    → (d.capability ≡ none) × (d.target ≡ none) × (d.arguments ≡ JsonMapping.end)
no_action d h = (
  absent d.capability (ground arith),
  absent d.target (ground arith),
  empty d.arguments (ground arith),
)
  where
    absent : (o : Option String) → is_some o ≡ false → o ≡ none
    absent none e = refl
    absent (some t) e = absurd (ground arith)

    empty : (m : JsonMapping) → is_empty_mapping m ≡ true → m ≡ JsonMapping.end
    empty JsonMapping.end e = refl
    empty (JsonMapping.field k v m) e = absurd (ground arith)

validate_type-WellFormed :
    (type : DecisionType) (d : Decision) → validate_type type d ≡ ok tt → WellFormed type d
unfolding validate_type
validate_type-WellFormed DecisionType.execute d h =
    (given_text d.capability (ground arith), ground arith)
validate_type-WellFormed DecisionType.ask_user d h =
    (no_action d (ground arith), given_text d.message (ground arith))
validate_type-WellFormed DecisionType.wait d h = no_action d (ground arith)
validate_type-WellFormed DecisionType.finish d h = no_action d (ground arith)

WellFormed-validate_type :
    (type : DecisionType) (d : Decision) → WellFormed type d → validate_type type d ≡ ok tt
unfolding validate_type
WellFormed-validate_type DecisionType.execute d ((c, e, n), o) = ground arith
WellFormed-validate_type DecisionType.ask_user d ((e, t, a), (m, s, n)) = ground arith
WellFormed-validate_type DecisionType.wait d (e, t, a) = ground arith
WellFormed-validate_type DecisionType.finish d (e, t, a) = ground arith

-- A decision passes `validate` exactly if its reason is not blank and it has what its type demands:
-- a capability and expected observations to execute, and otherwise no capability, target or
-- arguments, with a message to ask the user.
pub validate-WellFormed :
    (d : Decision) → (validate d ≡ ok tt) ↔ ((is_blank d.reason ≡ false) × WellFormed d.type d)
validate-WellFormed d = (
  λ h. (
    (unfold validate in ground arith),
    validate_type-WellFormed d.type d (unfold validate in ground arith),
  ),
  λ (spoken, formed).
      let passed = WellFormed-validate_type d.type d formed in unfold validate in ground arith,
)
