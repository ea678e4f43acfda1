-- ===== src/Recovery/Models.antt =====
-- models.py and manager.py of src/universal_agent/recovery. A rule whose construction raises is a
-- `ValueError` of `new_rule`.
use Prim.Native.String.{◌++◌}
use universal_agent.Prelude.{
  ℕ, ◌+◌, ◌≡◌, String, Bool, true, false, not, ◌&&◌, ◌||◌, Option, none, some, List, [], ◌∷◌, find?,
  contains, is_empty, if◌then◌else◌, String_eq, ℕ_eq, Eq, eq_of_code, arith, Result, ok, raised,
}
use universal_agent.Prelude.Int.{ℤ, leb_ℤ}
use universal_agent.Prelude.Text.{is_blank, text_leb}
use universal_agent.Prelude.Dict.{Dict, get}
use universal_agent.Core.Enums.{ErrorCode}
use universal_agent.Core.Json.{JsonMapping}

pub data FailureCategory : Type 0 where
  timeout transient permission_denied validation dependency_missing tool_failure : FailureCategory
  evaluation_failed user_required unknown : FailureCategory

pub data RecoveryStrategy : Type 0 where
  retry_action reobserve expand_diagnosis_task alternative_capability ask_user stop :
      RecoveryStrategy
  rollback : RecoveryStrategy

-- Identity of the members.
abbrev pub failure_category_code : FailureCategory → ℕ
failure_category_code FailureCategory.timeout = 0
failure_category_code FailureCategory.transient = 1
failure_category_code FailureCategory.permission_denied = 2
failure_category_code FailureCategory.validation = 3
failure_category_code FailureCategory.dependency_missing = 4
failure_category_code FailureCategory.tool_failure = 5
failure_category_code FailureCategory.evaluation_failed = 6
failure_category_code FailureCategory.user_required = 7
failure_category_code FailureCategory.unknown = 8

pub failure_category_code_injective :
    (a b : FailureCategory) → failure_category_code a ≡ failure_category_code b → a ≡ b
failure_category_code_injective a b h = ground arith

instance abbrev pub FailureCategory_eq : Eq FailureCategory
FailureCategory_eq = eq_of_code failure_category_code failure_category_code_injective

-- The value of a member, as it stands in an attempt's key.
unfoldable pub category_value : FailureCategory → String
category_value FailureCategory.timeout = "timeout"
category_value FailureCategory.transient = "transient"
category_value FailureCategory.permission_denied = "permission_denied"
category_value FailureCategory.validation = "validation"
category_value FailureCategory.dependency_missing = "dependency_missing"
category_value FailureCategory.tool_failure = "tool_failure"
category_value FailureCategory.evaluation_failed = "evaluation_failed"
category_value FailureCategory.user_required = "user_required"
category_value FailureCategory.unknown = "unknown"

pub record Failure : Type 0 where
  pub task_id : String
  pub error_code : ErrorCode
  pub category : FailureCategory
  pub reason : String
  pub capability : Option String
  pub arguments : JsonMapping
  pub target : Option String

-- `max_attempts` is an integer that may be negative before the checks.
pub record RecoveryRule : Type 0 where
  pub name : String
  pub categories : List FailureCategory
  pub strategy : RecoveryStrategy
  pub max_attempts : ℤ
  pub capability : Option String
  pub priority : ℤ
  pub match_capabilities : List String

-- `__post_init__`: the message of the `ValueError`, or the rule.
unfoldable pub new_rule : RecoveryRule → Result String RecoveryRule
new_rule r =
    if not (leb_ℤ (ℤ.pos 0) r.max_attempts)
    then raised "recovery max_attempts cannot be negative"
    else elim r.strategy [
      | RecoveryStrategy.alternative_capability ↦
          if (elim r.capability [ none ↦ true | some c ↦ is_blank c ])
          then raised "alternative capability recovery requires a capability"
          else ok r
      | RecoveryStrategy.rollback ↦ raised "rollback execution is outside P2"
      | _ ↦ ok r
    ]

pub record RecoveryDecision : Type 0 where
  pub strategy : RecoveryStrategy
  pub rule_name : String
  pub attempt : ℕ
  pub exhausted : Bool
  pub capability : Option String

unfoldable pub classify_failure : ErrorCode → FailureCategory
classify_failure ErrorCode.timeout = FailureCategory.timeout
classify_failure ErrorCode.transient = FailureCategory.transient
classify_failure ErrorCode.resource_conflict = FailureCategory.transient
classify_failure ErrorCode.policy_denied = FailureCategory.permission_denied
classify_failure ErrorCode.confirmation_rejected = FailureCategory.permission_denied
classify_failure ErrorCode.permission_denied = FailureCategory.permission_denied
classify_failure ErrorCode.user_required = FailureCategory.user_required
classify_failure ErrorCode.dependency_missing = FailureCategory.dependency_missing
classify_failure ErrorCode.validation_error = FailureCategory.validation
classify_failure ErrorCode.invalid_state = FailureCategory.validation
classify_failure ErrorCode.unknown_capability = FailureCategory.validation
classify_failure ErrorCode.unknown_tool = FailureCategory.validation
classify_failure ErrorCode.no_capability_tool = FailureCategory.dependency_missing
classify_failure ErrorCode.evaluation_failed = FailureCategory.evaluation_failed
classify_failure ErrorCode.tool_failure = FailureCategory.tool_failure
classify_failure ErrorCode.unknown_execution = FailureCategory.unknown
classify_failure _ = FailureCategory.unknown

-- `(a.priority, a.name) <= (b.priority, b.name)`
unfoldable pub rule_leb : RecoveryRule → RecoveryRule → Bool
rule_leb a b =
    if not (leb_ℤ a.priority b.priority)
    then false
    else if not (leb_ℤ b.priority a.priority)
    then true
    else text_leb a.name b.name

unfoldable pub insert_rule : RecoveryRule → List RecoveryRule → List RecoveryRule
insert_rule a [] = a ∷ []
insert_rule a (b ∷ rest) = if rule_leb a b then a ∷ b ∷ rest else b ∷ insert_rule a rest

-- `sorted(rules, key=...)`: stable.
unfoldable pub sort_rules : List RecoveryRule → List RecoveryRule
unfolding insert_rule rule_leb
sort_rules [] = []
sort_rules (a ∷ rest) = insert_rule a (sort_rules rest)

pub record RecoveryManager : Type 0 where
  pub rules : List RecoveryRule

-- `RecoveryManager(rules)`
unfoldable pub new_manager : List RecoveryRule → RecoveryManager
unfolding sort_rules
new_manager rules = record { rules = sort_rules rules }

-- `failure.capability in capabilities`
abbrev pub contains_capability : List String → Option String → Bool
contains_capability capabilities none = false
contains_capability capabilities (some c) = contains capabilities c

-- The test by which `decide` looks for a rule.
unfoldable pub handles : Failure → RecoveryRule → Bool
handles failure r =
    contains r.categories failure.category
    && (is_empty r.match_capabilities
        || contains_capability r.match_capabilities failure.capability)

unfoldable pub attempt_key : String → FailureCategory → String → String
unfolding category_value
attempt_key task_id category rule_name =
    task_id ++ (":" ++ (category_value category ++ (":" ++ rule_name)))

abbrev pub attempts_at : Dict ℕ → String → ℕ
attempts_at attempts key = elim (get attempts key) [ none ↦ 0 | some n ↦ n ]

unfoldable pub decide : RecoveryManager → Failure → Dict ℕ → RecoveryDecision × String
decide manager failure attempts = elim (find? (handles failure) manager.rules) [
  | none ↦ (
    record {
      strategy = RecoveryStrategy.stop;
      rule_name = "default-stop";
      attempt = 0;
      exhausted = false;
      capability = none;
    },
    "",
  )
  | some rule ↦
      let key = attempt_key failure.task_id failure.category rule.name in
      let attempt = attempts_at attempts key + 1 in
      let exhausted = not (leb_ℤ (ℤ.pos attempt) rule.max_attempts) in
      (
        record {
          strategy = if exhausted then RecoveryStrategy.stop else rule.strategy;
          rule_name = rule.name;
          attempt = attempt;
          exhausted = exhausted;
          capability = rule.capability;
        },
        key,
      )
]
