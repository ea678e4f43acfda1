-- ===== src/Core/Enums.antt =====
-- The enumerations of src/universal_agent/core/models.py. Identity of members (`is`) is decided,
-- and `contains` of the prelude is membership in a set of members.
use universal_agent.Prelude.{ℕ, Eq, eq_of_code, ◌≡◌, arith}

pub data GoalStatus : Type 0 where
  pending running waiting completed failed cancelled : GoalStatus

pub data TaskStatus : Type 0 where
  pending running waiting completed failed cancelled : TaskStatus

pub data DecisionType : Type 0 where
  execute wait ask_user finish : DecisionType

pub data ObservationStatus : Type 0 where
  succeeded failed timed_out unknown : ObservationStatus

pub data ExecutionStatus : Type 0 where
  completed waiting cancelled failed : ExecutionStatus

pub data CapabilityCategory : Type 0 where
  observation mutation : CapabilityCategory

pub data RiskLevel : Type 0 where
  low medium high : RiskLevel

pub data SideEffect : Type 0 where
  none reversible destructive : SideEffect

pub data PolicyEffect : Type 0 where
  allow require_confirmation deny : PolicyEffect

pub data EvaluationStatus : Type 0 where
  incomplete completed failed : EvaluationStatus

pub data ErrorCode : Type 0 where
  validation_error unknown_capability no_capability_tool unknown_tool tool_failure : ErrorCode
  unknown_execution timeout invalid_state iteration_limit model_failure : ErrorCode
  policy_denied confirmation_rejected evaluation_failed domain_validation_failed : ErrorCode
  resource_conflict cost_limit_exceeded transient permission_denied : ErrorCode
  dependency_missing user_required : ErrorCode

-- Identity of the members, where a rule lists some.
abbrev pub category_code : CapabilityCategory → ℕ
category_code CapabilityCategory.observation = 0
category_code CapabilityCategory.mutation = 1

pub category_code_injective : (a b : CapabilityCategory) → category_code a ≡ category_code b → a ≡ b
category_code_injective a b h = ground arith

instance abbrev pub CapabilityCategory_eq : Eq CapabilityCategory
CapabilityCategory_eq = eq_of_code category_code category_code_injective

abbrev pub risk_code : RiskLevel → ℕ
risk_code RiskLevel.low = 0
risk_code RiskLevel.medium = 1
risk_code RiskLevel.high = 2

pub risk_code_injective : (a b : RiskLevel) → risk_code a ≡ risk_code b → a ≡ b
risk_code_injective a b h = ground arith

instance abbrev pub RiskLevel_eq : Eq RiskLevel
RiskLevel_eq = eq_of_code risk_code risk_code_injective
