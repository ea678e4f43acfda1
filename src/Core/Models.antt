-- ===== src/Core/Models.antt =====
-- The records of src/universal_agent/core/models.py that the modelled parts exchange. Identifiers
-- are texts, a `datetime` is a count of microseconds, and a default is written by the caller.
use universal_agent.Prelude.{ℕ, String, Bool, Option, List}
use universal_agent.Prelude.Dict.{Dict}
use universal_agent.Prelude.Int.{ℤ}
use universal_agent.Core.Json.{JsonValue, JsonMapping}
use universal_agent.Core.Enums.{
  GoalStatus, TaskStatus, DecisionType, ObservationStatus, ExecutionStatus, CapabilityCategory,
  RiskLevel, SideEffect, PolicyEffect, EvaluationStatus, ErrorCode,
}

pub record DomainIdentity : Type 0 where
  pub name : String
  pub version : String

pub record SuccessCriterion : Type 0 where
  pub key : String
  pub expected : JsonValue

pub record Goal : Type 0 where
  pub description : String
  pub success_criteria : List SuccessCriterion
  pub id : String
  pub status : GoalStatus
  pub created_at : ℕ

pub record Task : Type 0 where
  pub description : String
  pub required_criteria : List String
  pub id : String
  pub status : TaskStatus
  pub created_at : ℕ

pub record Decision : Type 0 where
  pub type : DecisionType
  pub reason : String
  pub capability : Option String
  pub target : Option String
  pub arguments : JsonMapping
  pub expected_observations : List String
  pub message : Option String

pub record CapabilityDefinition : Type 0 where
  pub name : String
  pub description : String
  pub category : CapabilityCategory
  pub risk : RiskLevel

-- `timeout_seconds` is not carried: no modelled part reads it.
pub record ToolDefinition : Type 0 where
  pub name : String
  pub description : String
  pub capabilities : List String
  pub required_arguments : List String
  pub side_effect : SideEffect
  pub risk : RiskLevel
  pub priority : ℤ
  pub argument_schema : JsonMapping

pub record ToolCall : Type 0 where
  pub action_id : String
  pub tool_name : String
  pub capability : String
  pub arguments : JsonMapping
  pub target : Option String
  pub domain_name : String
  pub domain_version : String
  pub idempotency_key : String
  pub parameters_hash : String
  pub attempt : ℕ
  pub resource_key : String
  pub resource_version : Option String

pub record ToolResult : Type 0 where
  pub status : ObservationStatus
  pub output : JsonMapping
  pub error : Option String
  pub error_code : Option ErrorCode

pub record CapabilityInputContract : Type 0 where
  pub capability : String
  pub required_arguments : List String
  pub argument_schema : JsonMapping

pub record Observation : Type 0 where
  pub id : String
  pub action_id : String
  pub task_id : String
  pub source : String
  pub status : ObservationStatus
  pub values : JsonMapping
  pub observed_at : ℕ
  pub error : Option String
  pub error_code : Option ErrorCode

pub record PolicyContext : Type 0 where
  pub session_id : String
  pub goal_id : String
  pub task_id : String
  pub action_id : String
  pub capability : CapabilityDefinition
  pub tool : ToolDefinition
  pub target : Option String
  pub arguments : JsonMapping
  pub environment : JsonMapping
  pub confirmed : Bool
  pub goal_success_criteria : List SuccessCriterion
  pub task_required_criteria : List String

pub record PolicyResult : Type 0 where
  pub effect : PolicyEffect
  pub reason : String
  pub policy_name : String

pub record EvaluationResult : Type 0 where
  pub status : EvaluationStatus
  pub reason : String
  pub evaluator_name : String
  pub matched_criteria : JsonMapping
  pub task_completed : Bool
  pub goal_completed : Bool

pub record PendingAction : Type 0 where
  pub action_id : String
  pub capability : String
  pub tool_name : String
  pub target : Option String
  pub arguments : JsonMapping
  pub domain_name : String
  pub domain_version : String
  pub idempotency_key : String
  pub parameters_hash : String
  pub attempt : ℕ
  pub resource_key : String
  pub resource_version : Option String

pub record ExecutionResult : Type 0 where
  pub status : ExecutionStatus
  pub session_id : String
  pub goal_id : String
  pub task_id : String
  pub iterations : ℕ
  pub reason : String
  pub error_code : Option ErrorCode
  pub user_message : Option String

-- `T` is how a task is held: the object's value in a stored snapshot, and the object's identity, its
-- id in the task graph, in a running session, where the state and the graph share the objects.
pub record AgentState (T : Type 0) : Type 0 where
  pub session_id : String
  pub goal : Goal
  pub current_task : T
  pub read_only : Bool
  pub iteration : ℕ
  pub satisfied_criteria : JsonMapping
  pub observations : List Observation
  pub latest_evaluation : Option EvaluationResult
  pub pending_action : Option PendingAction
  pub approved_fingerprints : List String
  pub tasks : List T
  pub recovery_attempts : Dict ℕ
  pub termination_reason : Option String
  pub error_code : Option ErrorCode
  pub tenant_id : Option String
  pub cumulative_cost_micros : ℕ
  pub cumulative_tokens : ℕ
  pub is_continuation : Bool
