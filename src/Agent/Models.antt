-- ===== src/Agent/Models.antt =====
-- What an `AgentRuntime` of src/universal_agent/runtime/agent.py holds, and what passes between its
-- methods.
use universal_agent.Prelude.{ℕ, String, Bool, Option, List, Result}
use universal_agent.Core.Json.{JsonMapping}
use universal_agent.Core.Models.{
  CapabilityInputContract, Decision, EvaluationResult, ExecutionResult, Observation, PendingAction,
  Task,
}
use universal_agent.Recovery.Models.{RecoveryManager}
use universal_agent.Tasks.Manager.{TaskSpec}
use universal_agent.Actions.Models.{ActionError, ActionExecutor, Machine}

-- What another task has asked of the session (`SessionControl`), with its reason.
pub data ControlRequest : Type 0 where
  nothing : ControlRequest
  cancel_requested pause_requested : String → ControlRequest

-- What the model gives: a decision, a transient provider error, or any other exception.
pub data ModelAnswer : Type 0 where
  decided : Decision → ModelAnswer
  transient permanent : String → ModelAnswer

pub record ModelUsage : Type 0 where
  pub estimated_cost_micros : ℕ
  pub total_tokens : ℕ

-- What the plugins of a domain make of an observation: how much evidence the extractors give, which
-- goes to the evidence store and the world, the tasks that the expanders ask for, and the
-- verdict of the evaluator or the text of an `EvaluationRoutingError`.
pub record Evaluated : Type 0 where
  pub evidence : ℕ
  pub specs : List TaskSpec
  pub evaluation : Result String EvaluationResult

-- `ProcessingResult` without the evidence, and whether it has a `next_task`.
pub record Processed : Type 0 where
  pub created : List Task
  pub evaluation : EvaluationResult
  pub is_next_started : Bool

-- An `AgentRuntime`, and what lies behind it: the store, the controls, the clock, the model, the JSON
-- schema of arguments, and the plugins that evaluate.
pub record AgentRuntime : Type 0 where
  pub executor : ActionExecutor
  pub recovery_manager : RecoveryManager
  pub max_iterations : ℕ
  pub max_recovery_steps : ℕ
  pub max_model_retries : ℕ
  pub max_total_cost_micros : Option ℕ
  pub max_total_tokens : Option ℕ
  pub store_raises : Machine → Option ActionError
  pub requested : Machine → ControlRequest
  pub is_expired : Machine → Bool
  pub decide : Machine → ℕ → ModelAnswer
  pub usage : Machine → Option ModelUsage
  pub validate_argument_contract : CapabilityInputContract → JsonMapping → Option String
  pub evaluate : PendingAction → Observation → Machine → Result String Evaluated

-- What `_drive` runs next: the decision, or the action that the user has confirmed.
pub data Attempt : Type 0 where
  proposed : Decision → Attempt
  approved : PendingAction → Attempt

-- What `_observe` and the planner of recoveries return: a result to stop, a decision to keep
-- recovering, or `None` to continue.
pub data Step : Type 0 where
  stop : ExecutionResult → Step
  again : Decision → Step
  go_on : Step
