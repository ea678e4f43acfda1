-- ===== src/Actions/Example.antt =====
-- A session, and an executor with one tool that has side effects.
use universal_agent.Prelude.Int.{pos}
use universal_agent.Prelude.{false, none, some, [], ◌∷◌, ok}
use universal_agent.Core.Json.{JsonMapping}
use universal_agent.Core.Enums.{
  CapabilityCategory, GoalStatus, PolicyEffect, RiskLevel, SideEffect, TaskStatus,
}
use universal_agent.Core.Models.{CapabilityDefinition, PendingAction, Task, ToolDefinition}
use universal_agent.Policy.{PolicyRule, rule_policy}
use universal_agent.Tasks.Manager.{TaskManager}
use universal_agent.Runtime.Transitions.{SessionRuntimeState}
use universal_agent.Tools.Invoke.{ToolAnswer}
use universal_agent.Actions.Models.{ActionExecutor, Machine}

abbrev pub task : Task
task = record {
  description = "restart it";
  required_criteria = [];
  id = "t";
  status = TaskStatus.running;
  created_at = 1;
}

abbrev pub graph : TaskManager
graph = record {
  tasks = ("t", task) ∷ [];
  keys = ("root", "t") ∷ [];
  dependencies = ("t", []) ∷ [];
  order = "t" ∷ [];
  current_id = "t";
}

abbrev pub session : SessionRuntimeState
session = record {
  state = record {
    session_id = "s";
    goal = record {
      description = "keep it up";
      success_criteria = [];
      id = "g";
      status = GoalStatus.running;
      created_at = 1;
    };
    current_task = "t";
    read_only = false;
    iteration = 0;
    satisfied_criteria = JsonMapping.end;
    observations = [];
    latest_evaluation = none;
    pending_action = none;
    approved_fingerprints = [];
    tasks = "t" ∷ [];
    recovery_attempts = [];
    termination_reason = none;
    error_code = none;
    tenant_id = none;
    cumulative_cost_micros = 0;
    cumulative_tokens = 0;
    is_continuation = false;
  };
  tasks = graph;
  domain_name = "ops";
  domain_version = "1";
  version = 0;
}

abbrev pub machine : Machine
machine = record {
  session = session;
  locks = [];
  versions = [];
  seen = [];
  events = [];
  calls = [];
}

abbrev pub restart : CapabilityDefinition
restart = record {
  name = "restart";
  description = "restarts a service";
  category = CapabilityCategory.mutation;
  risk = RiskLevel.medium;
}

abbrev pub restarter : ToolDefinition
restarter = record {
  name = "restarter";
  description = "restarts a service";
  capabilities = "restart" ∷ [];
  required_arguments = [];
  side_effect = SideEffect.reversible;
  risk = RiskLevel.medium;
  priority = pos 100;
  argument_schema = JsonMapping.end;
}

abbrev pub may_restart : PolicyRule
may_restart = record {
  name = "may-restart";
  effect = PolicyEffect.allow;
  reason = "restarts are allowed";
  capabilities = "restart" ∷ [];
  categories = [];
  risks = [];
}

abbrev pub executor : ActionExecutor
executor = record {
  capabilities = ("restart", record { definition = restart; domain_identity = none }) ∷ [];
  tools = ("restarter", record { definition = restarter; domain_identity = none }) ∷ [];
  policy_engine = record { policies = rule_policy may_restart ∷ [] };
  environment = JsonMapping.end;
  argument_providers = λ domain. [];
  reconcilers = λ domain. [];
  sandbox = none;
  emit_raises = λ type m. none;
  is_interrupted = λ call m. false;
  answer = λ m definition arguments. ToolAnswer.output JsonMapping.end;
  resolve_secret_arguments = λ arguments. ok arguments;
  validate_tool_arguments = λ definition arguments. none;
  new_action_id = λ m. "a";
  new_observation_id = λ m. "o";
  utc_now = λ m. 1;
  dumps_json = λ value. "{}";
  sha256_hexdigest = λ text. "0123456789abcdef0123";
  redact_sensitive_mapping = λ value. value;
  redact_sensitive_text = λ text. text;
}

abbrev pub pending : PendingAction
pending = record {
  action_id = "a";
  capability = "restart";
  tool_name = "restarter";
  target = some "web";
  arguments = JsonMapping.end;
  domain_name = "";
  domain_version = "";
  idempotency_key = "s:t:0123456789abcdef";
  parameters_hash = "0123456789abcdef0123";
  attempt = 1;
  resource_key = "web";
  resource_version = none;
}
