-- ===== src/Recovery/Rules.antt =====
-- The default rules, src/universal_agent/recovery/rules.py.
use universal_agent.Prelude.{String, none, some, List, [], ◌∷◌}
use universal_agent.Prelude.Int.{pos}
use universal_agent.Recovery.Models.{FailureCategory, RecoveryStrategy, RecoveryRule}

abbrev pub retry_transient_rule : RecoveryRule
retry_transient_rule = record {
  name = "retry-transient";
  categories = FailureCategory.transient ∷ FailureCategory.timeout ∷ [];
  strategy = RecoveryStrategy.retry_action;
  max_attempts = pos 3;
  capability = none;
  priority = pos 25;
  match_capabilities = [];
}

abbrev pub retry_tool_failure_rule : RecoveryRule
retry_tool_failure_rule = record {
  name = "retry-tool-failure";
  categories = FailureCategory.tool_failure ∷ [];
  strategy = RecoveryStrategy.retry_action;
  max_attempts = pos 2;
  capability = none;
  priority = pos 20;
  match_capabilities = [];
}

unfoldable pub alternative_capability_rule : String → RecoveryRule
alternative_capability_rule substitute_capability = record {
  name = "alternative-capability";
  categories = FailureCategory.tool_failure ∷ FailureCategory.dependency_missing ∷ [];
  strategy = RecoveryStrategy.alternative_capability;
  max_attempts = pos 1;
  capability = some substitute_capability;
  priority = pos 30;
  match_capabilities = [];
}

abbrev pub diagnose_health_rule : RecoveryRule
diagnose_health_rule = record {
  name = "diagnose-health";
  categories = FailureCategory.evaluation_failed ∷ FailureCategory.validation ∷ [];
  strategy = RecoveryStrategy.expand_diagnosis_task;
  max_attempts = pos 1;
  capability = none;
  priority = pos 40;
  match_capabilities = [];
}

abbrev pub stop_on_policy_denied_rule : RecoveryRule
stop_on_policy_denied_rule = record {
  name = "stop-on-policy-denied";
  categories = FailureCategory.permission_denied ∷ [];
  strategy = RecoveryStrategy.stop;
  max_attempts = pos 0;
  capability = none;
  priority = pos 10;
  match_capabilities = [];
}

abbrev pub user_required_rule : RecoveryRule
user_required_rule = record {
  name = "ask-user-required";
  categories = FailureCategory.user_required ∷ [];
  strategy = RecoveryStrategy.ask_user;
  max_attempts = pos 1;
  capability = none;
  priority = pos 45;
  match_capabilities = [];
}

abbrev pub ask_user_rule : RecoveryRule
ask_user_rule = record {
  name = "ask-user";
  categories = FailureCategory.unknown ∷ [];
  strategy = RecoveryStrategy.ask_user;
  max_attempts = pos 1;
  capability = none;
  priority = pos 50;
  match_capabilities = [];
}

unfoldable pub default_recovery_rules : List RecoveryRule
unfolding alternative_capability_rule
default_recovery_rules =
    stop_on_policy_denied_rule
    ∷ retry_tool_failure_rule
    ∷ retry_transient_rule
    ∷ alternative_capability_rule "escalate_to_user"
    ∷ diagnose_health_rule
    ∷ user_required_rule
    ∷ ask_user_rule
    ∷ []
