-- ===== src/Policy/Tests.antt =====
-- Three rules, an action that they decide, and the theorems at it.
use universal_agent.Prelude.Int.{pos}
use mathlib.Core.List.{Perm, Permᴰ}
use universal_agent.Prelude.{◌≡◌, ◌≢◌, refl, ◌⊎◌, true, none, [], ◌∷◌, any, Mem}
use universal_agent.Core.Json.{JsonMapping}
use universal_agent.Core.Enums.{
  CapabilityCategory, RiskLevel, SideEffect, allow, require_confirmation, deny,
}
use universal_agent.Core.Models.{PolicyContext, PolicyResult}
use universal_agent.Policy.{
  Policy, PolicyEngine, rule_policy, evaluate, results, check, check_confirmation, is_allow,
  is_deny, is_require_confirmation, is_mutation,
}
use universal_agent.Policy.Precedence.{verdict, check-verdict, check_allow, check-perm}

abbrev restart : PolicyContext
restart = record {
  session_id = "s";
  goal_id = "g";
  task_id = "t";
  action_id = "a";
  capability = record {
    name = "restart_service";
    description = "restart";
    category = CapabilityCategory.mutation;
    risk = RiskLevel.medium;
  };
  tool = record {
    name = "systemd";
    description = "restart";
    capabilities = "restart_service" ∷ [];
    required_arguments = [];
    side_effect = SideEffect.reversible;
    risk = RiskLevel.medium;
    priority = pos 100;
    argument_schema = JsonMapping.end;
  };
  target = none;
  arguments = JsonMapping.end;
  environment = JsonMapping.end;
  confirmed = true;
  goal_success_criteria = [];
  task_required_criteria = [];
}

abbrev confirm_mutations : Policy
confirm_mutations = rule_policy (record {
  name = "confirm-mutations";
  effect = require_confirmation;
  reason = "mutations are confirmed";
  capabilities = [];
  categories = CapabilityCategory.mutation ∷ [];
  risks = [];
})

abbrev deny_high : Policy
deny_high = rule_policy (record {
  name = "deny-high";
  effect = deny;
  reason = "too risky";
  capabilities = [];
  categories = [];
  risks = RiskLevel.high ∷ [];
})

abbrev engine : PolicyEngine
engine = record { policies = deny_high ∷ confirm_mutations ∷ [] }

allowed : (check engine restart).effect ≡ allow
unfolding check check_confirmation results evaluate
allowed = refl

swapped : Perm (deny_high ∷ confirm_mutations ∷ []) (confirm_mutations ∷ deny_high ∷ [])
swapped = ∣ Permᴰ.swap refl refl ∣₁

check-verdict_example :
    (check engine restart).effect
    ≡ verdict
        (any is_deny (results engine.policies restart))
        (any is_require_confirmation (results engine.policies restart))
        (any is_allow (results engine.policies restart))
        restart.confirmed
        (is_mutation restart)
check-verdict_example = check-verdict restart engine

check_allow_example :
    ((r : PolicyResult) → Mem r (results engine.policies restart) → r.effect ≢ deny)
    × ((r : PolicyResult)
        → Mem r (results engine.policies restart)
        → r.effect ≡ require_confirmation
        → restart.confirmed ≡ true)
    × (is_mutation restart ≡ true
        → (r : PolicyResult) × Mem r (results engine.policies restart)
          × ((r.effect ≡ allow) ⊎ (r.effect ≡ require_confirmation)))
check_allow_example = check_allow restart engine allowed

check-perm_example :
    (check (record { policies = deny_high ∷ confirm_mutations ∷ [] }) restart).effect
    ≡ (check (record { policies = confirm_mutations ∷ deny_high ∷ [] }) restart).effect
check-perm_example = check-perm restart swapped
