-- ===== src/Policy.antt =====
-- src/universal_agent/policy/engine.py: the rules a domain declares, and the engine that combines
-- their verdicts on one action. A policy is any object with a name and an `evaluate`.
pub mod Precedence
mod Tests
use universal_agent.Prelude.{
  String, Bool, true, false, not, ◌&&◌, Option, none, some, List, [], ◌∷◌, map, find?, contains,
  is_empty, if◌then◌else◌, ◌==◌, String_eq,
}
use universal_agent.Core.Enums.{
  CapabilityCategory, RiskLevel, PolicyEffect, allow, require_confirmation, deny,
  CapabilityCategory_eq, RiskLevel_eq,
}
use universal_agent.Core.Models.{PolicyContext, PolicyResult}

-- The protocol `Policy`.
pub record Policy : Type 0 where
  pub name : String
  pub evaluate : PolicyContext → Option PolicyResult

pub record PolicyRule : Type 0 where
  pub name : String
  pub effect : PolicyEffect
  pub reason : String
  pub capabilities : List String
  pub categories : List CapabilityCategory
  pub risks : List RiskLevel

unfoldable pub evaluate : PolicyRule → PolicyContext → Option PolicyResult
evaluate r context =
    if not (is_empty r.capabilities) && not (contains r.capabilities context.capability.name)
    then none
    else if not (is_empty r.categories) && not (contains r.categories context.capability.category)
    then none
    else if not (is_empty r.risks) && not (contains r.risks context.tool.risk)
    then none
    else some (record { effect = r.effect; reason = r.reason; policy_name = r.name })

-- A rule as a policy.
abbrev pub rule_policy : PolicyRule → Policy
rule_policy r = record { name = r.name; evaluate = evaluate r }

pub record PolicyEngine : Type 0 where
  pub policies : List Policy

unfoldable pub summary : PolicyEngine → List String
summary engine = map (λ p. p.name) engine.policies

abbrev pub is_deny : PolicyResult → Bool
is_deny r = elim r.effect [ deny ↦ true | _ ↦ false ]

abbrev pub is_require_confirmation : PolicyResult → Bool
is_require_confirmation r = elim r.effect [ require_confirmation ↦ true | _ ↦ false ]

abbrev pub is_allow : PolicyResult → Bool
is_allow r = elim r.effect [ allow ↦ true | _ ↦ false ]

abbrev pub is_mutation : PolicyContext → Bool
is_mutation context = elim context.capability.category [
  | CapabilityCategory.mutation ↦ true
  | _ ↦ false
]

-- The verdicts of the policies that give one, in order.
unfoldable pub results : List Policy → PolicyContext → List PolicyResult
results [] context = []
results (p ∷ ps) context =
    let rest = results ps context in elim (p.evaluate context) [ none ↦ rest | some r ↦ r ∷ rest ]

-- Where no policy decides.
unfoldable pub default_result : PolicyContext → PolicyResult
default_result context =
    if is_mutation context
    then record {
      effect = deny;
      reason = "mutation capability has no explicit allow policy";
      policy_name = "mutation-default-deny";
    }
    else record {
      effect = allow;
      reason = "read-only capability allowed";
      policy_name = "read-only-default";
    }

unfoldable pub check_allowed : List PolicyResult → PolicyContext → PolicyResult
unfolding default_result
check_allowed rs context = elim (find? is_allow rs) [
  | some allowed ↦ allowed
  | none ↦ default_result context
]

unfoldable pub check_confirmation : List PolicyResult → PolicyContext → PolicyResult
unfolding check_allowed
check_confirmation rs context = elim (find? is_require_confirmation rs) [
  | some confirmation ↦ if not context.confirmed then confirmation else record {
    effect = allow;
    reason = "user confirmation satisfied";
    policy_name = confirmation.policy_name;
  }
  | none ↦ check_allowed rs context
]

unfoldable pub check : PolicyEngine → PolicyContext → PolicyResult
unfolding results check_confirmation
check engine context =
    let rs = results engine.policies context in
    elim (find? is_deny rs) [ some denied ↦ denied | none ↦ check_confirmation rs context ]
