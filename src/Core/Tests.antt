-- ===== src/Core/Tests.antt =====
-- A decision to execute, and the theorem at it.
use universal_agent.Prelude.{◌≡◌, ◌↔◌, false, none, some, [], ◌∷◌, ok}
use universal_agent.Prelude.Text.{is_blank}
use universal_agent.Core.Json.{JsonMapping}
use universal_agent.Core.Enums.{DecisionType}
use universal_agent.Core.Models.{Decision}
use universal_agent.Core.Decisions.{validate, WellFormed, validate-WellFormed}

abbrev look : Decision
look = record {
  type = DecisionType.execute;
  reason = "the service may be down";
  capability = some "check_health";
  target = none;
  arguments = JsonMapping.end;
  expected_observations = "health" ∷ [];
  message = none;
}

validate-WellFormed_example :
    (validate look ≡ ok tt) ↔ ((is_blank look.reason ≡ false) × WellFormed look.type look)
validate-WellFormed_example = validate-WellFormed look
