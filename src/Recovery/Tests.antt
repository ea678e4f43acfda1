-- ===== src/Recovery/Tests.antt =====
-- The default rules at work, and the bound on attempts at one of them.
use universal_agent.Prelude.{◌≡◌, refl, none, some, [], find?}
use universal_agent.Prelude.Dict.{get}
use universal_agent.Core.Enums.{ErrorCode}
use universal_agent.Core.Json.{JsonMapping}
use universal_agent.Recovery.Models.{
  Failure, FailureCategory, RecoveryStrategy, RecoveryManager, new_manager, handles, decide,
}
use universal_agent.Recovery.Rules.{default_recovery_rules, retry_transient_rule}
use universal_agent.Recovery.Bounded.{attempts_behind, decide_bounded}

abbrev lost : Failure
lost = record {
  task_id = "t";
  error_code = ErrorCode.timeout;
  category = FailureCategory.timeout;
  reason = "timed out";
  capability = none;
  arguments = JsonMapping.end;
  target = none;
}

manager : RecoveryManager
manager = new_manager default_recovery_rules

found : find? (handles lost) manager.rules ≡ some retry_transient_rule
unfolding manager new_manager default_recovery_rules handles
found = refl

-- The fourth recovery from a timeout stops the run.
decide_bounded_example :
    ((decide manager lost (attempts_behind manager lost 3 [])).0.strategy ≡ RecoveryStrategy.stop)
    × ((decide manager lost (attempts_behind manager lost 3 [])).0.attempt ≡ 4)
unfolding get
decide_bounded_example = decide_bounded manager lost retry_transient_rule found 3 []
