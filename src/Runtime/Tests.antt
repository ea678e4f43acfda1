-- ===== src/Runtime/Tests.antt =====
-- A session of two tasks, and the theorems at it.
use universal_agent.Prelude.{
  ◌≡◌, refl, String, true, false, none, [], ◌∷◌, Mem, inl, inr, String_eq,
}
use universal_agent.Prelude.Dict.{has}
use universal_agent.Core.Json.{JsonMapping}
use universal_agent.Core.Enums.{GoalStatus, TaskStatus, ErrorCode}
use universal_agent.Core.Models.{Task}
use universal_agent.Tasks.Manager.{TaskManager}
use universal_agent.Tasks.Valid.{IsValid}
use universal_agent.Runtime.Transitions.{
  SessionRuntimeState, finish, cancel, continued_reason, rejected_reason,
}
use universal_agent.Runtime.Finish.{Completed, Authorised, Failed, finish-Authorised}
use universal_agent.Runtime.Cancel.{Cancelled, cancel-Cancelled}

abbrev task : String → TaskStatus → Task
task id status = record {
  description = id;
  required_criteria = [];
  id = id;
  status = status;
  created_at = 1;
}

abbrev graph : TaskManager
graph = record {
  tasks = ("r", task "r" TaskStatus.completed) ∷ ("t", task "t" TaskStatus.running) ∷ [];
  keys = ("root", "r") ∷ ("t", "t") ∷ [];
  dependencies = ("r", []) ∷ ("t", "r" ∷ []) ∷ [];
  order = "r" ∷ "t" ∷ [];
  current_id = "t";
}

abbrev session : SessionRuntimeState
session = record {
  state = record {
    session_id = "s";
    goal = record {
      description = "keep it up";
      success_criteria = [];
      id = "g";
      status = GoalStatus.running;
      created_at = 1;
    };
    current_task = "t";
    read_only = false;
    iteration = 3;
    satisfied_criteria = JsonMapping.end;
    observations = [];
    latest_evaluation = none;
    pending_action = none;
    approved_fingerprints = [];
    tasks = "r" ∷ "t" ∷ [];
    recovery_attempts = [];
    termination_reason = none;
    error_code = none;
    tenant_id = none;
    cumulative_cost_micros = 0;
    cumulative_tokens = 0;
    is_continuation = false;
  };
  tasks = graph;
  domain_name = "ops";
  domain_version = "1";
  version = 0;
}

in_table : (id : String) → Mem id ("r" ∷ "t" ∷ []) → has graph.tasks id ≡ true
unfolding has
in_table id (inl e) = cc e
in_table id (inr (inl e)) = cc e
in_table id (inr (inr e)) = absurd e

graph-IsValid : IsValid graph
unfolding has
graph-IsValid = record { current_known = refl; order_known = in_table }

finish-Authorised_example :
    (session.state.is_continuation ≡ true → Completed continued_reason (finish session))
    × (session.state.is_continuation ≡ false
        → ((a : Authorised session) → Completed a.evaluation.reason (finish session))
          × (¬ Authorised session
              → Failed ErrorCode.invalid_state rejected_reason (finish session)))
finish-Authorised_example = finish-Authorised session graph-IsValid

cancel-Cancelled_example :
    Cancelled "stopped by the user" session (cancel "stopped by the user" session)
cancel-Cancelled_example = cancel-Cancelled "stopped by the user" session graph-IsValid
