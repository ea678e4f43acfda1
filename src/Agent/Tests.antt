-- ===== src/Agent/Tests.antt =====
-- A runtime of at most three iterations.
use universal_agent.Prelude.{◌≡◌, refl, arith, true, false, none, some, [], ◌∷◌, Returns, ok}
use universal_agent.Core.Json.{JsonMapping}
use universal_agent.Core.Enums.{DecisionType, EvaluationStatus, GoalStatus}
use universal_agent.Core.Models.{Decision}
use universal_agent.Actions.Example.{executor, machine, pending, session}
use universal_agent.Actions.Models.{Machine}
use universal_agent.Agent.Models.{AgentRuntime, ControlRequest, ModelAnswer, proposed}
use universal_agent.Agent.Drive.{drive}
use universal_agent.Agent.Loop.{loop}
use universal_agent.Agent.Control.{cancel_session, resume}
use universal_agent.Agent.Ends.{Post}
use universal_agent.Agent.Counted.{IsAt}
use universal_agent.Agent.Driven.{drive-Post}
use universal_agent.Agent.Bounded.{Ended, loop-Ended}
use universal_agent.Agent.Controlled.{resume-Ended}
use universal_agent.Agent.Leaked.{cancel_session-locks}

abbrev decision : Decision
decision = record {
  type = DecisionType.execute;
  reason = "it is down";
  capability = some "restart";
  target = some "web";
  arguments = JsonMapping.end;
  expected_observations = "restarted" ∷ [];
  message = none;
}

abbrev runtime : AgentRuntime
runtime = record {
  executor = executor;
  recovery_manager = record { rules = [] };
  max_iterations = 3;
  max_recovery_steps = 8;
  max_model_retries = 2;
  max_total_cost_micros = none;
  max_total_tokens = none;
  store_raises = λ m. none;
  requested = λ m. ControlRequest.nothing;
  is_expired = λ m. false;
  decide = λ m attempt. ModelAnswer.decided decision;
  usage = λ m. none;
  validate_argument_contract = λ contract arguments. none;
  evaluate = λ pending observation m. ok (record {
    evidence = 1;
    specs = [];
    evaluation = ok (record {
      status = EvaluationStatus.incomplete;
      reason = "not yet";
      evaluator_name = "e";
      matched_criteria = JsonMapping.end;
      task_completed = false;
      goal_completed = false;
    });
  });
}

-- The session of the example, waiting with an action that holds its lock.
abbrev waiting : Machine
waiting = record machine {
  session = record session {
    state = record session.state {
      goal = record session.state.goal { status = GoalStatus.waiting };
      pending_action = some pending;
    };
  };
  locks =
      ("web", record { resource_key = "web"; action_id = "a"; session_id = "s"; task_id = "t" })
      ∷ [];
}

loop-Ended_example :
    Returns (Ended runtime) (loop runtime 4 machine)
    × (loop runtime 4 machine ≡ loop runtime 7 machine)
loop-Ended_example = loop-Ended runtime 4 7 machine (omega arith) (omega arith)

drive-Post_example :
    Returns (Post (λ m. IsAt 0 m.session)) (drive runtime (proposed decision) machine)
drive-Post_example = drive-Post runtime 0 (proposed decision) machine refl

resume-Ended_example : Returns (Ended runtime) (resume runtime (some true) waiting)
resume-Ended_example = resume-Ended runtime (some true) waiting refl

cancel_session-locks_example : (cancel_session runtime "stop" waiting).1.locks ≡ waiting.locks
cancel_session-locks_example = cancel_session-locks runtime "stop" waiting
