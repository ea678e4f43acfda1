-- ===== src/Agent/Stepped.antt =====
-- What the observation of an action and the plan of a recovery promise of the next step.
use universal_agent.Prelude.{
  true, false, ℕ, zero, suc, String, not, Option, none, some, Result, ok, raised, Bool-cases, inl,
  inr, Keeps, then-Keeps, Returns, then-Returns, kept-Returns, return, ◌>>=◌, Bool,
}
use universal_agent.Prelude.Text.{is_empty_text}
use universal_agent.Core.Enums.{ErrorCode}
use universal_agent.Core.Models.{Observation, PendingAction}
use universal_agent.Recovery.Models.{Failure, RecoveryDecision, RecoveryStrategy, decide}
use universal_agent.Runtime.Transitions.{SessionMethod, Transition, fail}
use universal_agent.Actions.Models.{ActionMethod, Machine}
use universal_agent.Actions.Invoke.{is_succeeded}
use universal_agent.Actions.Resources.{on_agent_state}
use universal_agent.Agent.Models.{AgentRuntime, Evaluated, Processed, Step, stop, again, go_on}
use universal_agent.Agent.Settle.{commit_session_event, note, on_session, settle_with}
use universal_agent.Agent.Process.{process}
use universal_agent.Agent.Recover.{
  after_evaluation, count, failure_of, is_failed_evaluation, note_each, observe, observe_evaluated,
  observed_code, observed_error, plan_decided, plan_failure, plan_recovery_for_pending, recover,
  recovery_event, stop_with, with_attempt, world_event, started_event, observe_processed,
}
use universal_agent.Agent.Steady.{commit-Holds, note-Holds, on_session-Holds}
use universal_agent.Agent.Ends.{Idle, Quits, fail-Quits, pause-Quits, settle_with-Returns}
use universal_agent.Agent.Counted.{IsAt, at, process-IsAt}

module _ (a : AgentRuntime) (k : ℕ) where
  abbrev P : Machine → Type 0
  P m = IsAt k m.session

  -- What a step promises.
  abbrev pub StepPost : (Machine → Type 0) → Step → Machine → Type 0
  StepPost G (stop result) m = Idle m.session
  StepPost G (again decision) m = P m
  StepPost G go_on m = G m

  stop_with-Post :
      (G : Machine → Type 0) (f : SessionMethod Transition)
      → Quits f
      → (m : Machine) → Returns (StepPost G) (stop_with a f m)
  stop_with-Post G f quits m =
      then-Returns (λ _ m. Idle m.session) (StepPost G) (settle_with a f)
        (λ result. return (stop result)) m (settle_with-Returns a f quits m) (λ _ m h. h)

  recover-Post :
      (G : Machine → Type 0) (strategy : RecoveryStrategy) (recovery : RecoveryDecision)
      (pending : PendingAction) (failure : Failure) (m : Machine)
      → P m
      → Returns (StepPost G) (recover a strategy recovery pending failure m)
  unfolding recover
  recover-Post G RecoveryStrategy.retry_action recovery pending failure m h = h
  recover-Post G RecoveryStrategy.reobserve recovery pending failure m h = h
  recover-Post G RecoveryStrategy.alternative_capability recovery pending failure m h = h
  recover-Post G RecoveryStrategy.ask_user recovery pending failure m h =
      stop_with-Post G _ (pause-Quits failure.reason _ "GoalWaiting" none) m
  recover-Post G RecoveryStrategy.expand_diagnosis_task recovery pending failure m h =
      stop_with-Post G (fail failure.error_code failure.reason)
        (fail-Quits failure.error_code failure.reason) m
  recover-Post G RecoveryStrategy.stop recovery pending failure m h =
      stop_with-Post G (fail failure.error_code failure.reason)
        (fail-Quits failure.error_code failure.reason) m
  recover-Post G RecoveryStrategy.rollback recovery pending failure m h =
      stop_with-Post G (fail failure.error_code failure.reason)
        (fail-Quits failure.error_code failure.reason) m

  attempt-kept : (key : String) (n : ℕ) → Keeps P (on_agent_state (with_attempt key n))
  attempt-kept key n m h = elim (Bool-cases (is_empty_text key)) [ inl e ↦ rw e h | inr e ↦ rw e h ]

  plan_decided-Post :
      (G : Machine → Type 0) (d : RecoveryDecision × String) (pending : PendingAction)
      (failure : Failure) (m : Machine)
      → P m
      → Returns (StepPost G) (plan_decided a d pending failure m)
  unfolding plan_decided
  plan_decided-Post G (recovery, key) pending failure m h =
      let s = (on_agent_state (with_attempt key recovery.attempt) m).1 in
      let c = commit_session_event a (recovery_event a recovery) (some pending.action_id) s in
      then-Returns (λ _ m. P m) (StepPost G)
        (commit_session_event a (recovery_event a recovery) (some pending.action_id))
        (λ _. recover a recovery.strategy recovery pending failure) s
        (kept-Returns P c.0 c.1 (
          commit-Holds a (at k) (recovery_event a recovery) (some pending.action_id) s
            (attempt-kept key recovery.attempt m h)))
        (λ _ m h. recover-Post G recovery.strategy recovery pending failure m h)

  pub plan_failure-Post :
      (G : Machine → Type 0) (pending : PendingAction) (code : ErrorCode) (reason : String)
      (m : Machine)
      → P m
      → Returns (StepPost G) (plan_failure a pending code reason m)
  unfolding plan_failure plan_recovery_for_pending
  plan_failure-Post G pending code reason m h =
      let failure = failure_of a pending code reason m in
      plan_decided-Post G (decide a.recovery_manager failure m.session.state.recovery_attempts)
        pending failure m h

  note_each-kept :
      (n : ℕ) (type : String) (action_id : Option String) → Keeps P (note_each a n type action_id)
  unfolding note_each
  note_each-kept zero type action_id m h = h
  note_each-kept (suc n) type action_id m h =
      then-Keeps P (note a type action_id) (λ _. note_each a n type action_id)
        (note-Holds a (at k) type action_id) (λ _. note_each-kept n type action_id) m h

  world_event-kept : (n : ℕ) (action_id : Option String) → Keeps P (world_event a n action_id)
  world_event-kept zero action_id m h = h
  world_event-kept (suc n) action_id m h = note-Holds a (at k) "WorldModelUpdated" action_id m h

  -- A step that keeps the count, and what follows it.
  pub and-Post :
      {A B : Type 0} (Q : B → Machine → Type 0) (f : ActionMethod A) (g : A → ActionMethod B)
      (m : Machine)
      → Keeps P f
      → P m
      → ((a : A) (m : Machine) → P m → Returns Q (g a m))
      → Returns Q ((f >>= g) m)
  and-Post Q f g m keeps h rest =
      then-Returns (λ _ m. P m) Q f g m (kept-Returns P (f m).0 (f m).1 (keeps m h)) rest

  started_event-kept : (b : Bool) → Keeps P (started_event a b)
  started_event-kept true m h = note-Holds a (at k) "TaskStarted" none m h
  started_event-kept false m h = h

  after_evaluation-Post :
      (pending : PendingAction) (p : Processed) (m : Machine)
      → P m
      → Returns (StepPost P) (after_evaluation a pending p m)
  unfolding after_evaluation
  after_evaluation-Post pending p m h =
      let e = p.evaluation in
      let id = some pending.action_id in
      elim (Bool-cases (is_failed_evaluation e.status)) [
        | inl f ↦ rw f (plan_failure-Post P pending ErrorCode.evaluation_failed e.reason m h)
        | inr f ↦ rw f (
            and-Post (StepPost P) (started_event a p.is_next_started) _ m
              (started_event-kept p.is_next_started) h
              λ _ m h.
                and-Post (StepPost P) (commit_session_event a "StateUpdated" id) (λ _. return go_on)
                  m (commit-Holds a (at k) "StateUpdated" id) h (λ _ m h. h))
      ]

  observe_processed-Post :
      (pending : PendingAction) (n : ℕ) (r : Result String Processed) (m : Machine)
      → P m
      → Returns (StepPost P) (observe_processed a pending n r m)
  unfolding observe_processed
  observe_processed-Post pending n (raised x) m h =
      stop_with-Post P (fail ErrorCode.evaluation_failed x)
        (fail-Quits ErrorCode.evaluation_failed x) m
  observe_processed-Post pending n (ok p) m h =
      let id = some pending.action_id in
      and-Post (StepPost P) (note_each a n "EvidenceRecorded" id) _ m
        (note_each-kept n "EvidenceRecorded" id) h
        λ _ m h. and-Post (StepPost P) (world_event a n id) _ m (world_event-kept n id) h λ _ m h.
          and-Post (StepPost P) (note_each a (count p.created) "TaskCreated" none) _ m
            (note_each-kept (count p.created) "TaskCreated" none) h
            λ _ m h.
              and-Post (StepPost P) (note a "EvaluationCompleted" id) _ m
                (note-Holds a (at k) "EvaluationCompleted" id) h
                λ _ m h. after_evaluation-Post pending p m h

  observe_evaluated-Post :
      (pending : PendingAction) (r : Result String Evaluated) (m : Machine)
      → P m
      → Returns (StepPost P) (observe_evaluated a pending r m)
  unfolding observe_evaluated
  observe_evaluated-Post pending (raised x) m h =
      stop_with-Post P (fail ErrorCode.evaluation_failed x)
        (fail-Quits ErrorCode.evaluation_failed x) m
  observe_evaluated-Post pending (ok evaluated) m h =
      let now = a.executor.utc_now m in
      and-Post (StepPost P) (on_session (process evaluated now)) _ m
        (on_session-Holds a (at k) (process evaluated now) (process-IsAt k evaluated now)) h
        λ r m h. observe_processed-Post pending evaluated.evidence r m h

  pub observe-Post :
      (pending : PendingAction) (observation : Observation) (m : Machine)
      → P m
      → Returns (StepPost P) (observe a pending observation m)
  unfolding observe
  observe-Post pending observation m h = elim (Bool-cases (not (is_succeeded observation.status))) [
    | inl e ↦ rw e (
        plan_failure-Post P pending (observed_code a observation) (observed_error a observation) m
          h)
    | inr e ↦ rw e (observe_evaluated-Post pending (a.evaluate pending observation m) m h)
  ]
