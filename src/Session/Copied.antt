-- ===== src/Session/Copied.antt =====
-- What a session keeps on its way through the store.
use universal_agent.Prelude.{
  ◌≡◌, refl, ap, ◌∙◌, false, Option, none, some, List, [], ◌∷◌, map, ok, arith, String_eq,
}
use text.Mathlib.TextEquality.{eq_iff}
use universal_agent.Prelude.Dict.{has, get-put}
use universal_agent.Core.Models.{AgentState, Task, Observation, EvaluationResult, PendingAction}
use universal_agent.Session.Models.{SessionSnapshot}
use universal_agent.Session.Copy.{
  copy_session, copy_state, copy_observation, copy_evaluation, copy_pending_action,
}
use universal_agent.Session.Store.{Sessions, create_session, load_session, id_of, with_version}

-- What `copy_session` keeps of a state, and what it resets.
pub record Kept (before after : AgentState Task) : Type 0 where
  pub session_id : after.session_id ≡ before.session_id
  pub goal : after.goal ≡ before.goal
  pub iteration : after.iteration ≡ before.iteration
  pub criteria : after.satisfied_criteria ≡ before.satisfied_criteria
  pub observations : after.observations ≡ before.observations
  pub evaluation : after.latest_evaluation ≡ before.latest_evaluation
  pub pending : after.pending_action ≡ before.pending_action
  pub approved : after.approved_fingerprints ≡ before.approved_fingerprints
  pub attempts : after.recovery_attempts ≡ before.recovery_attempts
  pub reason : after.termination_reason ≡ before.termination_reason
  pub error : after.error_code ≡ before.error_code
  pub cost : after.cumulative_cost_micros ≡ 0
  pub tokens : after.cumulative_tokens ≡ 0
  pub continuation : after.is_continuation ≡ false

pub copied_observations : (xs : List Observation) → map copy_observation xs ≡ xs
copied_observations [] = refl
copied_observations (x ∷ xs) = ap (λ ys. x ∷ ys) (copied_observations xs)

pub copied_evaluation : (e : Option EvaluationResult) → copy_evaluation e ≡ e
copied_evaluation none = refl
copied_evaluation (some e) = refl

pub copied_pending_action : (a : Option PendingAction) → copy_pending_action a ≡ a
copied_pending_action none = refl
copied_pending_action (some a) = refl

copy_session-Kept : (s : SessionSnapshot) → Kept s.state (copy_session s).state
unfolding copy_session copy_state
copy_session-Kept s = record {
  session_id = refl;
  goal = refl;
  iteration = refl;
  criteria = refl;
  observations = copied_observations s.state.observations;
  evaluation = copied_evaluation s.state.latest_evaluation;
  pending = copied_pending_action s.state.pending_action;
  approved = refl;
  attempts = refl;
  reason = refl;
  error = refl;
  cost = refl;
  tokens = refl;
  continuation = refl;
}

Kept-trans : (a b c : AgentState Task) → Kept a b → Kept b c → Kept a c
Kept-trans a b c p q = record {
  session_id = q.session_id ∙ p.session_id;
  goal = q.goal ∙ p.goal;
  iteration = q.iteration ∙ p.iteration;
  criteria = q.criteria ∙ p.criteria;
  observations = q.observations ∙ p.observations;
  evaluation = q.evaluation ∙ p.evaluation;
  pending = q.pending ∙ p.pending;
  approved = q.approved ∙ p.approved;
  attempts = q.attempts ∙ p.attempts;
  reason = q.reason ∙ p.reason;
  error = q.error ∙ p.error;
  cost = q.cost;
  tokens = q.tokens;
  continuation = q.continuation;
}

load_created :
    (s : SessionSnapshot) (sessions : Sessions)
    → has sessions (id_of s) ≡ false
    → (load_session (id_of s) (create_session s sessions).1).0
      ≡ ok (copy_session (with_version (copy_session s) 0))
unfolding load_session create_session
load_created s sessions h = ground (
  arith,
  get-put sessions (id_of s) (id_of s) (with_version (copy_session s) 0),
  eq_iff (id_of s) (id_of s),
)

-- A session that is new to the store and created there is loaded with the goal, the progress and the
-- verdicts that it was created with, at version 0, but with its cost and token totals at 0 and no
-- longer as a continuation, whatever they were.
pub load-create_session :
    (s : SessionSnapshot) (sessions : Sessions)
    → has sessions (id_of s) ≡ false
    → (loaded : SessionSnapshot) × ((load_session (id_of s) (create_session s sessions).1).0
        ≡ ok loaded)
      × (loaded.version ≡ 0)
      × Kept s.state loaded.state
load-create_session s sessions h =
    let stored = with_version (copy_session s) 0 in
    (
      copy_session stored,
      load_created s sessions h,
      (unfold copy_session in refl),
      Kept-trans s.state stored.state (copy_session stored).state (copy_session-Kept s)
          (copy_session-Kept stored),
    )
