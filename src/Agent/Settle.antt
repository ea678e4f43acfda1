-- ===== src/Agent/Settle.antt =====
-- Events, commits and `_settle` of src/universal_agent/runtime/agent.py and emission.py.
use universal_agent.Prelude.{
  ◌+◌, String, Bool, true, false, Option, none, some, ◌∷◌, Result, ok, raised, return, throw,
  modify, gets, ◌>>=◌, ◌>>◌,
}
use universal_agent.Core.Enums.{ExecutionStatus}
use universal_agent.Core.Models.{ExecutionResult, PendingAction}
use universal_agent.Tasks.Manager.{TaskError}
use universal_agent.Runtime.Transitions.{
  SessionMethod, Transition, cancel, pause, sync_current_task,
}
use universal_agent.Actions.Models.{ActionError, ActionMethod, failed}
use universal_agent.Actions.Resources.{on_agent_state, release_pending_resource, with_pending}
use universal_agent.Agent.Models.{
  AgentRuntime, ControlRequest, nothing, cancel_requested, pause_requested,
}

abbrev pub lifted : {A : Type 0} → Result TaskError A → Result ActionError A
lifted (ok a) = ok a
lifted (raised (TaskError.value_error x)) = raised (failed x)
lifted (raised (TaskError.key_error x)) = raised (failed x)

-- A method of the session.
abbrev pub on_session : {A : Type 0} → SessionMethod A → ActionMethod A
on_session f m = let (r, session) = f m.session in (lifted r, record m { session = session })

-- The event, unless its emitter raises.
unfoldable pub noted : Option ActionError → String → Option String → ActionMethod Unit
noted (some x) type action_id = throw x
noted none type action_id =
    modify (λ m. record m { events = record { type = type; action_id = action_id } ∷ m.events })

-- The snapshot in the store, unless the store raises.
unfoldable pub stored : Option ActionError → ActionMethod Unit
stored (some x) = throw x
stored none =
    modify (λ m. record m { session = record m.session { version = m.session.version + 1 } })

abbrev pub is_terminal : ExecutionStatus → Bool
is_terminal ExecutionStatus.waiting = false
is_terminal _ = true

module _ (a : AgentRuntime) where
  -- `_emit`
  unfoldable pub note : String → Option String → ActionMethod Unit
  unfolding noted
  note type action_id m = noted (a.executor.emit_raises type m) type action_id m

  -- `_save`: the snapshot, which aligns the session, goes to the store.
  unfoldable pub save : ActionMethod Unit
  unfolding stored
  save = do on_session sync_current_task; λ m. stored (a.store_raises m) m

  -- `commit_session_event`
  unfoldable pub commit_session_event : String → Option String → ActionMethod Unit
  unfolding save note
  commit_session_event type action_id = do save; note type action_id

  -- The part of `_settle` that gives the lock of a pending action back.
  unfoldable pub release_pending : Bool → Option PendingAction → ActionMethod Unit
  release_pending true (some pending) = do
    on_agent_state (with_pending none)
    release_pending_resource a.executor pending
  release_pending _ _ = return tt

  -- `_settle`
  unfoldable pub settle : Transition → ActionMethod ExecutionResult
  unfolding release_pending commit_session_event
  settle transition = do
    pending ← gets (λ m. m.session.state.pending_action)
    release_pending (is_terminal transition.result.status) pending
    commit_session_event transition.event_type transition.action_id
    return transition.result

  -- A transition of the session that is settled.
  unfoldable pub settle_with : SessionMethod Transition → ActionMethod ExecutionResult
  unfolding settle
  settle_with f = do transition ← on_session f; settle transition

  abbrev pub stopped : ActionMethod ExecutionResult → ActionMethod (Option ExecutionResult)
  stopped f = f >>= λ result. return (some result)

  -- `_requested_control_transition`, for what is requested.
  unfoldable pub control_transition : ControlRequest → ActionMethod (Option ExecutionResult)
  unfolding settle_with
  control_transition nothing = return none
  control_transition (cancel_requested reason) = stopped (settle_with (cancel reason))
  control_transition (pause_requested reason) =
      stopped (settle_with (pause reason none "SessionPaused" none))

  unfoldable pub requested_control_transition : ActionMethod (Option ExecutionResult)
  unfolding control_transition
  requested_control_transition m = control_transition (a.requested m) m

  abbrev pub expired_reason : String
  expired_reason = "wall-clock budget expired; session paused at runtime boundary"

  unfoldable pub pause_if : Bool → ActionMethod (Option ExecutionResult)
  unfolding settle_with
  pause_if true = stopped (settle_with (pause expired_reason none "SessionPaused" none))
  pause_if false = return none

  -- `_pause_if_budget_expired`
  unfoldable pub pause_if_budget_expired : ActionMethod (Option ExecutionResult)
  unfolding pause_if
  pause_if_budget_expired m = pause_if (a.is_expired m) m
