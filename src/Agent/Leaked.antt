-- ===== src/Agent/Leaked.antt =====
-- A cancellation keeps the lock of the pending action.
use universal_agent.Prelude.{
  ◌≡◌, refl, String, Bool, true, false, Option, none, some, Bool-cases, inl, inr, Keeps, then-Keeps,
  return, bind-keeps, ◌>>◌,
}
use universal_agent.Core.Models.{PendingAction}
use universal_agent.Coordination.Locks.{Locks}
use universal_agent.Runtime.Transitions.{
  SessionRuntimeState, Transition, cancel, cancel_tasks, cancelled_state, on_tasks,
  sync_current_task,
}
use universal_agent.Actions.Models.{ActionError, Machine}
use universal_agent.Agent.Models.{AgentRuntime}
use universal_agent.Agent.Settle.{
  commit_session_event, is_terminal, note, noted, on_session, release_pending, save, settle,
  settle_with, stored,
}
use universal_agent.Agent.Control.{cancel_session, is_ended, refused}
use universal_agent.Agent.Steady.{Aligned, on_tasks-Keeps, sync-Keeps}

-- No action is pending.
abbrev Unpending : SessionRuntimeState → Type 0
Unpending s = s.state.pending_action ≡ none

abbrev unpending : Aligned
unpending = record {
  holds = Unpending;
  current = λ s x h. h;
  listed = λ s xs h. h;
  table = λ s t h. h;
  version = λ s n h. h;
}

cancel-Unpending : (reason : String) (s : SessionRuntimeState) → Unpending (cancel reason s).1
unfolding cancel
cancel-Unpending reason s =
    then-Keeps Unpending (on_tasks cancel_tasks) _ (on_tasks-Keeps unpending cancel_tasks)
      (λ _. then-Keeps Unpending sync_current_task _ (sync-Keeps unpending) (λ _ s h. h))
      (record s { state = cancelled_state reason s.state }) refl

module _ (a : AgentRuntime) (locks : Locks) where
  abbrev Has : Machine → Type 0
  Has m = m.locks ≡ locks

  noted-Has :
      (o : Option ActionError) (type : String) (id : Option String) → Keeps Has (noted o type id)
  unfolding noted
  noted-Has none type id m h = h
  noted-Has (some x) type id m h = h

  note-Has : (type : String) (id : Option String) → Keeps Has (note a type id)
  unfolding note
  note-Has type id m h = noted-Has (a.executor.emit_raises type m) type id m h

  stored-Has : (o : Option ActionError) → Keeps Has (stored o)
  unfolding stored
  stored-Has none m h = h
  stored-Has (some x) m h = h

  save-Has : Keeps Has (save a)
  unfolding save
  save-Has m h =
      then-Keeps Has (on_session sync_current_task) (λ _ m. stored (a.store_raises m) m) (λ m h. h)
        (λ _ m h. stored-Has (a.store_raises m) m h) m h

  commit-Has : (type : String) (id : Option String) → Keeps Has (commit_session_event a type id)
  unfolding commit_session_event
  commit-Has type id =
      then-Keeps Has (save a) (λ _. note a type id) save-Has (λ _. note-Has type id)

  unreleased : (b : Bool) (o : Option PendingAction) → o ≡ none → Keeps Has (release_pending a b o)
  unfolding release_pending
  unreleased true none e m h = h
  unreleased false none e m h = h
  unreleased b (some pending) e m h = absurd (cc)

  settle-Has : (t : Transition) (m : Machine) → Unpending m.session → Has m → Has (settle a t m).1
  unfolding settle
  settle-Has t m e h =
      let o = m.session.state.pending_action in
      then-Keeps Has (release_pending a (is_terminal t.result.status) o)
        (λ _. commit_session_event a t.event_type t.action_id >> return t.result)
        (unreleased (is_terminal t.result.status) o e)
        (λ _.
          then-Keeps Has (commit_session_event a t.event_type t.action_id) (λ _. return t.result)
            (commit-Has t.event_type t.action_id) (λ _ m h. h))
        m h

  settled-Has : (reason : String) (m : Machine) → Has m → Has (settle_with a (cancel reason) m).1
  unfolding settle_with
  settled-Has reason m h =
      bind-keeps Has (on_session (cancel reason)) (settle a) m h
        (λ t e. settle-Has t (on_session (cancel reason) m).1 (cancel-Unpending reason m.session) h)

-- A cancellation of a session that no task runs releases no lock, not even the one that its pending
-- action holds.
pub cancel_session-locks :
    (a : AgentRuntime) (reason : String) (m : Machine)
    → (cancel_session a reason m).1.locks ≡ m.locks
unfolding cancel_session refused
cancel_session-locks a reason m = elim (Bool-cases (is_ended m.session.state.goal.status)) [
  | inl e ↦ rw e refl
  | inr e ↦ rw e (
      then-Keeps (Has a m.locks) (settle_with a (cancel reason)) (λ r. return (some r))
        (settled-Has a m.locks reason) (λ _ m h. h) m refl)
]
