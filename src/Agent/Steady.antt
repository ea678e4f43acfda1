-- ===== src/Agent/Steady.antt =====
-- What events, commits and the processing of observations leave as it was.
use universal_agent.Prelude.{
  sym, subst, arith, ◌⊎◌, ℕ, ◌+◌, ◌≡◌, String, Bool, true, false, Option, none, some, List,
  Result-cases, Option-cases, inl, inr, Keeps, then-Keeps, return, ◌>>◌, ◌⊎◌, subst, sym, arith,
}
use universal_agent.Prelude.Dict.{get}
use universal_agent.Core.Models.{PendingAction, Observation}
use universal_agent.Tasks.Manager.{TaskManager, TaskMethod, current, item_at}
use universal_agent.Tasks.Loops.{all_tasks}
use universal_agent.Runtime.Transitions.{
  SessionMethod, SessionRuntimeState, on_tasks, sync_current_task, Transition,
}
use universal_agent.Actions.Models.{ActionError, ActionMethod, Machine}
use universal_agent.Actions.Stable.{Stable, release_pending_resource-Spares}
use universal_agent.Agent.Models.{AgentRuntime}
use universal_agent.Agent.Settle.{
  commit_session_event, note, noted, on_session, release_pending, save, stored, settle, is_terminal,
}

-- A property of the session that neither its alignment with the task graph nor a save touches.
pub record Aligned : Type 1 where
  pub holds : SessionRuntimeState → Type 0
  pub current :
      (s : SessionRuntimeState) (x : String)
      → holds s
      → holds (record s { state = record s.state { current_task = x } })
  pub listed :
      (s : SessionRuntimeState) (xs : List String)
      → holds s
      → holds (record s { state = record s.state { tasks = xs } })
  pub table : (s : SessionRuntimeState) (t : TaskManager) → holds s → holds (record s { tasks = t })
  pub version : (s : SessionRuntimeState) (n : ℕ) → holds s → holds (record s { version = n })

-- The three ways of `sync_current_task`.
abbrev with_current : SessionRuntimeState → SessionRuntimeState
with_current s = record s { state = record s.state { current_task = s.tasks.current_id } }

abbrev with_listed : SessionRuntimeState → SessionRuntimeState
with_listed s = record s {
  state = record s.state { current_task = s.tasks.current_id; tasks = s.tasks.order };
}

sync-behind :
    (s : SessionRuntimeState)
    → ((sync_current_task s).1 ≡ s)
      ⊎ ((sync_current_task s).1 ≡ with_current s)
      ⊎ ((sync_current_task s).1 ≡ with_listed s)
unfolding sync_current_task current item_at
sync-behind s = elim (Option-cases (get s.tasks.tasks s.tasks.current_id)) [
  | inl e ↦ inl (ground arith)
  | inr (t, e) ↦ elim (Result-cases (all_tasks s.tasks.order s.tasks.tasks)) [
    | inl (x, d) ↦ inr (inl (ground arith))
    | inr (ts, d) ↦ inr (inr (ground arith))
  ]
]

module _ (p : Aligned) where
  pub sync-Keeps : Keeps p.holds sync_current_task
  sync-Keeps s h =
      let moved = p.current s s.tasks.current_id h in
      elim (sync-behind s) [
        | inl e ↦ subst p.holds (sym e) h
        | inr (inl e) ↦ subst p.holds (sym e) moved
        | inr (inr e) ↦ subst p.holds (sym e) (p.listed (with_current s) s.tasks.order moved)
      ]

  pub on_tasks-Keeps : {A : Type 0} (f : TaskMethod A) → Keeps p.holds (on_tasks f)
  on_tasks-Keeps f s h = p.table s (f s.tasks).1 h

-- A property of the session, for the machine.
abbrev pub OfSession : Aligned → Machine → Type 0
OfSession p m = p.holds m.session

-- A property that no event, no lock and no save touches.
pub record Steady : Type 1 where
  pub aligned : Aligned
  pub observations :
      (m : Machine) (os : List Observation)
      → aligned.holds m.session
      → aligned.holds (record m.session { state = record m.session.state { observations = os } })
  pub pending :
      (s : SessionRuntimeState) (x : Option PendingAction)
      → aligned.holds s
      → aligned.holds (record s { state = record s.state { pending_action = x } })
  pub approvals :
      (s : SessionRuntimeState) (x : List String)
      → aligned.holds s
      → aligned.holds (record s { state = record s.state { approved_fingerprints = x } })

-- No write of an action touches it.
abbrev pub stable : Steady → Stable
stable p = record {
  quiet = record {
    holds = OfSession p.aligned;
    events = λ m es h. h;
    versions = λ m vs h. h;
    observations = p.observations;
  };
  locks = λ m x h. h;
  keys = λ m x h. h;
  calls = λ m x h. h;
  pending = λ m x h. p.pending m.session x h;
  approvals = λ m x h. p.approvals m.session x h;
}

module _ (a : AgentRuntime) (p : Steady) where
  abbrev P : Machine → Type 0
  P = OfSession p.aligned

  abbrev pub Holds : {A : Type 0} → ActionMethod A → Type 0
  Holds f = Keeps (OfSession p.aligned) f

  noted-Holds :
      (o : Option ActionError) (type : String) (action_id : Option String)
      → Holds (noted o type action_id)
  unfolding noted
  noted-Holds none type action_id m h = h
  noted-Holds (some x) type action_id m h = h

  pub note-Holds : (type : String) (action_id : Option String) → Holds (note a type action_id)
  unfolding note
  note-Holds type action_id m h = noted-Holds (a.executor.emit_raises type m) type action_id m h

  stored-Holds : (o : Option ActionError) → Holds (stored o)
  unfolding stored
  stored-Holds none m h = p.aligned.version m.session (m.session.version + 1) h
  stored-Holds (some x) m h = h

  pub on_session-Holds :
      {A : Type 0} (f : SessionMethod A) → Keeps p.aligned.holds f → Holds (on_session f)
  on_session-Holds f k m h = k m.session h

  pub save-Holds : Holds (save a)
  unfolding save
  save-Holds m h =
      then-Keeps P (on_session sync_current_task) (λ _ m. stored (a.store_raises m) m)
        (on_session-Holds sync_current_task (sync-Keeps p.aligned))
        (λ _ m h. stored-Holds (a.store_raises m) m h) m h

  pub commit-Holds :
      (type : String) (action_id : Option String) → Holds (commit_session_event a type action_id)
  unfolding commit_session_event
  commit-Holds type action_id =
      then-Keeps P (save a) (λ _. note a type action_id) save-Holds (λ _. note-Holds type action_id)

  pub release_pending-Holds : (b : Bool) (o : Option PendingAction) → Holds (release_pending a b o)
  unfolding release_pending
  release_pending-Holds true (some pending) m h =
      release_pending_resource-Spares a.executor (stable p) pending _ (p.pending m.session none h)
  release_pending-Holds true none m h = h
  release_pending-Holds false (some pending) m h = h
  release_pending-Holds false none m h = h

  -- `settle` itself writes nothing else.
  pub settle-Holds : (t : Transition) → Holds (settle a t)
  unfolding settle
  settle-Holds t m h =
      then-Keeps P (release_pending a (is_terminal t.result.status) m.session.state.pending_action)
        (λ _. commit_session_event a t.event_type t.action_id >> return t.result)
        (release_pending-Holds (is_terminal t.result.status) m.session.state.pending_action)
        (λ _.
          then-Keeps P (commit_session_event a t.event_type t.action_id) (λ _. return t.result)
            (commit-Holds t.event_type t.action_id) (λ _ m h. h))
        m h
