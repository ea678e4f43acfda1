-- ===== src/Events/Journal.antt =====
-- `InMemoryEventStore` and the replay of src/universal_agent/state/event_store.py. The codec of
-- snapshots is a parameter; the field `values` is the `data` of the source.
use Prim.Native.String.{◌++◌}
use universal_agent.Prelude.{
  ℕ, String, Option, none, some, List, [], ◌∷◌, ◌++◌ as append, contains, if◌then◌else◌, Result, ok,
  raised, not, ◌==◌, String_eq,
}
use universal_agent.Prelude.Dict.{Dict, get, put}
use universal_agent.Core.Json.{JsonValue, JsonMapping}

pub record RuntimeEvent : Type 0 where
  pub type : String
  pub session_id : String
  pub goal_id : String
  pub task_id : String
  pub id : String
  pub action_id : Option String
  pub values : JsonMapping
  pub occurred_at : ℕ

-- `_event_ids` is a set, of which only membership is read.
pub record EventStore : Type 0 where
  pub events : List RuntimeEvent
  pub event_ids : List String
  pub by_session : Dict (List RuntimeEvent)

abbrev pub empty_store : EventStore
empty_store = record { events = []; event_ids = []; by_session = [] }

abbrev pub or_empty : Option (List RuntimeEvent) → List RuntimeEvent
or_empty none = []
or_empty (some events) = events

unfoldable pub events_for : String → EventStore → List RuntimeEvent
events_for session_id store = or_empty (get store.by_session session_id)

-- `append`
unfoldable pub append_event : RuntimeEvent → EventStore → EventStore
unfolding events_for
append_event event store = if contains store.event_ids event.id then store else record {
  events = append store.events (event ∷ []);
  event_ids = event.id ∷ store.event_ids;
  by_session =
      put store.by_session event.session_id
        (append (events_for event.session_id store) (event ∷ []));
}

-- `clear`
abbrev pub clear : EventStore → EventStore
clear store = empty_store

-- `all`
abbrev pub all_events : EventStore → List RuntimeEvent
all_events store = store.events

-- `EventReplayError`, with its message.
pub data ReplayError : Type 0 where
  replay_error : String → ReplayError

-- `data.get(key)`
unfoldable pub field_at : String → JsonMapping → Option JsonValue
field_at key JsonMapping.end = none
field_at key (JsonMapping.field k v rest) =
    let other = field_at key rest in if k == key then some v else other

module _ {S : Type 0} (decode : JsonValue → Result String S) where
  -- The loop of `rebuild_session_snapshot`: the last snapshot that a committed event carries.
  unfoldable pub rebuild_from : List RuntimeEvent → Option S → Result ReplayError (Option S)
  rebuild_from [] candidate = ok candidate
  rebuild_from (event ∷ rest) candidate =
      let skipped = rebuild_from rest candidate in
      if not (event.type == "SessionStateCommitted")
      then skipped
      else elim (field_at "snapshot" event.values) [
        | none ↦ skipped
        | some payload ↦ elim (decode payload) [
          | raised x ↦
              raised (
                replay_error ("failed to decode session state event " ++ (event.id ++ (": " ++ x))))
          | ok snapshot ↦ rebuild_from rest (some snapshot)
        ]
      ]

  unfoldable pub rebuild_session_snapshot : EventStore → String → Result ReplayError S
  unfolding rebuild_from
  rebuild_session_snapshot store session_id =
      elim (rebuild_from (events_for session_id store) none) [
        | raised x ↦ raised x
        | ok none ↦ raised (replay_error ("no session state events for " ++ session_id))
        | ok (some snapshot) ↦ ok snapshot
      ]
