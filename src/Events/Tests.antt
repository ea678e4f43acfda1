-- ===== src/Events/Tests.antt =====
-- A journal of two sessions, and the theorems at it.
use universal_agent.Prelude.{◌≡◌, refl, String, none, List, [], ◌∷◌, filter}
use universal_agent.Prelude.Dict.{get, put}
use universal_agent.Core.Json.{JsonMapping}
use universal_agent.Events.Journal.{RuntimeEvent, empty_store, events_for, append_event, all_events}
use universal_agent.Events.Index.{behind, is_of, behind-events_for, append_event-again}

abbrev event : String → String → RuntimeEvent
event session_id id = record {
  type = "GoalCompleted";
  session_id = session_id;
  goal_id = "g";
  task_id = "t";
  id = id;
  action_id = none;
  values = JsonMapping.end;
  occurred_at = 1;
}

abbrev events : List RuntimeEvent
events = event "a" "1" ∷ event "b" "2" ∷ event "a" "3" ∷ event "a" "1" ∷ []

of_a : events_for "a" (behind events empty_store) ≡ event "a" "1" ∷ event "a" "3" ∷ []
unfolding events_for behind append_event get put
of_a = refl

behind-events_for_example :
    events_for "a" (behind events empty_store)
    ≡ filter (is_of "a") (all_events (behind events empty_store))
behind-events_for_example = behind-events_for events "a"

append_event-again_example :
    append_event (event "a" "1") (behind events (append_event (event "a" "1") empty_store))
    ≡ behind events (append_event (event "a" "1") empty_store)
append_event-again_example = append_event-again (event "a" "1") events empty_store
