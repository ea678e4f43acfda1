-- ===== src/Session/Tests.antt =====
-- One session in a store, and the theorems at it.
use Prim.Native.String.{◌++◌}
use universal_agent.Prelude.{
  suc, ◌≡◌, refl, String, false, true, none, some, List, [], ◌∷◌, ok, raised, if◌then◌else◌,
  String_eq, ◌==◌, Mem, inl, inr, ap,
}
use universal_agent.Prelude.Dict.{get, has}
use universal_agent.Core.Json.{JsonMapping}
use universal_agent.Core.Enums.{GoalStatus, TaskStatus}
use universal_agent.Core.Models.{AgentState, Task}
use universal_agent.Session.Models.{SessionSnapshot, session_from_state}
use universal_agent.Session.Paging.{value_error, is_refused, paginate}
use universal_agent.Session.Pages.{first, after, is_listed, paginate-first}
use universal_agent.Session.Store.{
  Sessions, create_session, load_session, save_session, id_of, with_version, conflict,
}
use universal_agent.Tasks.Manager.{TaskNodeSnapshot}
use universal_agent.Session.Tables.{IsShared, restarted}
use universal_agent.Session.Versions.{Call, behind, stale_save_refused, load-save_session}
use universal_agent.Session.Copied.{Kept, load-create_session}

abbrev task : Task
task = record {
  description = "watch";
  required_criteria = [];
  id = "t";
  status = TaskStatus.running;
  created_at = 1;
}

abbrev state : AgentState Task
state = record {
  session_id = "s";
  goal = record {
    description = "keep it up";
    success_criteria = [];
    id = "g";
    status = GoalStatus.running;
    created_at = 1;
  };
  current_task = task;
  read_only = false;
  iteration = 3;
  satisfied_criteria = JsonMapping.end;
  observations = [];
  latest_evaluation = none;
  pending_action = none;
  approved_fingerprints = [];
  tasks = task ∷ [];
  recovery_attempts = [];
  termination_reason = none;
  error_code = none;
  tenant_id = none;
  cumulative_cost_micros = 700;
  cumulative_tokens = 90;
  is_continuation = true;
}

abbrev fresh : SessionSnapshot
fresh = session_from_state state "" "" []

abbrev other : SessionSnapshot
other = session_from_state (record state { iteration = 4 }) "" "" []

abbrev stored : Sessions
stored = ("s", fresh) ∷ []

fresh_id : id_of other ≡ id_of fresh
unfolding session_from_state
fresh_id = refl

fresh_found : get stored (id_of fresh) ≡ some fresh
unfolding session_from_state get
fresh_found = refl

fresh_saved : (save_session fresh stored).0 ≡ ok (with_version fresh 1)
unfolding save_session session_from_state get
fresh_saved = refl

fresh_version : other.version ≡ fresh.version
unfolding session_from_state
fresh_version = refl

fresh_other : (id_of fresh == "t") ≡ false
unfolding session_from_state
fresh_other = refl

fresh_new : has {V = SessionSnapshot} [] (id_of fresh) ≡ false
unfolding has
fresh_new = refl

abbrev between : List Call
between = Call.saves (with_version fresh 1) ∷ Call.saves_state state ∷ Call.creates fresh ∷ []

stale_save_refused_example :
    (x : SessionSnapshot) × ((save_session other (behind between (save_session fresh stored).1)).0
      ≡ raised (conflict x other))
    × ((save_session other (behind between (save_session fresh stored).1)).1
        ≡ behind between (save_session fresh stored).1)
stale_save_refused_example =
    stale_save_refused fresh other (with_version fresh 1) stored between fresh_saved fresh_id
      fresh_version

fresh-IsShared : IsShared (λ _. fresh.state.current_task) fresh
unfolding session_from_state
fresh-IsShared = record { current = refl; listed = only; nodes = one }
  where
    only : (x : Task) → Mem x fresh.state.tasks → x ≡ fresh.state.current_task
    only x (inl same) = same
    only x (inr more) = absurd more

    one :
        (node : TaskNodeSnapshot)
        → Mem node fresh.task_graph.nodes
        → node.task ≡ fresh.state.current_task
    one node (inl same) = ap (λ x. x.task) same
    one node (inr more) = absurd more

load-save_session_example :
    (with_version fresh 1 ≡ with_version fresh (suc fresh.version))
    × ((load_session (id_of fresh) (save_session fresh stored).1).0
        ≡ ok (restarted (with_version fresh 1)))
    × ((load_session "t" (save_session fresh stored).1).0 ≡ (load_session "t" stored).0)
load-save_session_example =
    load-save_session (λ _. fresh.state.current_task) fresh (with_version fresh 1) stored "t"
      fresh-IsShared fresh_saved fresh_other

load-create_session_example :
    (loaded : SessionSnapshot) × ((load_session (id_of fresh) (create_session fresh []).1).0
      ≡ ok loaded)
    × (loaded.version ≡ 0)
    × Kept fresh.state loaded.state
load-create_session_example = load-create_session fresh [] fresh_new

limited : is_refused (some 1) ≡ false
limited = refl

-- Ids that stand for their sessions, the second page of one.
abbrev ids : List String
ids = "c" ∷ "b" ∷ "a" ∷ []

abbrev itself : String → String
itself id = id

second_page : paginate itself (some "c") (some 1) ids ≡ ok ("b" ∷ [])
unfolding paginate
second_page = refl

paginate-first_example : paginate itself (some "c") (some 1) ids ≡ (
    if is_listed itself (some "c") ids
    then ok (first (some 1) (after itself (some "c") ids))
    else raised (value_error ("session cursor not found: " ++ "c")))
paginate-first_example = paginate-first itself (some "c") (some 1) ids limited
