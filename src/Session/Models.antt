-- ===== src/Session/Models.antt =====
-- The stored form of a session, `SessionSnapshot` of src/universal_agent/state/session.py, and
-- `Evidence` of src/universal_agent/evidence/models.py.
use universal_agent.Prelude.{
  ℕ, String, Bool, not, ◌&&◌, List, [], ◌∷◌, ◌++◌ as append, any, is_empty, map, if◌then◌else◌,
  ◌==◌, String_eq,
}
use universal_agent.Prelude.Text.{is_empty_text}
use universal_agent.Core.Json.{JsonValue}
use universal_agent.Core.Models.{AgentState, DomainIdentity, Task}
use universal_agent.Tasks.Manager.{TaskGraphSnapshot, TaskNodeSnapshot}

-- `confidence` stands as its shortest decimal text.
pub record Evidence : Type 0 where
  pub session_id : String
  pub task_id : String
  pub action_id : String
  pub observation_id : String
  pub subject : String
  pub claim : String
  pub value : JsonValue
  pub source : String
  pub confidence : String
  pub id : String
  pub observed_at : ℕ
  pub domain_name : String
  pub domain_version : String

pub record SessionSnapshot : Type 0 where
  pub state : AgentState Task
  pub task_graph : TaskGraphSnapshot
  pub evidence : List Evidence
  pub domain_name : String
  pub domain_version : String
  pub domain_identities : List DomainIdentity
  pub version : ℕ

-- `_primary_domain`
abbrev pub primary_domain : String → String → List DomainIdentity
primary_domain name version =
    if not (is_empty_text name) && not (is_empty_text version)
    then record { name = name; version = version } ∷ []
    else []

-- `domains`
unfoldable pub domains : SessionSnapshot → List DomainIdentity
domains snapshot =
    if is_empty snapshot.domain_identities
    then primary_domain snapshot.domain_name snapshot.domain_version
    else snapshot.domain_identities

unfoldable pub session_from_state :
    AgentState Task → String → String → List DomainIdentity → SessionSnapshot
session_from_state state domain_name domain_version domain_identities = record {
  state = state;
  task_graph = record {
    nodes = record { key = "root"; task = state.current_task; depends_on = [] } ∷ [];
    current_task_id = state.current_task.id;
  };
  evidence = [];
  domain_name = domain_name;
  domain_version = domain_version;
  domain_identities =
      if is_empty domain_identities
      then primary_domain domain_name domain_version
      else domain_identities;
  version = 0;
}

-- A node of `with_state`: the current task in place of the node's task of the same id.
abbrev pub node_with : Task → TaskNodeSnapshot → TaskNodeSnapshot
node_with task node = if node.task.id == task.id then record node { task = task } else node

abbrev pub is_known : String → List TaskNodeSnapshot → Bool
is_known id nodes = any (λ node. node.task.id == id) nodes

unfoldable pub with_state : SessionSnapshot → AgentState Task → SessionSnapshot
with_state snapshot state =
    let nodes = map (node_with state.current_task) snapshot.task_graph.nodes in
    record {
      state = state;
      task_graph = record {
        nodes =
            if is_known state.current_task.id nodes
            then nodes
            else append nodes (
                record { key = state.current_task.id; task = state.current_task; depends_on = [] }
                ∷ []);
        current_task_id = state.current_task.id;
      };
      evidence = snapshot.evidence;
      domain_name = snapshot.domain_name;
      domain_version = snapshot.domain_version;
      domain_identities = domains snapshot;
      version = snapshot.version;
    }
