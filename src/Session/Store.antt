-- ===== src/Session/Store.antt =====
-- `InMemorySessionStore` of src/universal_agent/state/store.py. A call that writes the version of
-- the caller's snapshot gives that snapshot back.
use Prim.Native.String.{◌++◌}
use universal_agent.Prelude.{
  ℕ, suc, String, Bool, not, ◌&&◌, ◌||◌, Option, none, some, List, [], ◌∷◌, map, if◌then◌else◌, ok,
  raised, Method, ◌==◌, ℕ_eq, String_eq, ltb, ◌>>=◌, return,
}
use universal_agent.Prelude.Text.{decimal, text_leb}
use universal_agent.Prelude.Dict.{Dict, get, has, put, values}
use universal_agent.Core.Models.{AgentState, Task}
use universal_agent.Session.Models.{SessionSnapshot, session_from_state, with_state}
use universal_agent.Session.Copy.{copy_session}
use universal_agent.Session.Paging.{
  StoreError, state_not_found, version_conflict, value_error, paginate,
}

abbrev pub Sessions : Type 0
Sessions = Dict SessionSnapshot

abbrev pub StoreMethod : Type 0 → Type 0
StoreMethod A = Method StoreError Sessions A

abbrev pub with_version : SessionSnapshot → ℕ → SessionSnapshot
with_version snapshot version = record snapshot { version = version }

abbrev pub id_of : SessionSnapshot → String
id_of snapshot = snapshot.state.session_id

unfoldable pub create_session : SessionSnapshot → StoreMethod SessionSnapshot
create_session snapshot sessions =
    if has sessions (id_of snapshot)
    then (raised (value_error ("session already exists: " ++ id_of snapshot)), sessions)
    else (
      ok (with_version snapshot 0),
      put sessions (id_of snapshot) (with_version (copy_session snapshot) 0),
    )

abbrev pub not_found : String → StoreError
not_found session_id = state_not_found ("session not found: " ++ session_id)

unfoldable pub load_session : String → StoreMethod SessionSnapshot
load_session session_id sessions = elim (get sessions session_id) [
  | none ↦ (raised (not_found session_id), sessions)
  | some stored ↦ (ok (copy_session stored), sessions)
]

abbrev pub conflict : SessionSnapshot → SessionSnapshot → StoreError
conflict stored snapshot = version_conflict (
    "session version conflict: "
    ++ (id_of snapshot
        ++ (" expected " ++ (decimal stored.version ++ (", got " ++ decimal snapshot.version)))))

unfoldable pub save_session : SessionSnapshot → StoreMethod SessionSnapshot
save_session snapshot sessions = elim (get sessions (id_of snapshot)) [
  | none ↦ (raised (not_found (id_of snapshot)), sessions)
  | some stored ↦
      if not (snapshot.version == stored.version)
      then (raised (conflict stored snapshot), sessions)
      else (
        ok (with_version snapshot (suc stored.version)),
        put sessions (id_of snapshot) (with_version (copy_session snapshot) (suc stored.version)),
      )
]

-- The sort key, `(goal.created_at, str(session_id))`: whether the key of `a` is at least that of `b`.
abbrev pub sorts_before : SessionSnapshot → SessionSnapshot → Bool
sorts_before a b =
    ltb b.state.goal.created_at a.state.goal.created_at
    || ((a.state.goal.created_at == b.state.goal.created_at) && text_leb (id_of b) (id_of a))

unfoldable pub insert_session : SessionSnapshot → List SessionSnapshot → List SessionSnapshot
insert_session s [] = s ∷ []
insert_session s (t ∷ rest) =
    let others = insert_session s rest in if sorts_before s t then s ∷ t ∷ rest else t ∷ others

-- `sorted(snapshots, key=..., reverse=True)`
unfoldable pub sort_sessions : List SessionSnapshot → List SessionSnapshot
unfolding insert_session
sort_sessions [] = []
sort_sessions (s ∷ rest) = insert_session s (sort_sessions rest)

unfoldable pub list_sessions : Option String → Option ℕ → StoreMethod (List SessionSnapshot)
unfolding sort_sessions
list_sessions after_session_id limit sessions = (
  paginate id_of after_session_id limit (sort_sessions (map copy_session (values sessions))),
  sessions,
)

unfoldable pub create : AgentState Task → StoreMethod SessionSnapshot
create state = create_session (session_from_state state "" "" [])

unfoldable pub load : String → StoreMethod (AgentState Task)
load session_id = do snapshot ← load_session session_id; return snapshot.state

-- `with_state` shares its parts with the stored snapshot, and its version is the stored one, so the
-- save goes through; `save_session` puts a new snapshot in the place of the stored one.
unfoldable pub save : AgentState Task → StoreMethod SessionSnapshot
save state sessions = elim (get sessions state.session_id) [
  | none ↦ (raised (not_found state.session_id), sessions)
  | some stored ↦ save_session (with_state stored state) sessions
]
