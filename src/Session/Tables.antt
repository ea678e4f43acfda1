-- ===== src/Session/Tables.antt =====
-- `copy_session` of a session in which one id stands for one task.
use text.Mathlib.TextEquality.{eq_iff}
use mathlib.Core.Option.{some-injective}
use universal_agent.Prelude.{
  ◌≡◌, refl, sym, ap, ◌∙◌, String, Bool-cases, false, some, List, [], ◌∷◌, map, Option-cases, inl,
  inr, Mem, arith, ◌==◌, String_eq,
}
use universal_agent.Prelude.Dict.{Dict, get, put, get-put}
use universal_agent.Core.Models.{AgentState, Task}
use universal_agent.Tasks.Manager.{TaskNodeSnapshot}
use universal_agent.Session.Models.{SessionSnapshot, Evidence, domains}
use universal_agent.Session.Copy.{
  copy_session, copy_state, copy_evidence, copy_node, copied_tasks, resolve_task, resolve_tasks,
}
use universal_agent.Session.Copied.{copied_observations, copied_evaluation, copied_pending_action}

-- The session that a copy is to be: the cost and token totals start at 0, and it is no continuation.
abbrev pub restarted : SessionSnapshot → SessionSnapshot
restarted s = record s {
  state = record s.state {
    cumulative_cost_micros = 0;
    cumulative_tokens = 0;
    is_continuation = false;
  };
  domain_identities = domains s;
}

-- In a list of tasks an id stands for the task of the table.
abbrev pub AgreesWith : (String → Task) → List Task → Type 0
AgreesWith t xs = (x : Task) → Mem x xs → x ≡ t x.id

-- One task for each id, among the nodes and in the state.
pub record IsShared (t : String → Task) (s : SessionSnapshot) : Type 0 where
  pub current : s.state.current_task ≡ t s.state.current_task.id
  pub listed : AgreesWith t s.state.tasks
  pub nodes : (node : TaskNodeSnapshot) → Mem node s.task_graph.nodes → node.task ≡ t node.task.id

module _ (t : String → Task) where
  abbrev Sound : Dict Task → Type 0
  Sound d = (k : String) (x : Task) → get d k ≡ some x → x ≡ t k

  put-Sound : (d : Dict Task) (x : Task) → Sound d → x ≡ t x.id → Sound (put d x.id x)
  put-Sound d x sound e k y h = elim (Bool-cases (x.id == k)) [
    | inl same ↦
        let s = (eq_iff x.id k).0 same in
        let h' = get-put d x.id k x in
        let found : some x ≡ some y = ground arith in sym (some-injective x y found) ∙ e ∙ ap t s
    | inr other ↦ let h' = get-put d x.id k x in sound k y (ground arith)
  ]

  empty-Sound : Sound []
  unfolding get
  empty-Sound k x h = absurd (cc)

  copied_tasks-Sound :
      (nodes : List TaskNodeSnapshot) (d : Dict Task)
      → ((node : TaskNodeSnapshot) → Mem node nodes → node.task ≡ t node.task.id)
      → Sound d
      → Sound (copied_tasks nodes d)
  unfolding copied_tasks
  copied_tasks-Sound [] d h sound = sound
  copied_tasks-Sound (node ∷ rest) d h sound =
      copied_tasks-Sound rest (put d node.task.id node.task) (λ x m. h x (inr m))
        (put-Sound d node.task sound (h node (inl refl)))

  copy_node-same :
      (d : Dict Task) (node : TaskNodeSnapshot)
      → Sound d
      → node.task ≡ t node.task.id
      → copy_node d node ≡ node
  unfolding copy_node
  copy_node-same d node sound e = elim (Option-cases (get d node.task.id)) [
    | inl absent ↦ rw (absent, copy_node) refl
    | inr (x, found) ↦
        rw (found, copy_node)
          (ap (λ y. record node { task = y }) (sound node.task.id x found ∙ sym e))
  ]

  copy_nodes-same :
      (d : Dict Task) (nodes : List TaskNodeSnapshot)
      → Sound d
      → ((node : TaskNodeSnapshot) → Mem node nodes → node.task ≡ t node.task.id)
      → map (copy_node d) nodes ≡ nodes
  copy_nodes-same d [] sound h = refl
  copy_nodes-same d (node ∷ rest) sound h =
      let one = copy_node-same d node sound (h node (inl refl)) in
      let others = copy_nodes-same d rest sound (λ x m. h x (inr m)) in
      ap (λ x. x ∷ map (copy_node d) rest) one ∙ ap (λ xs. node ∷ xs) others

  resolve_task-same :
      (task : Task) (d : Dict Task)
      → Sound d
      → task ≡ t task.id
      → ((resolve_task task d).0 ≡ task) × Sound (resolve_task task d).1
  unfolding resolve_task
  resolve_task-same task d sound e = elim (Option-cases (get d task.id)) [
    | inl absent ↦ rw (absent, resolve_task) (refl, put-Sound d task sound e)
    | inr (x, found) ↦ rw (found, resolve_task) (sound task.id x found ∙ sym e, sound)
  ]

  resolve_tasks-same :
      (tasks : List Task) (d : Dict Task)
      → Sound d
      → AgreesWith t tasks
      → resolve_tasks tasks d ≡ tasks
  unfolding resolve_tasks
  resolve_tasks-same [] d sound h = refl
  resolve_tasks-same (task ∷ rest) d sound h =
      let (one, known) = resolve_task-same task d sound (h task (inl refl)) in
      let others = resolve_tasks-same rest (resolve_task task d).1 known (λ x m. h x (inr m)) in
      ap (λ x. x ∷ resolve_tasks rest (resolve_task task d).1) one ∙ ap (λ xs. task ∷ xs) others

  copied_evidence : (xs : List Evidence) → map copy_evidence xs ≡ xs
  copied_evidence [] = refl
  copied_evidence (x ∷ xs) = ap (λ ys. x ∷ ys) (copied_evidence xs)

  copy_state-same :
      (s : AgentState Task) (d : Dict Task)
      → Sound d
      → s.current_task ≡ t s.current_task.id
      → AgreesWith t s.tasks
      → copy_state s d
        ≡ record s { cumulative_cost_micros = 0; cumulative_tokens = 0; is_continuation = false }
  unfolding copy_state
  copy_state-same s d sound current listed =
      let (one, known) = resolve_task-same s.current_task d sound current in
      let others = resolve_tasks-same s.tasks (resolve_task s.current_task d).1 known listed in
      rw
        (
          one,
          others,
          copied_observations s.observations,
          copied_evaluation s.latest_evaluation,
          copied_pending_action s.pending_action,
        )
        refl

  pub copy_session-restarted : (s : SessionSnapshot) → IsShared t s → copy_session s ≡ restarted s
  unfolding copy_session
  copy_session-restarted s h =
      let nodes = s.task_graph.nodes in
      let sound = copied_tasks-Sound nodes [] h.nodes empty-Sound in
      rw
        (
          copy_state-same s.state (copied_tasks nodes []) sound h.current h.listed,
          copy_nodes-same (copied_tasks nodes []) nodes sound h.nodes,
          copied_evidence s.evidence,
        )
        refl

domains-again : (s : SessionSnapshot) → domains (restarted s) ≡ domains s
unfolding domains
domains-again s = ground arith

pub restarted-restarted : (s : SessionSnapshot) → restarted (restarted s) ≡ restarted s
restarted-restarted s = rw (domains-again s) refl
