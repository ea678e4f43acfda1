-- ===== src/Actions/Safety.antt =====
-- When an action calls its tool.
use universal_agent.Prelude.{
  ◌≡◌, refl, sym, ap, ◌⊎◌, ◌>>=◌, String, Bool, true, false, not, ◌&&◌, Option, none, some, List,
  ◌∷◌, Result, ok, raised, Bool-cases, inl, inr, arith, bind-keeps, contains, String_eq, ◌==◌,
}
use text.Mathlib.TextEquality.{eq_iff}
use universal_agent.Prelude.Text.{is_empty_text}
use universal_agent.Core.Enums.{PolicyEffect}
use universal_agent.Core.Models.{PendingAction, ToolCall}
use universal_agent.Coordination.Locks.{Locks}
use universal_agent.Capability.Registry.{
  CapabilityResolution, resolve_registration, CapabilityError,
}
use universal_agent.Actions.Models.{ActionExecutor, ActionOutcome, Machine}
use universal_agent.Actions.Identity.{ensure_resource_metadata, is_pure, tool_call}
use universal_agent.Actions.Resources.{check_resource_version, check_sandbox, emit}
use universal_agent.Actions.Invoke.{is_confirmation, is_denied, unless}
use universal_agent.Actions.Run.{Checked}
use universal_agent.Actions.Execute.{
  checked_action, execute, execute_checked, execute_current, execute_decided, execute_identified,
  execute_permitted, execute_resolved, execute_unless_seen, is_domain_changed, execute_found,
}
use universal_agent.Actions.Frame.{
  fixed, check_resource_version-Leaves, check_sandbox-Leaves, emit-Leaves,
}
use universal_agent.Actions.Once.{
  Once, Same, run_action-Once, await_confirmation-Same, reconcile_seen-Same,
}

allowed :
    (effect : PolicyEffect)
    → is_denied effect ≡ false
    → is_confirmation effect ≡ false
    → effect ≡ PolicyEffect.allow
allowed PolicyEffect.allow d k = refl
allowed PolicyEffect.require_confirmation d k = absurd (ground arith)
allowed PolicyEffect.deny d k = absurd (ground arith)

-- No call, or one call of this action's tool: the verdict is to allow it, and a tool with side effects
-- has no record of the action.
abbrev Justified : Checked → List ToolCall → List String → List ToolCall → Type 0
Justified x before keys calls =
    (calls ≡ before)
    ⊎ ((calls ≡ tool_call x.pending ∷ before)
        × (x.verdict.effect ≡ PolicyEffect.allow)
        × ((is_pure x.tool.side_effect ≡ true) ⊎ (contains keys x.pending.idempotency_key ≡ false)))

module _ (c : ActionExecutor) (x : Checked) (before : List ToolCall) (keys : List String) where
  abbrev IsJustified : Machine → Type 0
  IsJustified m = Justified x before keys m.calls

  abbrev Fresh : Type 0
  Fresh = (is_pure x.tool.side_effect ≡ true) ⊎ (contains keys x.pending.idempotency_key ≡ false)

  current-IsJustified :
      (m : Machine)
      → is_denied x.verdict.effect ≡ false
      → Fresh
      → m.calls ≡ before
      → IsJustified (execute_current c x m).1
  unfolding execute_current
  current-IsJustified m d fresh p = elim (Bool-cases (is_confirmation x.verdict.effect)) [
    | inl e ↦ rw e (inl (await_confirmation-Same c before x m p))
    | inr e ↦ rw e (split (run_action-Once c before x m p) (allowed x.verdict.effect d e))
  ]
    where
      split :
          {calls : List ToolCall}
          → Once before x.pending calls
          → x.verdict.effect ≡ PolicyEffect.allow
          → Justified x before keys calls
      split (inl untouched) a = inl untouched
      split (inr one) a = inr (one, a, fresh)

  unless-IsJustified :
      (o : Option ActionOutcome) (m : Machine)
      → is_denied x.verdict.effect ≡ false
      → Fresh
      → m.calls ≡ before
      → IsJustified (unless o (execute_current c x) m).1
  unless-IsJustified none m d fresh p = current-IsJustified m d fresh p
  unless-IsJustified (some outcome) m d fresh p = inl p

  unseen-IsJustified :
      (m : Machine)
      → is_denied x.verdict.effect ≡ false
      → Fresh
      → m.calls ≡ before
      → IsJustified
          ((check_resource_version c x.pending >>= λ checked. unless checked (execute_current c x))
            m).1
  unseen-IsJustified m d fresh p =
      let q = check_resource_version-Leaves c (fixed (Same c before)) x.pending m p in
      bind-keeps IsJustified (check_resource_version c x.pending)
        (λ checked. unless checked (execute_current c x)) m (inl q)
        λ o e. unless-IsJustified o (check_resource_version c x.pending m).1 d fresh q

  unless_seen-IsJustified :
      (b : Bool) (m : Machine)
      → is_denied x.verdict.effect ≡ false
      → contains keys x.pending.idempotency_key ≡ b
      → m.calls ≡ before
      → IsJustified (execute_unless_seen c x b m).1
  unfolding execute_unless_seen
  unless_seen-IsJustified b m d k p = elim (Bool-cases (not (is_pure x.tool.side_effect) && b)) [
    | inl e ↦ rw e (inl (reconcile_seen-Same c before x m p))
    | inr e ↦ rw e (unseen-IsJustified m d (fresh b e k) p)
  ]
    where
      fresh :
          (b : Bool)
          → (not (is_pure x.tool.side_effect) && b) ≡ false
          → contains keys x.pending.idempotency_key ≡ b
          → Fresh
      fresh true e k = inl (ground arith)
      fresh false e k = inr k

  abbrev Both : List ToolCall → List String → Locks → Type 0
  Both calls ks locks = (calls ≡ before) × (ks ≡ keys)

  permitted-IsJustified :
      (o : Option ActionOutcome) (m : Machine)
      → is_denied x.verdict.effect ≡ false
      → (m.calls ≡ before) × (m.seen ≡ keys)
      → IsJustified (unless o (execute_permitted c x) m).1
  unfolding execute_permitted
  permitted-IsJustified (some outcome) m d (p, q) = inl p
  permitted-IsJustified none m d (p, q) =
      unless_seen-IsJustified (contains m.seen x.pending.idempotency_key) m d
        (ap (λ ks. contains ks x.pending.idempotency_key) (sym q)) p

  decided-IsJustified :
      (m : Machine) → (m.calls ≡ before) × (m.seen ≡ keys) → IsJustified (execute_decided c x m).1
  unfolding execute_decided
  decided-IsJustified m p = elim (Bool-cases (is_denied x.verdict.effect)) [
    | inl e ↦ rw e (inl p.0)
    | inr e ↦ rw e (checked e)
  ]
    where
      checked :
          is_denied x.verdict.effect ≡ false
          → IsJustified
              ((check_sandbox c x.tool x.pending >>= λ stopped.
                  unless stopped (execute_permitted c x))
                m).1
      checked e =
          let q = check_sandbox-Leaves c (fixed Both) x.tool x.pending m p in
          bind-keeps IsJustified (check_sandbox c x.tool x.pending)
            (λ stopped. unless stopped (execute_permitted c x)) m (inl q.0)
            λ o _. permitted-IsJustified o (check_sandbox c x.tool x.pending m).1 e q

  checked-IsJustified :
      (m : Machine) → (m.calls ≡ before) × (m.seen ≡ keys) → IsJustified (execute_checked c x m).1
  unfolding execute_checked
  checked-IsJustified m p =
      let q = emit-Leaves c (fixed Both) "PolicyChecked" x.pending m p in
      bind-keeps IsJustified (emit c "PolicyChecked" x.pending) (λ _. execute_decided c x) m
        (inl q.0) λ _ e. decided-IsJustified (emit c "PolicyChecked" x.pending m).1 q

-- The action as it runs: its resource metadata are filled in for the tool that was resolved.
abbrev pub ensured : CapabilityResolution → PendingAction → PendingAction
ensured resolution pending = ensure_resource_metadata pending resolution.tool.definition.side_effect

-- The variables of `execute` for it.
abbrev pub checked_of :
    ActionExecutor → CapabilityResolution → PendingAction → Bool → Machine → Checked
checked_of c resolution pending confirmed m =
    checked_action c (ensured resolution pending) resolution.capability resolution.tool.definition
      confirmed m.session

-- One call of the tool, and what came before it.
pub record Permitted (c : ActionExecutor) (pending : PendingAction) (confirmed : Bool) (m : Machine)
    (calls : List ToolCall) : Type 0 where
  pub resolution : CapabilityResolution
  pub resolved : resolve_registration c.capabilities c.tools pending.capability ≡ ok resolution
  pub same_tool : resolution.tool.definition.name ≡ pending.tool_name
  pub same_domain : is_domain_changed resolution.capability_domain pending ≡ false
  pub identified :
      (is_pure resolution.tool.definition.side_effect ≡ true)
      ⊎ (is_empty_text (ensured resolution pending).resource_key ≡ false)
  pub allowed : (checked_of c resolution pending confirmed m).verdict.effect ≡ PolicyEffect.allow
  pub fresh :
      (is_pure resolution.tool.definition.side_effect ≡ true)
      ⊎ (contains m.seen (ensured resolution pending).idempotency_key ≡ false)
  pub called : calls ≡ tool_call (ensured resolution pending) ∷ m.calls

module _ (c : ActionExecutor) (pending : PendingAction) (confirmed : Bool) (m : Machine) where
  abbrev Outcome : List ToolCall → Type 0
  Outcome calls = (calls ≡ m.calls) ⊎ Permitted c pending confirmed m calls

  identity-cases :
      (r : CapabilityResolution)
      → ((not (is_pure r.tool.definition.side_effect)
            && is_empty_text (ensured r pending).resource_key)
          ≡ false)
      → (is_pure r.tool.definition.side_effect ≡ true)
        ⊎ (is_empty_text (ensured r pending).resource_key ≡ false)
  identity-cases r h = elim (Bool-cases (is_pure r.tool.definition.side_effect)) [
    | inl e ↦ inl e
    | inr e ↦ inr (ground arith)
  ]

  resolved-Permitted :
      (r : CapabilityResolution)
      → resolve_registration c.capabilities c.tools pending.capability ≡ ok r
      → Outcome (execute_resolved c r pending confirmed m).1.calls
  unfolding execute_resolved execute_identified checked_action
  resolved-Permitted r found = elim (Bool-cases (r.tool.definition.name == pending.tool_name)) [
    | inr e ↦ rw e (inl refl)
    | inl e ↦ elim (Bool-cases (is_domain_changed r.capability_domain pending)) [
      | inl d ↦ rw (e, d) (inl refl)
      | inr d ↦
          elim (Bool-cases (
            not (is_pure r.tool.definition.side_effect)
            && is_empty_text (ensured r pending).resource_key)) [
              | inl k ↦ rw (e, d, k) (inl refl)
              | inr k ↦
                  rw (e, d, k)
                    (permit ((eq_iff r.tool.definition.name pending.tool_name).0 e) d
                      (identity-cases r k)
                      (checked-IsJustified c (checked_of c r pending confirmed m) m.calls m.seen m
                        (refl, refl)))
            ]
    ]
  ]
    where
      permit :
          {calls : List ToolCall}
          → r.tool.definition.name ≡ pending.tool_name
          → is_domain_changed r.capability_domain pending ≡ false
          → (is_pure r.tool.definition.side_effect ≡ true)
            ⊎ (is_empty_text (ensured r pending).resource_key ≡ false)
          → Justified (checked_of c r pending confirmed m) m.calls m.seen calls
          → Outcome calls
      permit e d k (inl untouched) = inl untouched
      permit e d k (inr (one, verdict, new)) = inr (record {
        resolution = r;
        resolved = found;
        same_tool = e;
        same_domain = d;
        identified = k;
        allowed = verdict;
        fresh = new;
        called = one;
      })

  found-Permitted :
      (r : Result CapabilityError CapabilityResolution)
      → resolve_registration c.capabilities c.tools pending.capability ≡ r
      → Outcome (execute_found c r pending confirmed m).1.calls
  unfolding execute_found
  found-Permitted (raised x) e = inl refl
  found-Permitted (ok r) e = resolved-Permitted r e

  -- An action calls a tool at most once, whatever its result, and only if the tool resolved for its
  -- capability is the one that the action names and the domain has not changed, a tool with side
  -- effects has a resource identity and no record of the action, and the verdict of the read-only rule
  -- or of the policy engine is to allow it.
  pub execute-Permitted : Outcome (execute c pending confirmed m).1.calls
  unfolding execute
  execute-Permitted =
      found-Permitted (resolve_registration c.capabilities c.tools pending.capability) refl
