-- ===== src/Actions/Authorised.antt =====
-- What the policy has to say of an action that calls its tool.
use universal_agent.Prelude.{String_eq}
use universal_agent.Prelude.{
  ◌≡◌, ◌≢◌, ◌⊎◌, refl, String, Bool, true, not, ◌&&◌, Option, none, some, Mem, inl, inr, arith,
  Bool-cases, List,
}
use universal_agent.Core.Enums.{PolicyEffect}
use universal_agent.Core.Models.{
  AgentState, CapabilityDefinition, PendingAction, PolicyResult, ToolDefinition,
}
use universal_agent.Policy.{results}
use universal_agent.Policy.Precedence.{check_allow}
use universal_agent.Runtime.Transitions.{SessionRuntimeState}
use universal_agent.Actions.Models.{ActionExecutor, Machine}
use universal_agent.Actions.Identity.{is_mutation, is_pure, read_only_policy_result}
use universal_agent.Actions.Execute.{checked_action, execute, policy_context, verdict_of}
use universal_agent.Actions.Safety.{Permitted, execute-Permitted, checked_of, ensured}
use universal_agent.Capability.Registry.{CapabilityResolution}
use universal_agent.Prelude.Member.{contains-Mem, Mem-contains}
use universal_agent.Core.Enums.{CapabilityCategory, SideEffect}
use universal_agent.Prelude.{◌↔◌, contains, ◌||◌, false}
use universal_agent.Actions.Identity.{action_fingerprint}

read_only-deny :
    (state : AgentState String) (capability : CapabilityDefinition) (tool : ToolDefinition)
    (r : PolicyResult)
    → read_only_policy_result state capability tool ≡ some r
    → r.effect ≡ PolicyEffect.deny
unfolding read_only_policy_result
read_only-deny state capability tool r h = elim (Bool-cases state.read_only) [
  | inr e ↦ absurd (ground arith)
  | inl e ↦ elim (Bool-cases (not (is_mutation capability) && is_pure tool.side_effect)) [
    | inl pure ↦ absurd (ground arith)
    | inr impure ↦ ground arith
  ]
]

-- What a read-only session runs: no mutation, and no tool with side effects.
abbrev pub Readable : AgentState String → CapabilityDefinition → ToolDefinition → Type 0
Readable state capability tool =
    state.read_only ≡ true
    → (capability.category ≡ CapabilityCategory.observation) × (tool.side_effect ≡ SideEffect.none)

-- The caller confirms the action, or its fingerprint is among the approved ones.
abbrev pub Approved : ActionExecutor → PendingAction → Bool → SessionRuntimeState → Type 0
Approved c pending confirmed session =
    (confirmed ≡ true)
    ⊎ Mem (action_fingerprint c.dumps_json pending) session.state.approved_fingerprints

read_only-Readable :
    (state : AgentState String) (capability : CapabilityDefinition) (tool : ToolDefinition)
    → read_only_policy_result state capability tool ≡ none
    → Readable state capability tool
unfolding read_only_policy_result
read_only-Readable state capability tool h r = ground arith

Approved-iff :
    (c : ActionExecutor) (pending : PendingAction) (confirmed : Bool)
    (session : SessionRuntimeState)
    → ((confirmed
          || contains session.state.approved_fingerprints (action_fingerprint c.dumps_json pending))
        ≡ true)
      ↔ Approved c pending confirmed session
Approved-iff c pending true session = (λ _. inl refl, λ _. refl)
Approved-iff c pending false session =
    let xs = session.state.approved_fingerprints in
    let x = action_fingerprint c.dumps_json pending in (λ h. inr (contains-Mem xs x h), back xs x)
  where
    back : (xs : List String) (x : String) → (false ≡ true) ⊎ Mem x xs → contains xs x ≡ true
    back xs x (inl e) = absurd (cc)
    back xs x (inr m) = Mem-contains xs x m

-- The context in which the engine allows an action, which counts as confirmed exactly if it is
-- approved.
pub record Authorised (c : ActionExecutor) (pending : PendingAction) (r : CapabilityResolution)
    (confirmed : Bool) (session : SessionRuntimeState) : Type 0 where
  pub is_approved : Bool
  pub approval : (is_approved ≡ true) ↔ Approved c (ensured r pending) confirmed session
  pub readable : Readable session.state r.capability r.tool.definition
  pub not_denied :
      (x : PolicyResult)
      → Mem x (
          results c.policy_engine.policies (
            policy_context c
              (ensured r pending)
              r.capability
              r.tool.definition
              is_approved
              session))
      → x.effect ≢ PolicyEffect.deny
  pub confirmed_if_demanded :
      (x : PolicyResult)
      → Mem x (
          results c.policy_engine.policies (
            policy_context c
              (ensured r pending)
              r.capability
              r.tool.definition
              is_approved
              session))
      → x.effect ≡ PolicyEffect.require_confirmation
      → Approved c (ensured r pending) confirmed session

verdict-Authorised :
    (c : ActionExecutor) (pending : PendingAction) (r : CapabilityResolution) (confirmed : Bool)
    (session : SessionRuntimeState) (b : Bool)
    → (b ≡ true) ↔ Approved c (ensured r pending) confirmed session
    → (o : Option PolicyResult)
    → read_only_policy_result session.state r.capability r.tool.definition ≡ o
    → (verdict_of c o (ensured r pending) r.capability r.tool.definition b session).effect
      ≡ PolicyEffect.allow
    → Authorised c pending r confirmed session
unfolding verdict_of
verdict-Authorised c pending r confirmed session b iff (some x) e h =
    absurd (ground (arith, read_only-deny session.state r.capability r.tool.definition x e))
verdict-Authorised c pending r confirmed session b iff none e h =
    let context = policy_context c (ensured r pending) r.capability r.tool.definition b session in
    let (denials, demands, grants) = check_allow context c.policy_engine h in
    record {
      is_approved = b;
      approval = iff;
      readable = read_only-Readable session.state r.capability r.tool.definition e;
      not_denied = denials;
      confirmed_if_demanded = λ x m demanded. iff.0 (unfold policy_context in demands x m demanded);
    }

-- Where an action calls its tool, a read-only session runs no mutation and no tool with side effects,
-- and no policy of the engine denies the action in its context, which counts as confirmed exactly if
-- the caller confirmed the action or its fingerprint is among the approved ones; that is so where a
-- policy demands a confirmation.
pub execute-Authorised :
    (c : ActionExecutor) (pending : PendingAction) (confirmed : Bool) (m : Machine)
    → ((execute c pending confirmed m).1.calls ≡ m.calls)
      ⊎ ((p : Permitted c pending confirmed m (execute c pending confirmed m).1.calls) × Authorised
            c pending p.resolution confirmed m.session)
execute-Authorised c pending confirmed m = elim (execute-Permitted c pending confirmed m) [
  | inl untouched ↦ inl untouched
  | inr p ↦
      let r = p.resolution in
      inr (
        p,
        verdict-Authorised c pending r confirmed m.session
            (checked_of c r pending confirmed m).confirmed
            (unfold checked_action in Approved-iff c (ensured r pending) confirmed m.session)
            (read_only_policy_result m.session.state r.capability r.tool.definition) refl
            (unfold checked_action in p.allowed),
      )
]
