-- ===== src/Capability/Choice.antt =====
-- Which tool carries out a capability.
use universal_agent.Prelude.{
  Option, ap, ◌∙◌, ◌≡◌, inl, inr, refl, String, true, false, some, List, [], ◌∷◌, ok, arith,
  Option-cases, Bool-cases, none, Mem, sym, subst,
}
use text.Mathlib.TextEquality.{eq_iff}
use mathlib.Core.Option.{some-injective}
use universal_agent.Prelude.Dict.{get}
use universal_agent.Prelude.Int.{ℤ, leb_ℤ}
use universal_agent.Prelude.IntOrder.{◌≤ℤ◌, leb_ℤ-true, leb_ℤ-false, ≤ℤ-refl, ≤ℤ-trans, <ℤ-le}
use universal_agent.Core.Models.{DomainIdentity}
use universal_agent.Tools.Registry.{Tools, ToolRegistration, registrations_for_capability}
use universal_agent.Capability.Registry.{
  Capabilities, CapabilityRegistration, CapabilityResolution, resolve_registration,
  resolve_capability, choose, least, goes_before, validated, is_domain_mismatch,
}

goes_before-priority :
    (a b : ToolRegistration)
    → goes_before a b ≡ false
    → b.definition.priority ≤ℤ a.definition.priority
unfolding goes_before
goes_before-priority a b h = leb_ℤ-true b.definition.priority a.definition.priority (ground arith)

goes_before-le :
    (a b : ToolRegistration)
    → goes_before a b ≡ true
    → a.definition.priority ≤ℤ b.definition.priority
unfolding goes_before
goes_before-le a b h =
    let p = a.definition.priority in
    let q = b.definition.priority in
    elim (Bool-cases (leb_ℤ q p)) [
      | inl e ↦ leb_ℤ-true p q (ground arith)
      | inr e ↦ <ℤ-le p q (leb_ℤ-false q p e)
    ]

least-taken :
    (best t : ToolRegistration) (rest : List ToolRegistration)
    → goes_before t best ≡ true
    → least best (t ∷ rest) ≡ least t rest
unfolding least
least-taken best t rest h = rw h refl

least-kept :
    (best t : ToolRegistration) (rest : List ToolRegistration)
    → goes_before t best ≡ false
    → least best (t ∷ rest) ≡ least best rest
unfolding least
least-kept best t rest h = rw h refl

-- One of the candidates, where none has a smaller priority.
abbrev First : List ToolRegistration → ToolRegistration → Type 0
First candidates a =
    Mem a candidates
    × ((t : ToolRegistration) → Mem t candidates → a.definition.priority ≤ℤ t.definition.priority)

least-First :
    (best : ToolRegistration) (rest : List ToolRegistration) → First (best ∷ rest) (least best rest)
least-First best [] = unfold least in (inl refl, only)
  where
    only :
        (t : ToolRegistration)
        → Mem t (best ∷ [])
        → best.definition.priority ≤ℤ t.definition.priority
    only t (inl same) = rw same (≤ℤ-refl best.definition.priority)
    only t (inr other) = absurd other
least-First best (u ∷ rest) = elim (Bool-cases (goes_before u best)) [
  | inl e ↦
      let (m, le) = least-First u rest in
      subst (First (best ∷ u ∷ rest)) (sym (least-taken best u rest e))
        (inr m, taken e (least u rest).definition.priority le)
  | inr e ↦
      let (m, le) = least-First best rest in
      subst (First (best ∷ u ∷ rest)) (sym (least-kept best u rest e))
        (later m, kept e (least best rest).definition.priority le)
]
  where
    later : {a : ToolRegistration} → Mem a (best ∷ rest) → Mem a (best ∷ u ∷ rest)
    later (inl same) = inl same
    later (inr there) = inr (inr there)

    taken :
        goes_before u best ≡ true
        → (n : ℤ) → ((t : ToolRegistration) → Mem t (u ∷ rest) → n ≤ℤ t.definition.priority)
        → (t : ToolRegistration) → Mem t (best ∷ u ∷ rest)
        → n ≤ℤ t.definition.priority
    taken e n le t (inl same) = rw same (
        ≤ℤ-trans n u.definition.priority best.definition.priority (le u (inl refl))
          (goes_before-le u best e))
    taken e n le t (inr there) = le t there

    kept :
        goes_before u best ≡ false
        → (n : ℤ) → ((t : ToolRegistration) → Mem t (best ∷ rest) → n ≤ℤ t.definition.priority)
        → (t : ToolRegistration) → Mem t (best ∷ u ∷ rest)
        → n ≤ℤ t.definition.priority
    kept e n le t (inl same) = le t (inl same)
    kept e n le t (inr (inl same)) = rw same (
        ≤ℤ-trans n best.definition.priority u.definition.priority (le best (inl refl))
          (goes_before-priority u best e))
    kept e n le t (inr (inr there)) = le t (inr there)

-- What a resolution of `name` promises.
pub record Resolved (capabilities : Capabilities) (tools : Tools) (name : String)
    (r : CapabilityResolution) : Type 0 where
  pub registration : CapabilityRegistration
  pub found : get capabilities name ≡ some registration
  pub capability : r.capability ≡ registration.definition
  pub candidate : Mem r.tool (registrations_for_capability tools name)
  pub first :
      (t : ToolRegistration)
      → Mem t (registrations_for_capability tools name)
      → r.tool.definition.priority ≤ℤ t.definition.priority
  pub capability_domain : r.capability_domain ≡ registration.domain_identity
  pub tool_domain : r.tool_domain ≡ r.tool.domain_identity
  pub same_domain :
      (d e : DomainIdentity)
      → registration.domain_identity ≡ some d
      → r.tool.domain_identity ≡ some e
      → (d.name ≡ e.name) × (d.version ≡ e.version)

-- Two domains that match are the same.
match-same :
    (a b : Option DomainIdentity)
    → is_domain_mismatch a b ≡ false
    → (d e : DomainIdentity) → a ≡ some d
    → b ≡ some e
    → (d.name ≡ e.name) × (d.version ≡ e.version)
unfolding is_domain_mismatch
match-same none b h d e p q = absurd (cc)
match-same (some x) none h d e p q = absurd (cc)
match-same (some x) (some y) h d e p q =
    let (name, version) = parts in
    (
      ap (λ z. z.name) (sym (some-injective x d p))
          ∙ name
          ∙ ap (λ z. z.name) (some-injective y e q),
      ap (λ z. z.version) (sym (some-injective x d p))
          ∙ version
          ∙ ap (λ z. z.version) (some-injective y e q),
    )
  where
    parts : (x.name ≡ y.name) × (x.version ≡ y.version)
    parts = ground (arith, eq_iff x.name y.name, eq_iff x.version y.version)

validated-ok :
    (c : CapabilityRegistration) (t : ToolRegistration) (r : CapabilityResolution)
    → validated c t ≡ ok r
    → (is_domain_mismatch c.domain_identity t.domain_identity ≡ false)
      × (record {
        capability = c.definition;
        tool = t;
        capability_domain = c.domain_identity;
        tool_domain = t.domain_identity;
      }
          ≡ r)
unfolding validated
validated-ok c t r h = elim (Bool-cases (is_domain_mismatch c.domain_identity t.domain_identity)) [
  | inl e ↦ absurd (ground arith)
  | inr e ↦ (e, ground arith)
]

choose-Resolved :
    (capabilities : Capabilities) (tools : Tools) (name : String) (c : CapabilityRegistration)
    (r : CapabilityResolution) (candidates : List ToolRegistration)
    → get capabilities name ≡ some c
    → registrations_for_capability tools name ≡ candidates
    → choose name c candidates ≡ ok r
    → Resolved capabilities tools name r
choose-Resolved capabilities tools name c r [] found e h = absurd (unfold choose in ground arith)
choose-Resolved capabilities tools name c r (t ∷ rest) found e h =
    let (agree, same) = validated-ok c (least t rest) r (unfold choose in h) in
    let (m, le) = least-First t rest in
    subst (Resolved capabilities tools name) same (record {
      registration = c;
      found = found;
      capability = refl;
      candidate = subst (Mem (least t rest)) (sym e) m;
      first = λ u there. le u (subst (Mem u) e there);
      capability_domain = refl;
      tool_domain = refl;
      same_domain = match-same c.domain_identity (least t rest).domain_identity agree;
    })

-- A resolution that returns gives the capability registered under the name, and a tool among those
-- that implement the capability of which none has a smaller priority; where the two were registered
-- with a domain each, the domains have the same name and version.
pub resolve_registration-Resolved :
    (capabilities : Capabilities) (tools : Tools) (name : String) (r : CapabilityResolution)
    → resolve_registration capabilities tools name ≡ ok r
    → Resolved capabilities tools name r
unfolding resolve_registration resolve_capability
resolve_registration-Resolved capabilities tools name r h =
    elim (Option-cases (get capabilities name)) [
      | inl e ↦ absurd (ground arith)
      | inr (c, e) ↦
          choose-Resolved capabilities tools name c r (registrations_for_capability tools name) e
            refl (ground arith)
    ]
