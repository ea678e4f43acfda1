-- ===== src/Policy/Precedence.antt =====
-- The verdict of the engine on one action depends only on which effects occur among the results
-- of the policies: deny before confirmation before allow, and by default only reading is allowed.
use mathlib.Core.List.{Perm, Permᴰ}
use mathlib.Core.Path.{ap, ap₂}
use mathlib.Core.Logic.{∥∥₁_elim}
use universal_agent.Prelude.{
  Bool, true, false, none, some, List, [], ◌∷◌, arith, any, find?-cases, any-mem, any-false, Mem,
  ◌≡◌, ◌≢◌, refl, sym, ◌∙◌, ◌||◌, ◌⊎◌, inl, inr,
}
use universal_agent.Core.Enums.{PolicyEffect, allow, require_confirmation, deny}
use universal_agent.Core.Models.{PolicyContext, PolicyResult}
use universal_agent.Policy.{
  Policy, PolicyEngine, is_deny, is_require_confirmation, is_allow, is_mutation, results, check,
  check_confirmation, check_allowed,
}

PolicyEffect-set : IsSet PolicyEffect
PolicyEffect-set = hlevel

-- The effect, from what occurs among the results and from the context.
abbrev pub verdict : (denied confirmation allowed confirmed mutation : Bool) → PolicyEffect
verdict true _ _ _ _ = deny
verdict false true _ true _ = allow
verdict false true _ false _ = require_confirmation
verdict false false true _ _ = allow
verdict false false false _ true = deny
verdict false false false _ false = allow

module _ (context : PolicyContext) where
  check_allowed-verdict :
      (rs : List PolicyResult)
      → (check_allowed rs context).effect
        ≡ verdict false false (any is_allow rs) context.confirmed (is_mutation context)
  unfolding check_allowed
  check_allowed-verdict rs = ground (arith, find?-cases is_allow rs)

  check_confirmation-verdict :
      (rs : List PolicyResult)
      → (check_confirmation rs context).effect
        ≡ verdict false
            (any is_require_confirmation rs)
            (any is_allow rs)
            context.confirmed
            (is_mutation context)
  unfolding check_confirmation
  check_confirmation-verdict rs =
      ground (arith, check_allowed-verdict rs, find?-cases is_require_confirmation rs)

  module _ (engine : PolicyEngine) where
    abbrev verdicts : List PolicyResult
    verdicts = results engine.policies context

    -- The effect of a check is decided by which effects occur among the verdicts, by the confirmation
    -- and by the category: a denial wins, then a demand for confirmation, which a confirmed context
    -- meets, then an allow, and without any of them only reading is allowed.
    pub check-verdict :
        (check engine context).effect
        ≡ verdict
            (any is_deny verdicts)
            (any is_require_confirmation verdicts)
            (any is_allow verdicts)
            context.confirmed
            (is_mutation context)
    unfolding check
    check-verdict =
        ground (arith, check_confirmation-verdict verdicts, find?-cases is_deny verdicts)

    -- An action is allowed only if no policy denies it, every demand for confirmation was met by a
    -- confirmed context, and, for a mutation, some policy gave an explicit allow or a demand.
    pub check_allow :
        (check engine context).effect ≡ allow
        → ((r : PolicyResult) → Mem r verdicts → r.effect ≢ deny)
          × ((r : PolicyResult)
              → Mem r verdicts
              → r.effect ≡ require_confirmation
              → context.confirmed ≡ true)
          × (is_mutation context ≡ true
              → (r : PolicyResult) × Mem r verdicts
                × ((r.effect ≡ allow) ⊎ (r.effect ≡ require_confirmation)))
    check_allow h = (
      λ r m e. ground (arith, check-verdict, any-false is_deny verdicts r),
      λ r m e. ground (arith, check-verdict, any-false is_require_confirmation verdicts r),
      λ mutates.
          granted mutates (any is_require_confirmation verdicts) refl (any is_allow verdicts) refl,
    )
      where
        granted :
            is_mutation context ≡ true
            → (c : Bool) → any is_require_confirmation verdicts ≡ c
            → (a : Bool) → any is_allow verdicts ≡ a
            → (r : PolicyResult) × Mem r verdicts
              × ((r.effect ≡ allow) ⊎ (r.effect ≡ require_confirmation))
        granted mutates true ec a ea =
            let (r, m, t) = any-mem is_require_confirmation verdicts ec in
            (r, m, inr (ground arith))
        granted mutates false ec true ea =
            let (r, m, t) = any-mem is_allow verdicts ea in (r, m, inl (ground arith))
        granted mutates false ec false ea = absurd (ground (arith, check-verdict))

module _ (context : PolicyContext) (test : PolicyResult → Bool) where
  -- Whether one policy gives a result that passes the test.
  gives : Policy → Bool
  gives p = elim (p.evaluate context) [ none ↦ false | some r ↦ test r ]

  any-results : (ps : List Policy) → any test (results ps context) ≡ any gives ps
  unfolding results gives
  any-results [] = refl
  any-results (p ∷ ps) = ground (arith, any-results ps)

any-perm {ℓ} :
    {A : Type ℓ} (test : A → Bool) {xs ys : List A} → Permᴰ xs ys → any test xs ≡ any test ys
any-perm test Permᴰ.nil = refl
any-perm test (Permᴰ.cons e p) = ap₂ (λ x b. test x || b) e (any-perm test p)
any-perm test (Permᴰ.swap {a} {b} {l = l} e e') = ground (arith, ap test e, ap test e')
any-perm test (Permᴰ.trans p q) = any-perm test p ∙ any-perm test q

module _ (context : PolicyContext) {ps qs : List Policy} where
  any-results-perm :
      Permᴰ ps qs
      → (test : PolicyResult → Bool) → any test (results ps context) ≡ any test (results qs context)
  any-results-perm p test =
      any-results context test ps
      ∙ any-perm (gives context test) p
      ∙ sym (any-results context test qs)

  -- The order in which the policies are given does not change the effect.
  pub check-perm :
      Perm ps qs
      → (check (record { policies = ps }) context).effect
        ≡ (check (record { policies = qs }) context).effect
  check-perm p = ∥∥₁_elim p (PolicyEffect-set _ _) λ d. cc (
    check-verdict context (record { policies = ps }),
    check-verdict context (record { policies = qs }),
    any-results-perm d is_deny,
    any-results-perm d is_require_confirmation,
    any-results-perm d is_allow,
  )
