-- ===== src/Recovery/Bounded.antt =====
-- Recovery from one failure, over and over: the attempts that `plan_recovery_for_pending` of
-- src/universal_agent/runtime/recovery_planning.py records bound how often a rule's strategy is
-- taken.
use Prim.Native.String.{◌++◌}
use Prim.Native.String.append
use text.Mathlib.TextEquality.{eq_iff}
use universal_agent.Prelude.{
  ℕ, zero, suc, ◌+◌, ◌≡◌, ap, ◌∙◌, String, false, not, some, arith, find?, if◌then◌else◌, String_eq,
}
use universal_agent.Prelude.Int.{pos, leb_ℤ}
use universal_agent.Prelude.Text.{is_empty_text}
use universal_agent.Prelude.Dict.{Dict, put, get-put}
use universal_agent.Recovery.Models.{
  Failure, RecoveryRule, RecoveryStrategy, RecoveryManager, RecoveryDecision, handles,
  category_value, attempt_key, attempts_at, decide,
}

-- `if key: state.recovery_attempts[key] = recovery.attempt`
unfoldable pub record_attempt : RecoveryDecision × String → Dict ℕ → Dict ℕ
record_attempt (decision, key) attempts =
    if is_empty_text key then attempts else put attempts key decision.attempt

append_not_empty : (s t : String) → is_empty_text (s ++ (":" ++ t)) ≡ false
append_not_empty String.[] t = ap is_empty_text (append.nil (":" ++ t) ∙ append.cons ":" "" t)
append_not_empty (String.◌∷◌ c s) t = ap is_empty_text (append.cons c s (":" ++ t))

module _ (manager : RecoveryManager) (failure : Failure) where
  -- The attempts behind `n` recoveries from the failure.
  unfoldable pub attempts_behind : ℕ → Dict ℕ → Dict ℕ
  attempts_behind zero attempts = attempts
  attempts_behind (suc n) attempts =
      let before = attempts_behind n attempts in
      record_attempt (decide manager failure before) before

  module _ (r : RecoveryRule) (found : find? (handles failure) manager.rules ≡ some r) where
    abbrev key_of : String
    key_of = attempt_key failure.task_id failure.category r.name

    decide-found :
        (attempts : Dict ℕ)
        → ((decide manager failure attempts).1 ≡ key_of)
          × ((decide manager failure attempts).0.attempt ≡ attempts_at attempts key_of + 1)
          × ((decide manager failure attempts).0.exhausted
              ≡ not (leb_ℤ (pos (attempts_at attempts key_of + 1)) r.max_attempts))
          × ((decide manager failure attempts).0.strategy ≡ (
              if leb_ℤ (pos (attempts_at attempts key_of + 1)) r.max_attempts
              then r.strategy
              else RecoveryStrategy.stop))
    unfolding decide
    decide-found attempts = ground (arith, found)

    key_not_empty : is_empty_text key_of ≡ false
    unfolding attempt_key
    key_not_empty =
        append_not_empty failure.task_id (category_value failure.category ++ (":" ++ r.name))

    attempts_at-record :
        (attempts : Dict ℕ)
        → attempts_at (record_attempt (decide manager failure attempts) attempts) key_of
          ≡ attempts_at attempts key_of + 1
    unfolding record_attempt
    attempts_at-record attempts =
        let (key, attempt, _, _) = decide-found attempts in
        rw (key, key_not_empty)
          (ground (
            arith,
            get-put attempts key_of key_of (decide manager failure attempts).0.attempt,
            eq_iff key_of key_of,
          ))

    attempts_at-behind :
        (n : ℕ) (attempts : Dict ℕ)
        → attempts_at (attempts_behind n attempts) key_of ≡ attempts_at attempts key_of + n
    unfolding attempts_behind
    attempts_at-behind zero attempts = omega arith
    attempts_at-behind (suc n) attempts =
        attempts_at-record (attempts_behind n attempts)
        ∙ omega (arith, attempts_at-behind n attempts)

    -- Where the first rule that handles a failure is `r`, the recovery behind `n` others from the
    -- same failure takes the rule's strategy while the attempts recorded at the start, `n` and this
    -- one are at most `max_attempts`, and stops the run otherwise.
    pub decide_bounded :
        (n : ℕ) (attempts : Dict ℕ)
        → ((decide manager failure (attempts_behind n attempts)).0.strategy ≡ (
            if leb_ℤ (pos (attempts_at attempts key_of + n + 1)) r.max_attempts
            then r.strategy
            else RecoveryStrategy.stop))
          × ((decide manager failure (attempts_behind n attempts)).0.attempt
              ≡ attempts_at attempts key_of + n + 1)
    decide_bounded n attempts =
        let (_, attempt, _, strategy) = decide-found (attempts_behind n attempts) in
        let behind = attempts_at-behind n attempts in
        (rw (← behind) strategy, rw (← behind) attempt)
