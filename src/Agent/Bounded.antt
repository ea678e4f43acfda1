-- ===== src/Agent/Bounded.antt =====
-- The loop ends.
use universal_agent.Prelude.{
  ℕ, zero, suc, ◌+◌, ◌<◌, ◌≡◌, refl, sym, ap, arith, Bool, true, false, Option, none, some, Returns,
  then-Returns, ltb,
}
use universal_agent.Core.Enums.{ErrorCode}
use universal_agent.Core.Models.{ExecutionResult}
use universal_agent.Runtime.Transitions.{fail}
use universal_agent.Actions.Models.{Machine}
use universal_agent.Agent.Models.{AgentRuntime}
use universal_agent.Agent.Loop.{iterate, iterations_reason, loop, or_again, turn}
use universal_agent.Agent.Ends.{Idle, Post, fail-Quits, stopped-Post}
use universal_agent.Agent.Counted.{IsAt}
use universal_agent.Prelude.{then-same}
use universal_agent.Agent.Iterated.{iterate-Post}

module _ (a : AgentRuntime) where
  abbrev P : ℕ → Machine → Type 0
  P k m = IsAt k m.session

  -- A result, with which the goal is not running.
  abbrev pub Ended : Option ExecutionResult → Machine → Type 0
  Ended (some result) m = Idle m.session
  Ended none m = ⊥

  again-Ended :
      (fuel k : ℕ) (o : Option ExecutionResult) (m : Machine)
      → ((m : Machine) → P k m → Returns Ended (loop a fuel m))
      → Post (P k) o m
      → Returns Ended (or_again a (loop a fuel) o m)
  again-Ended fuel k (some result) m next h = h
  again-Ended fuel k none m next h = next m h

  turn-Ended :
      (fuel k : ℕ) (m : Machine)
      → P k m
      → (k < a.max_iterations → (m : Machine) → P (k + 1) m → Returns Ended (loop a fuel m))
      → (b : Bool) → ltb k a.max_iterations ≡ b
      → Returns Ended (turn a b (loop a fuel) m)
  turn-Ended fuel k m h next true e =
      then-Returns (Post (P (k + 1))) Ended (iterate a) (or_again a (loop a fuel)) m
        (iterate-Post a k m h) (λ o m h. again-Ended fuel (k + 1) o m (next (ground arith)) h)
  turn-Ended fuel k m h next false e =
      stopped-Post a (λ m. ⊥) (fail ErrorCode.iteration_limit (iterations_reason a))
        (fail-Quits ErrorCode.iteration_limit (iterations_reason a)) m

  loop_from-Ended :
      (fuel k : ℕ) (m : Machine)
      → 0 < fuel
      → a.max_iterations < k + fuel
      → P k m
      → Returns Ended (loop a fuel m)
  unfolding loop
  loop_from-Ended zero k m f enough h = absurd (omega arith)
  loop_from-Ended (suc fuel) k m f enough h =
      turn-Ended fuel k m h
        (λ less m h. loop_from-Ended fuel (k + 1) m (omega arith) (omega arith) h)
        (ltb m.session.state.iteration a.max_iterations) (ap (λ n. ltb n a.max_iterations) (sym h))

  -- The loop on two fuels, where the loops that follow agree.
  again-same :
      (n n' k : ℕ) (o : Option ExecutionResult) (m : Machine)
      → ((m : Machine) → P k m → loop a n m ≡ loop a n' m)
      → Post (P k) o m
      → or_again a (loop a n) o m ≡ or_again a (loop a n') o m
  again-same n n' k (some result) m next h = refl
  again-same n n' k none m next h = next m h

  turn-same :
      (n n' k : ℕ) (m : Machine)
      → P k m
      → (k < a.max_iterations → (m : Machine) → P (k + 1) m → loop a n m ≡ loop a n' m)
      → (b : Bool) → ltb k a.max_iterations ≡ b
      → turn a b (loop a n) m ≡ turn a b (loop a n') m
  turn-same n n' k m h next true e =
      then-same (Post (P (k + 1))) (iterate a) (or_again a (loop a n)) (or_again a (loop a n')) m
        (iterate-Post a k m h) (λ o m h. again-same n n' (k + 1) o m (next (ground arith)) h)
  turn-same n n' k m h next false e = refl

  loop_from-same :
      (n n' k : ℕ) (m : Machine)
      → 0 < n
      → 0 < n'
      → a.max_iterations < k + n
      → a.max_iterations < k + n'
      → P k m
      → loop a n m ≡ loop a n' m
  unfolding loop
  loop_from-same zero n' k m f f' enough enough' h = absurd (omega arith)
  loop_from-same (suc n) zero k m f f' enough enough' h = absurd (omega arith)
  loop_from-same (suc n) (suc n') k m f f' enough enough' h =
      turn-same n n' k m h
        (λ less m h.
          loop_from-same n n' (k + 1) m (omega arith) (omega arith) (omega arith) (omega arith) h)
        (ltb m.session.state.iteration a.max_iterations) (ap (λ n. ltb n a.max_iterations) (sym h))

  -- With more fuel than the limit of iterations, what the loop does, an exception included, does not
  -- depend on the fuel, and where it returns, it returns a result, with which the goal is not running.
  pub loop-Ended :
      (fuel other : ℕ) (m : Machine)
      → a.max_iterations < fuel
      → a.max_iterations < other
      → Returns Ended (loop a fuel m) × (loop a fuel m ≡ loop a other m)
  loop-Ended fuel other m enough enough' =
      let k = m.session.state.iteration in
      (
        loop_from-Ended fuel k m (omega arith) (omega arith) refl,
        loop_from-same fuel other k m (omega arith) (omega arith) (omega arith) (omega arith) refl,
      )
