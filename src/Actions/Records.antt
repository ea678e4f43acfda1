-- ===== src/Actions/Records.antt =====
-- The record of an action that has side effects.
use universal_agent.Prelude.{
  ◌≡◌, refl, sym, ◌∙◌, ◌>>◌, String, Bool, true, false, not, ◌&&◌, List, [], ◌∷◌, Result, ok,
  raised, Bool-cases, inl, inr, arith, Keeps, bind-keeps, contains, filter, String_eq, return,
  if◌then◌else◌, ◌==◌, on_raise, and_then, subst, written_if_raised,
}
use text.Mathlib.TextEquality.{eq_iff}
use universal_agent.Core.Models.{ToolCall, PendingAction}
use universal_agent.Coordination.Locks.{Locks}
use universal_agent.Actions.Models.{ActionError, ActionExecutor, ActionOutcome, Machine}
use universal_agent.Actions.Resources.{emit, forget_key, record_key, seen, observe_result}
use universal_agent.Actions.Invoke.{
  call_tool, find_tool, invoke, is_observed_success, update_if_succeeded,
}
use universal_agent.Actions.Run.{
  Checked, forget_failure, remember_success, run_effect, run_fresh, run_recorded,
  fresh_or_reconciled,
}
use universal_agent.Actions.Frame.{fixed, emit-Leaves, emit_then-Leaves, taken-Leaves}

contains-filter :
    (key : String) (keys : List String) → contains (filter (λ k. not (k == key)) keys) key ≡ false
contains-filter key [] = refl
contains-filter key (k ∷ rest) = elim (Bool-cases (k == key)) [
  | inl e ↦ rw e (contains-filter key rest)
  | inr e ↦ ground (arith, eq_iff k key, eq_iff key k, contains-filter key rest)
]

forget_key-gone : (key : String) (m : Machine) → seen key (forget_key key m) ≡ false
unfolding forget_key
forget_key-gone key m = contains-filter key m.seen

record_key-new :
    (key : String) (m : Machine)
    → seen key m ≡ false
    → ((record_key key m).0 ≡ ok true) × (seen key (record_key key m).1 ≡ true)
unfolding record_key
record_key-new key m h = rw h (refl, ground (arith, eq_iff key key))

-- The call of the tool keeps what holds of the keys and of the locks.
module _ (c : ActionExecutor) (R : List String → Locks → Type 0) where
  abbrev T : List ToolCall → List String → Locks → Type 0
  T calls keys locks = R keys locks

  abbrev IsKept : Machine → Type 0
  IsKept m = R m.seen m.locks

  pub invoke-Keeps : (pending : PendingAction) → Keeps IsKept (invoke c pending)
  unfolding invoke find_tool call_tool
  invoke-Keeps pending m p = bind-keeps IsKept (find_tool c pending) _ m p λ _ e.
      let q = emit-Leaves c (fixed T) "ActionStarted" pending m p in
      bind-keeps IsKept (emit c "ActionStarted" pending) _ m q λ _ e.
        let m' = (emit c "ActionStarted" pending m).1 in
        bind-keeps IsKept (call_tool c pending) _ m' q λ result e.
          emit_then-Leaves c (fixed T) "ActionCompleted" pending
            (update_if_succeeded c pending result >> observe_result c pending result)
            (taken-Leaves c (fixed T) pending result) (call_tool c pending m').1 q

module _ (c : ActionExecutor) (x : Checked) where
  abbrev pub key : String
  key = x.pending.idempotency_key

  -- The record tells whether the action was observed to succeed.
  abbrev Tells : Result ActionError ActionOutcome × Machine → Type 0
  Tells (ok o, m) = seen key m ≡ is_observed_success o
  Tells (raised e, m) = Unit

  remembered-Tells :
      (o : ActionOutcome) (m : Machine)
      → seen key m ≡ is_observed_success o
      → Tells ((remember_success c x o >> return o) m)
  remembered-Tells o m h =
      elim (Bool-cases (x.confirmed && (not x.restricted && is_observed_success o))) [
        | inl e ↦ rw e h
        | inr e ↦ rw e h
      ]

  forgotten-Tells :
      (o : ActionOutcome) (m : Machine)
      → seen key m ≡ true
      → Tells ((forget_failure c x o >> (remember_success c x o >> return o)) m)
  forgotten-Tells o m h = elim (Bool-cases (is_observed_success o)) [
    | inl e ↦ subst Tells (sym (kept e)) (remembered-Tells o m (h ∙ sym e))
    | inr e ↦
        subst Tells (sym (gone e))
          (remembered-Tells o (forget_key key m) (forget_key-gone key m ∙ sym e))
  ]
    where
      kept :
          is_observed_success o ≡ true
          → (forget_failure c x o >> (remember_success c x o >> return o)) m
            ≡ (remember_success c x o >> return o) m
      kept e = rw e refl

      gone :
          is_observed_success o ≡ false
          → (forget_failure c x o >> (remember_success c x o >> return o)) m
            ≡ (remember_success c x o >> return o) (forget_key key m)
      gone e = rw e refl

  fresh_after-Tells :
      (r : Result ActionError ActionOutcome) (m : Machine)
      → seen key m ≡ true
      → Tells (and_then r (λ o. forget_failure c x o >> (remember_success c x o >> return o)) m)
  fresh_after-Tells (raised e) m h = tt
  fresh_after-Tells (ok o) m h = forgotten-Tells o m h

  abbrev IsRecorded : List String → Locks → Type 0
  IsRecorded keys locks = contains keys key ≡ true

  run_fresh-Tells : (m : Machine) → seen key m ≡ true → Tells (run_fresh c x m)
  unfolding run_fresh
  run_fresh-Tells m h =
      let (r, m') = invoke c x.pending m in
      fresh_after-Tells r m' (invoke-Keeps c IsRecorded x.pending m h)

  -- The record is there exactly behind a success.
  abbrev pub Records : Result ActionError ActionOutcome × Machine → Type 0
  Records (ok o, m) = seen key m ≡ is_observed_success o
  Records (raised e, m) = seen key m ≡ false

  recorded_after-Tells :
      (r : Result ActionError Unit) (m : Machine)
      → seen key m ≡ true
      → Tells (and_then r (λ _. fresh_or_reconciled c x true) m)
  recorded_after-Tells (raised e) m h = tt
  recorded_after-Tells (ok _) m h = run_fresh-Tells m h

  run_recorded-Tells : (m : Machine) → seen key m ≡ true → Tells (run_recorded c x true m)
  unfolding run_recorded
  run_recorded-Tells m h =
      let (r, m') = emit c "IdempotencyChecked" x.pending m in
      recorded_after-Tells r m' (
        emit-Leaves c (fixed (λ calls keys locks. IsRecorded keys locks)) "IdempotencyChecked"
          x.pending m h)

  raise-Records :
      (r : Result ActionError ActionOutcome) (m : Machine)
      → Tells (r, m)
      → Records (r, written_if_raised r (forget_key key) m)
  raise-Records (ok o) m h = h
  raise-Records (raised e) m h = forget_key-gone key m

  effect_after-Records :
      (b : Result ActionError Bool) (m : Machine)
      → b ≡ ok true
      → seen key m ≡ true
      → Records (
          and_then b
            (λ recorded.
              on_raise (run_recorded c x recorded) (if recorded then forget_key key else λ m. m))
            m)
  effect_after-Records (raised e) m h k = absurd (ground arith)
  effect_after-Records (ok false) m h k = absurd (ground arith)
  effect_after-Records (ok true) m h k =
      let (r, m') = run_recorded c x true m in raise-Records r m' (run_recorded-Tells m k)

  -- An action with side effects that has no record, behind its lock: if it returns, there is a record
  -- exactly if a success was observed, and if it raises, there is none.
  pub run_effect-Records : (m : Machine) → seen key m ≡ false → Records (run_effect c x m)
  unfolding run_effect
  run_effect-Records m h =
      let (b, m') = record_key key m in
      let (returns, recorded) = record_key-new key m h in effect_after-Records b m' returns recorded
