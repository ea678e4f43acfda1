-- ===== src/Prelude/Monad.antt =====
-- Methods that mutate an object and may raise an exception. What was written before a raise stays
-- written, so the state comes back beside the exception too.
use mathlib.Core.Path.{◌≡◌, refl}
use mathlib.Core.Logic.{◌⊎◌, inl, inr}
use mathlib.Core.Bool.{Bool, true, false}
use universal_agent.Prelude.Tests.{if◌then◌else◌}

-- What a call gives: its value, or the exception that it raises.
pub data Result (E A : Type 0) : Type 0 where
  ok : A → Result E A
  raised : E → Result E A

abbrev pub Method : (E S A : Type 0) → Type 0
Method E S A = S → Result E A × S

module _ {E S A : Type 0} where
  abbrev pub return : A → Method E S A
  return a s = (ok a, s)

  abbrev pub throw : E → Method E S A
  throw x s = (raised x, s)

  -- A pure computation that may raise.
  abbrev pub lift : Result E A → Method E S A
  lift r s = (r, s)

  abbrev pub gets : (S → A) → Method E S A
  gets f s = (ok (f s), s)

module _ {E S : Type 0} where
  abbrev pub modify : (S → S) → Method E S Unit
  modify f s = (ok tt, f s)

module _ {E S A B : Type 0} where
  abbrev pub and_then : Result E A → (A → Method E S B) → Method E S B
  and_then (ok a) f s = f a s
  and_then (raised x) f s = (raised x, s)

  infixl 5 ◌>>=◌ ◌>>◌
  abbrev pub ◌>>=◌ : Method E S A → (A → Method E S B) → Method E S B
  ◌>>=◌ m f s = let (r, s') = m s in and_then r f s'

  abbrev pub ◌>>◌ : Method E S A → Method E S B → Method E S B
  m >> n = m >>= λ _. n

-- `try: body finally: last`: the exception of `last`, if it raises, replaces what `body` gave.
abbrev pub ended_by : {E A : Type 0} → Result E A → Result E Unit → Result E A
ended_by r (ok _) = r
ended_by r (raised x) = raised x

abbrev pub finally : {E S A : Type 0} → Method E S A → Method E S Unit → Method E S A
finally body last s = let (r, s') = body s in let (e, s'') = last s' in (ended_by r e, s'')

-- `try: body except: handler; raise`
abbrev pub written_if_raised : {E S A : Type 0} → Result E A → (S → S) → S → S
written_if_raised (ok _) handler s = s
written_if_raised (raised x) handler s = handler s

abbrev pub on_raise : {E S A : Type 0} → Method E S A → (S → S) → Method E S A
on_raise body handler s = let (r, s') = body s in (r, written_if_raised r handler s')

-- What holds of the state behind two calls in a row, whether the first returns or raises.
module _ {E S A B : Type 0} (P : S → Type 0) where
  pub and_then-keeps :
      (r : Result E A) (f : A → Method E S B) (s : S)
      → P s
      → ((a : A) → r ≡ ok a → P (f a s).1)
      → P (and_then r f s).1
  and_then-keeps (ok a) f s p k = k a refl
  and_then-keeps (raised x) f s p k = p

  pub bind-keeps :
      (m : Method E S A) (f : A → Method E S B) (s : S)
      → P (m s).1
      → ((a : A) → (m s).0 ≡ ok a → P (f a (m s).1).1)
      → P ((m >>= f) s).1
  bind-keeps m f s p k = let (r, s') = m s in and_then-keeps r f s' p k

-- A check that raises.
abbrev pub require : {E : Type 0} → Bool → E → Result E Unit
require true x = ok tt
require false x = raised x

-- To split on the result of a call and keep the equation.
pub Result-cases :
    {E A : Type 0} (r : Result E A) → ((x : E) × (r ≡ raised x)) ⊎ ((a : A) × (r ≡ ok a))
Result-cases (ok a) = inr (a, refl)
Result-cases (raised x) = inl (x, refl)

-- What a call leaves as it was, whether it returns or raises.
module _ {E S : Type 0} (P : S → Type 0) where
  abbrev pub Keeps : {A : Type 0} → Method E S A → Type 0
  Keeps m = (s : S) → P s → P (m s).1

  pub then-Keeps :
      {A B : Type 0} (m : Method E S A) (f : A → Method E S B)
      → Keeps m
      → ((a : A) → Keeps (f a))
      → Keeps (m >>= f)
  then-Keeps m f h k s p = bind-keeps P m f s (h s p) (λ a e. k a (m s).1 (h s p))

  pub if-Keeps :
      {A : Type 0} (b : Bool) (m n : Method E S A) → Keeps m → Keeps n → Keeps (if b then m else n)
  if-Keeps true m n h k = h
  if-Keeps false m n h k = k

  pub finally-Keeps :
      {A : Type 0} (body : Method E S A) (last : Method E S Unit)
      → Keeps body
      → Keeps last
      → Keeps (finally body last)
  finally-Keeps body last h k s p = k (body s).1 (h s p)

  pub written-keeps :
      {A : Type 0} (r : Result E A) (handler : S → S) (s : S)
      → P s
      → P (handler s)
      → P (written_if_raised r handler s)
  written-keeps (ok a) handler s p q = p
  written-keeps (raised x) handler s p q = q

-- What holds of the value and the state behind a call that returns.
module _ {E S : Type 0} where
  abbrev pub Returns : {A : Type 0} → (A → S → Type 0) → Result E A × S → Type 0
  Returns Q (ok a, s) = Q a s
  Returns Q (raised x, s) = Unit

  pub after-Returns :
      {A B : Type 0} (P : A → S → Type 0) (Q : B → S → Type 0) (r : Result E A)
      (f : A → Method E S B) (s : S)
      → Returns P (r, s)
      → ((a : A) (s : S) → P a s → Returns Q (f a s))
      → Returns Q (and_then r f s)
  after-Returns P Q (ok a) f s p k = k a s p
  after-Returns P Q (raised x) f s p k = tt

  pub then-Returns :
      {A B : Type 0} (P : A → S → Type 0) (Q : B → S → Type 0) (m : Method E S A)
      (f : A → Method E S B) (s : S)
      → Returns P (m s)
      → ((a : A) (s : S) → P a s → Returns Q (f a s))
      → Returns Q ((m >>= f) s)
  then-Returns P Q m f s p k = let (r, s') = m s in after-Returns P Q r f s' p k

  -- Two continuations that agree on what a call returns.
  after-same :
      {A B : Type 0} (P : A → S → Type 0) (r : Result E A) (f g : A → Method E S B) (s : S)
      → Returns P (r, s)
      → ((a : A) (s : S) → P a s → f a s ≡ g a s)
      → and_then r f s ≡ and_then r g s
  after-same P (ok a) f g s p k = k a s p
  after-same P (raised x) f g s p k = refl

  pub then-same :
      {A B : Type 0} (P : A → S → Type 0) (m : Method E S A) (f g : A → Method E S B) (s : S)
      → Returns P (m s)
      → ((a : A) (s : S) → P a s → f a s ≡ g a s)
      → (m >>= f) s ≡ (m >>= g) s
  then-same P m f g s p k = let (r, s') = m s in after-same P r f g s' p k

  -- What a call leaves as it was holds behind it.
  pub kept-Returns :
      {A : Type 0} (P : S → Type 0) (r : Result E A) (s : S) → P s → Returns (λ _ s. P s) (r, s)
  kept-Returns P (ok a) s p = p
  kept-Returns P (raised x) s p = tt
