-- ===== src/Prelude/Lists.antt =====
-- Lists: tests and filters by a Boolean, membership and predicates by recursion, and lengths over
-- the native numbers.
use Prim.Native.Nat.{ℕ, suc}
use mathlib.Core.Path.{◌≡◌, refl, sym, ap, ◌∙◌, subst}
use mathlib.Core.Logic.{◌⊎◌, inl, inr}
use mathlib.Core.Bool.{Bool, true, false, ◌&&◌, ◌||◌}
use mathlib.Core.Option.{Option, none, some}
use mathlib.Core.List.{List, [], ◌∷◌}
use native.Mathlib.Omega.{arith}
use universal_agent.Prelude.Tests.{Eq, ◌==◌, Bool-cases, if◌then◌else◌}

module _ {ℓ} {A : Type ℓ} where
  abbrev pub length : List A → ℕ
  length [] = 0
  length (x ∷ xs) = suc (length xs)

  abbrev pub any : (A → Bool) → List A → Bool
  any p [] = false
  any p (x ∷ xs) = p x || any p xs

  abbrev pub all : (A → Bool) → List A → Bool
  all p [] = true
  all p (x ∷ xs) = p x && all p xs

  -- `next((x for x in xs if p(x)), None)`
  abbrev pub find? : (A → Bool) → List A → Option A
  find? p [] = none
  find? p (x ∷ xs) = if p x then some x else find? p xs

  -- `[x for x in xs if p(x)]`
  abbrev pub filter : (A → Bool) → List A → List A
  filter p [] = []
  filter p (x ∷ xs) = let rest = filter p xs in if p x then x ∷ rest else rest

  -- Truthiness of a sequence.
  abbrev pub is_empty : List A → Bool
  is_empty [] = true
  is_empty (x ∷ xs) = false

  abbrev pub All {κ} : (A → Type κ) → List A → Type κ
  All P [] = Unit
  All P (x ∷ xs) = P x × All P xs

module _ {ℓ} {A : Type ℓ} ⦃e : Eq A⦄ where
  -- `a in xs`
  abbrev pub contains : List A → A → Bool
  contains [] a = false
  contains (x ∷ xs) a = a == x || contains xs a

-- Membership by recursion, which the tactics take apart.
abbrev pub Mem : {A : Type 0} → A → List A → Type 0
Mem a [] = ⊥
Mem a (x ∷ xs) = (a ≡ x) ⊎ Mem a xs

module _ {A : Type 0} where
  pub All-mem {κ} : (P : A → Type κ) (xs : List A) (a : A) → All P xs → Mem a xs → P a
  All-mem P [] a h m = absurd m
  All-mem P (x ∷ xs) a h (inl e) = subst P (sym e) h.0
  All-mem P (x ∷ xs) a h (inr m) = All-mem P xs a h.1 m

  pub mem-filter :
      (p : A → Bool) (xs : List A) (a : A) → Mem a (filter p xs) → Mem a xs × (p a ≡ true)
  mem-filter p [] a m = absurd m
  mem-filter p (x ∷ xs) a m = elim (Bool-cases (p x)) [
    | inl e ↦ elim (let m' : (a ≡ x) ⊎ Mem a (filter p xs) = rw e at m in m') [
      | inl same ↦ (inl same, ap p same ∙ e)
      | inr rest ↦ let (i, t) = mem-filter p xs a rest in (inr i, t)
    ]
    | inr e ↦
        let m' : Mem a (filter p xs) = rw e at m in let (i, t) = mem-filter p xs a m' in (inr i, t)
  ]

  pub mem-filter_intro :
      (p : A → Bool) (xs : List A) (a : A) → Mem a xs → p a ≡ true → Mem a (filter p xs)
  mem-filter_intro p [] a m t = absurd m
  mem-filter_intro p (x ∷ xs) a (inl same) t = rw (sym (ap p same) ∙ t) (inl same)
  mem-filter_intro p (x ∷ xs) a (inr m) t = elim (Bool-cases (p x)) [
    | inl e ↦ rw e (inr (mem-filter_intro p xs a m t))
    | inr e ↦ rw e (mem-filter_intro p xs a m t)
  ]

  pub mem-find? :
      (p : A → Bool) (xs : List A) (a : A) → find? p xs ≡ some a → Mem a xs × (p a ≡ true)
  mem-find? p [] a h = absurd (cc)
  mem-find? p (x ∷ xs) a h = elim (Bool-cases (p x)) [
    | inl e ↦ let same : some x ≡ some a = rw e at h in (inl (cc), cc)
    | inr e ↦
        let rest : find? p xs ≡ some a = rw e at h in
        let (i, t) = mem-find? p xs a rest in (inr i, t)
  ]

  pub find?-none : (p : A → Bool) (xs : List A) (a : A) → find? p xs ≡ none → Mem a xs → p a ≡ false
  find?-none p [] a h m = absurd m
  find?-none p (x ∷ xs) a h (inl same) = ground arith
  find?-none p (x ∷ xs) a h (inr m) = find?-none p xs a (ground arith) m

  -- What a search finds, beside the test of existence.
  pub find?-cases :
      (p : A → Bool) (xs : List A)
      → (find? p xs ≡ none) × (any p xs ≡ false)
        ⊎ ((a : A) × (find? p xs ≡ some a) × (p a ≡ true) × (any p xs ≡ true))
  find?-cases p [] = inl (refl, refl)
  find?-cases p (x ∷ xs) = elim (Bool-cases (p x)) [
    | inl e ↦ inr (x, rw e, e, rw e)
    | inr e ↦ rw e (find?-cases p xs)
  ]

  pub any-mem : (p : A → Bool) (xs : List A) → any p xs ≡ true → (a : A) × Mem a xs × (p a ≡ true)
  any-mem p [] h = absurd (cc)
  any-mem p (x ∷ xs) h = elim (Bool-cases (p x)) [
    | inl e ↦ (x, inl refl, e)
    | inr e ↦
        let h' : any p xs ≡ true = rw e at h in let (a, m, t) = any-mem p xs h' in (a, inr m, t)
  ]

  pub any-false : (p : A → Bool) (xs : List A) (a : A) → any p xs ≡ false → Mem a xs → p a ≡ false
  any-false p [] a h m = absurd m
  any-false p (x ∷ xs) a h (inl same) = ground arith
  any-false p (x ∷ xs) a h (inr m) = any-false p xs a (ground arith) m
