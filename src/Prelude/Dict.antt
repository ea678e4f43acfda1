-- ===== src/Prelude/Dict.antt =====
-- Python's `dict` with text keys, in insertion order: assignment to a key that is there keeps its
-- place, and a new key goes to the end.
use Prim.Native.String.{String}
use mathlib.Core.Path.{◌≡◌, refl, sym, ◌∙◌, subst}
use mathlib.Core.Logic.{◌≢◌, ◌⊎◌, inl, inr}
use mathlib.Core.Bool.{Bool, true, false}
use mathlib.Core.Option.{Option, none, some, some-injective, none-ne-some}
use mathlib.Core.List.{List, [], ◌∷◌}
use native.Mathlib.Omega.{arith}
use universal_agent.Prelude.Lists.{Mem}
use text.Mathlib.TextEquality.{eq_iff}
use universal_agent.Prelude.Tests.{◌==◌, String_eq, if◌then◌else◌, Bool-cases}
use universal_agent.Prelude.Lists.{Mem}

abbrev pub Dict : Type 0 → Type 0
Dict V = List (String × V)

module _ {V : Type 0} where
  -- `d.get(k)`
  unfoldable pub get : Dict V → String → Option V
  get [] k = none
  get ((j, v) ∷ d) k = if j == k then some v else get d k

  -- `k in d`
  unfoldable pub has : Dict V → String → Bool
  has [] k = false
  has ((j, v) ∷ d) k = if j == k then true else has d k

  -- `d[k] = v`
  unfoldable pub put : Dict V → String → V → Dict V
  put [] k v = (k, v) ∷ []
  put ((j, w) ∷ d) k v = if j == k then (j, v) ∷ d else (j, w) ∷ put d k v

  -- `d.pop(k, None)`, `del d[k]`
  unfoldable pub remove : Dict V → String → Dict V
  remove [] k = []
  remove ((j, w) ∷ d) k = let rest = remove d k in if j == k then rest else (j, w) ∷ rest

  -- `d.values()`
  unfoldable pub values : Dict V → List V
  values [] = []
  values ((j, v) ∷ d) = v ∷ values d

  pub get-put :
      (d : Dict V) (k j : String) (v : V) → get (put d k v) j ≡ (if k == j then some v else get d j)
  unfolding get put
  get-put [] k j v = refl
  get-put ((i, w) ∷ d) k j v = ground (arith, eq_iff k j, eq_iff i k, eq_iff i j, get-put d k j v)

  pub get-remove :
      (d : Dict V) (k j : String) → get (remove d k) j ≡ (if k == j then none else get d j)
  unfolding get remove
  get-remove [] k j = ground arith
  get-remove ((i, w) ∷ d) k j = ground (arith, eq_iff k j, eq_iff i k, eq_iff i j, get-remove d k j)

  pub has-get :
      (d : Dict V) (k : String) → has d k ≡ (elim (get d k) [ none ↦ false | some v ↦ true ])
  unfolding has get
  has-get [] k = refl
  has-get ((j, v) ∷ d) k = ground (arith, has-get d k)

  -- What is found behind an assignment and behind a deletion.
  pub get-put_cases :
      (d : Dict V) (k j : String) (v : V) {x : V}
      → get (put d k v) j ≡ some x
      → (k ≡ j) × (v ≡ x) ⊎ (k ≢ j) × (get d j ≡ some x)
  get-put_cases d k j v h = elim (Bool-cases (k == j)) [
    | inl same ↦ inl ((eq_iff k j).0 same, some-injective v _ (ground (arith, get-put d k j v)))
    | inr other ↦ inr (ground (arith, eq_iff k j), ground (arith, get-put d k j v))
  ]

  pub get-remove_cases :
      (d : Dict V) (k j : String) {x : V}
      → get (remove d k) j ≡ some x
      → (k ≢ j) × (get d j ≡ some x)
  get-remove_cases d k j h = elim (Bool-cases (k == j)) [
    | inl same ↦ absurd (ground (arith, get-remove d k j))
    | inr other ↦ (ground (arith, eq_iff k j), ground (arith, get-remove d k j))
  ]

-- No key occurs twice.
abbrev pub IsUnique : {V : Type 0} → Dict V → Type 0
IsUnique [] = Unit
IsUnique ((k, v) ∷ d) = (get d k ≡ none) × IsUnique d

-- Every entry has the property.
abbrev pub Entries : {V : Type 0} → (String → V → Type 0) → Dict V → Type 0
Entries P [] = Unit
Entries P ((k, v) ∷ d) = P k v × Entries P d

module _ {V : Type 0} where
  pub put-IsUnique : (d : Dict V) (k : String) (v : V) → IsUnique d → IsUnique (put d k v)
  unfolding put get
  put-IsUnique [] k v h = (refl, tt)
  put-IsUnique ((j, w) ∷ d) k v h = elim (Bool-cases (j == k)) [
    | inl e ↦ rw e h
    | inr e ↦
        rw e (get-put d k j v ∙ ground (arith, eq_iff j k, eq_iff k j, h.0), put-IsUnique d k v h.1)
  ]

  pub remove-IsUnique : (d : Dict V) (k : String) → IsUnique d → IsUnique (remove d k)
  unfolding remove
  remove-IsUnique [] k h = tt
  remove-IsUnique ((j, w) ∷ d) k h = elim (Bool-cases (j == k)) [
    | inl e ↦ rw e (remove-IsUnique d k h.1)
    | inr e ↦ rw e (get-remove d k j ∙ ground (arith, h.0), remove-IsUnique d k h.1)
  ]

  pub put-Entries :
      (P : String → V → Type 0) (d : Dict V) (k : String) (v : V)
      → P k v
      → Entries P d
      → Entries P (put d k v)
  unfolding put
  put-Entries P [] k v p h = (p, tt)
  put-Entries P ((j, w) ∷ d) k v p h = elim (Bool-cases (j == k)) [
    | inl e ↦ rw e (subst (λ i. P i v) (sym ((eq_iff j k).0 e)) p, h.1)
    | inr e ↦ rw e (h.0, put-Entries P d k v p h.1)
  ]

  pub remove-Entries :
      (P : String → V → Type 0) (d : Dict V) (k : String) → Entries P d → Entries P (remove d k)
  unfolding remove
  remove-Entries P [] k h = tt
  remove-Entries P ((j, w) ∷ d) k h = elim (Bool-cases (j == k)) [
    | inl e ↦ rw e (remove-Entries P d k h.1)
    | inr e ↦ rw e (h.0, remove-Entries P d k h.1)
  ]

  pub get-Entries :
      (P : String → V → Type 0) (d : Dict V) (k : String) {v : V}
      → Entries P d
      → get d k ≡ some v
      → P k v
  unfolding get
  get-Entries P [] k h e = absurd (cc)
  get-Entries P ((j, w) ∷ d) k {v} h e = elim (Bool-cases (j == k)) [
    | inl same ↦
        let e' : some w ≡ some v = rw same at e in
        subst (λ x. P k x) (some-injective w v e') (subst (λ i. P i w) ((eq_iff j k).0 same) h.0)
    | inr other ↦ let e' : get d k ≡ some v = rw other at e in get-Entries P d k h.1 e'
  ]

  pub Entries-map :
      (P Q : String → V → Type 0) (d : Dict V)
      → ((k : String) (v : V) → P k v → Q k v)
      → Entries P d
      → Entries Q d
  Entries-map P Q [] f h = tt
  Entries-map P Q ((k, v) ∷ d) f h = (f k v h.0, Entries-map P Q d f h.1)

  -- Without two entries of one key, every entry is found under its key.
  pub Entries-found : (d : Dict V) → IsUnique d → Entries (λ k v. get d k ≡ some v) d
  unfolding get
  Entries-found [] u = tt
  Entries-found ((j, w) ∷ d) u = (
    rw ((eq_iff j j).1 refl),
    Entries-map (λ k v. get d k ≡ some v) (λ k v. get ((j, w) ∷ d) k ≡ some v) d
        (λ k v e. elim (Bool-cases (j == k)) [
          | inl same ↦
              absurd
                (none-ne-some v (sym (subst (λ i. get d i ≡ none) ((eq_iff j k).0 same) u.0) ∙ e))
          | inr other ↦ rw other e
        ])
        (Entries-found d u.1),
  )

  pub mem-values :
      (P : String → V → Type 0) (d : Dict V) (v : V)
      → Entries P d
      → Mem v (values d)
      → (k : String) × P k v
  unfolding values
  mem-values P [] v h m = absurd m
  mem-values P ((j, w) ∷ d) v h (inl e) = (j, subst (P j) (sym e) h.0)
  mem-values P ((j, w) ∷ d) v h (inr m) = mem-values P d v h.1 m

  pub mem-values_of_get : (d : Dict V) (k : String) (v : V) → get d k ≡ some v → Mem v (values d)
  unfolding get values
  mem-values_of_get [] k v e = absurd (none-ne-some v e)
  mem-values_of_get ((j, w) ∷ d) k v e = elim (Bool-cases (j == k)) [
    | inl same ↦ let e' : some w ≡ some v = rw same at e in inl (sym (some-injective w v e'))
    | inr other ↦ let e' : get d k ≡ some v = rw other at e in inr (mem-values_of_get d k v e')
  ]

  pub mem-values_get :
      (d : Dict V) (v : V) → IsUnique d → Mem v (values d) → (k : String) × (get d k ≡ some v)
  mem-values_get d v u m = mem-values (λ k w. get d k ≡ some w) d v (Entries-found d u) m
