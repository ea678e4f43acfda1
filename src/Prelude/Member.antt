-- ===== src/Prelude/Member.antt =====
-- Membership of texts, as a test and as a proposition.
use text.Mathlib.TextEquality.{eq_iff}
use universal_agent.Prelude.{
  ◌≡◌, String, true, List, [], ◌∷◌, contains, arith, Bool-cases, inl, inr, Mem, ◌==◌, String_eq,
}

pub contains-Mem : (xs : List String) (a : String) → contains xs a ≡ true → Mem a xs
contains-Mem [] a h = absurd (ground arith)
contains-Mem (x ∷ xs) a h = elim (Bool-cases (a == x)) [
  | inl e ↦ inl ((eq_iff a x).0 e)
  | inr e ↦ inr (contains-Mem xs a (ground arith))
]

pub Mem-contains : (xs : List String) (a : String) → Mem a xs → contains xs a ≡ true
Mem-contains [] a m = absurd m
Mem-contains (x ∷ xs) a (inl same) = let e = (eq_iff a x).1 same in ground arith
Mem-contains (x ∷ xs) a (inr there) = let e = Mem-contains xs a there in ground arith
