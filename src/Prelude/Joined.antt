-- ===== src/Prelude/Joined.antt =====
-- A text and a number joined by a dash: `f"{text}-{number}"` determines both.
use Prim.Native.Nat.{ℕ, zero, suc, ◌/◌, ◌%◌, ◌<◌}
use Prim.Native.Char.{Char, code}
use Prim.Native.String.{String, [], ◌∷◌, ◌++◌}
use Prim.Native.String.append
use mathlib.Core.Path.{◌≡◌, refl, sym, ap, ◌∙◌}
use mathlib.Core.Logic.{inl, inr}
use mathlib.Core.Bool.{Bool, true, false, not, ◌&&◌}
use native.Mathlib.Omega.{arith}
use text.Mathlib.TextLemmas.{append_cancel_left}
use universal_agent.Prelude.Tests.{ltb, nat_beq, Bool-cases}
use universal_agent.Prelude.Text.{decimal, decimal_from, digit, code-digit, decimal_injective}

abbrev dash : Char
dash = "-"

no_dash : String → Bool
no_dash [] = true
no_dash (c ∷ s) = not (nat_beq (code c) 45) && no_dash s

dash-append : (s : String) → "-" ++ s ≡ dash ∷ s
dash-append s = append.cons dash [] s ∙ ap (λ t. dash ∷ t) (append.nil s)

no_dash-append : (s t : String) → no_dash (s ++ t) ≡ (no_dash s && no_dash t)
unfolding no_dash
no_dash-append [] t = ap no_dash (append.nil t)
no_dash-append (c ∷ s) t = ap no_dash (append.cons c s t) ∙ ground (arith, no_dash-append s t)

no_dash-joined : (s t : String) → no_dash (s ++ ("-" ++ t)) ≡ false
no_dash-joined s t =
    no_dash-append s ("-" ++ t) ∙ (rw (dash-append t) (unfold no_dash in ground arith))

no_dash-digit : (d : ℕ) → d < 10 → no_dash (digit d ∷ []) ≡ true
unfolding no_dash
no_dash-digit d h = ground (arith, code-digit d h)

no_dash-decimal_from : (fuel n : ℕ) → no_dash (decimal_from fuel n) ≡ true
unfolding decimal_from
no_dash-decimal_from zero n = unfold no_dash in refl
no_dash-decimal_from (suc fuel) n = elim (Bool-cases (ltb n 10)) [
  | inl small ↦ rw small (no_dash-digit n (ground arith))
  | inr large ↦ rw large (
      no_dash-append (decimal_from fuel (n / 10)) (digit (n % 10) ∷ [])
      ∙ ground (arith, no_dash-decimal_from fuel (n / 10), no_dash-digit (n % 10) (omega arith)))
]

no_dash-decimal : (n : ℕ) → no_dash (decimal n) ≡ true
unfolding decimal
no_dash-decimal n = no_dash-decimal_from (suc n) n

tail_of : (c d : Char) (s t : String) → ◌≡◌ {A = String} (c ∷ s) (d ∷ t) → s ≡ t
tail_of c d s t h = cc

head_of : (c d : Char) (s t : String) → ◌≡◌ {A = String} (c ∷ s) (d ∷ t) → c ≡ d
head_of c d s t h = cc

joined_injective :
    (s t u v : String)
    → no_dash u ≡ true
    → no_dash v ≡ true
    → s ++ ("-" ++ u) ≡ t ++ ("-" ++ v)
    → (s ≡ t) × (u ≡ v)
joined_injective [] [] u v nu nv h =
    (refl, append_cancel_left "-" u v (sym (append.nil ("-" ++ u)) ∙ h ∙ append.nil ("-" ++ v)))
joined_injective [] (d ∷ t) u v nu nv h =
    let e =
      tail_of dash d u (t ++ ("-" ++ v))
        (sym (dash-append u) ∙ sym (append.nil ("-" ++ u)) ∙ h ∙ append.cons d t ("-" ++ v)) in
    absurd (cc (no_dash-joined t v, nu))
joined_injective (c ∷ s) [] u v nu nv h =
    let e =
      tail_of c dash (s ++ ("-" ++ u)) v
        (sym (append.cons c s ("-" ++ u)) ∙ h ∙ append.nil ("-" ++ v) ∙ dash-append v) in
    absurd (cc (no_dash-joined s u, nv))
joined_injective (c ∷ s) (d ∷ t) u v nu nv h =
    let h' = sym (append.cons c s ("-" ++ u)) ∙ h ∙ append.cons d t ("-" ++ v) in
    let e = tail_of c d (s ++ ("-" ++ u)) (t ++ ("-" ++ v)) h' in
    let same = head_of c d (s ++ ("-" ++ u)) (t ++ ("-" ++ v)) h' in
    let (front, back) = joined_injective s t u v nu nv e in (cc, back)

pub dash_decimal_injective :
    (s t : String) (m n : ℕ) → s ++ ("-" ++ decimal m) ≡ t ++ ("-" ++ decimal n) → (s ≡ t) × (m ≡ n)
dash_decimal_injective s t m n h =
    let (front, back) =
      joined_injective s t (decimal m) (decimal n) (no_dash-decimal m) (no_dash-decimal n) h in
    (front, decimal_injective m n back)
