-- ===== src/Prelude/Text.antt =====
-- Text: the parts of Python's `str` that the source uses, and the decimal form of a number.
use Prim.Native.Nat.{ℕ, zero, suc, ◌+◌, ◌-◌, ◌*◌, ◌/◌, ◌%◌, ◌<◌}
use Prim.Native.Char.{Char, code}
use Prim.Native.String.{String, [], ◌∷◌, ◌++◌, char_at, compare}
use Prim.Native.String.append
use mathlib.Core.Path.{◌≡◌, refl, sym, ap, ◌∙◌}
use mathlib.Core.Logic.{◌↔◌, inl, inr}
use mathlib.Core.Bool.{Bool, true, false, ◌&&◌, ◌||◌}
use native.Mathlib.Omega.{arith}
use text.Mathlib.Text.{is_le}
use universal_agent.Prelude.Tests.{ltb, leb, nat_beq, if◌then◌else◌, Bool-cases}

-- `s <= t`, by code points.
abbrev pub text_leb : String → String → Bool
text_leb s t = is_le (compare s t)

-- Characters that `str.strip` removes: those for which `str.isspace` holds.
unfoldable pub is_space : ℕ → Bool
is_space c =
    (leb 9 c && leb c 13)
    || (leb 28 c && leb c 32)
    || nat_beq c 0x85
    || nat_beq c 0xa0
    || nat_beq c 0x1680
    || (leb 0x2000 c && leb c 0x200a)
    || nat_beq c 0x2028
    || nat_beq c 0x2029
    || nat_beq c 0x202f
    || nat_beq c 0x205f
    || nat_beq c 0x3000

-- `not s.strip()`
unfoldable pub is_blank : String → Bool
unfolding is_space
is_blank [] = true
is_blank (c ∷ s) = is_space (code c) && is_blank s

-- `not s`
abbrev pub is_empty_text : String → Bool
is_empty_text [] = true
is_empty_text (c ∷ s) = false

pub is_empty_text_iff : (s : String) → (is_empty_text s ≡ true) ↔ (s ≡ "")
is_empty_text_iff [] = (λ h. refl, λ h. refl)
is_empty_text_iff (c ∷ s) = (λ h. absurd (cc), λ h. absurd (cc))

-- `s.lstrip()`, and `s.rstrip()` on the part behind the first character that stays.
unfoldable pub lstrip : String → String
unfolding is_space
lstrip [] = []
lstrip (c ∷ s) = let rest = lstrip s in if is_space (code c) then rest else c ∷ s

unfoldable pub rstrip : String → String
unfolding is_blank
rstrip [] = []
rstrip (c ∷ s) = if is_blank (c ∷ s) then [] else c ∷ rstrip s

unfoldable pub strip : String → String
unfolding lstrip rstrip
strip s = rstrip (lstrip s)

-- `s[:n]`
unfoldable pub prefix : ℕ → String → String
prefix zero s = []
prefix (suc n) [] = []
prefix (suc n) (c ∷ s) = c ∷ prefix n s

pub digit : ℕ → Char
digit d = char_at "0123456789" d

-- With fuel above the number.
unfoldable pub decimal_from : ℕ → ℕ → String
unfolding digit
decimal_from zero n = []
decimal_from (suc fuel) n =
    let front = decimal_from fuel (n / 10) in
    if ltb n 10 then digit n ∷ [] else front ++ (digit (n % 10) ∷ [])

-- `str(n)`
unfoldable pub decimal : ℕ → String
unfolding decimal_from
decimal n = decimal_from (suc n) n

decimal_1042 : decimal 1042 ≡ "1042"
unfolding decimal
decimal_1042 = refl

strip_spaces : strip "  a b " ≡ "a b"
unfolding strip
strip_spaces = refl

-- The number that a run of digits stands for.
value : ℕ → String → ℕ
value acc [] = acc
value acc (c ∷ s) = value (acc * 10 + (code c - 48)) s

value-append : (acc : ℕ) (s t : String) → value acc (s ++ t) ≡ value (value acc s) t
unfolding value
value-append acc [] t = ap (value acc) (append.nil t)
value-append acc (c ∷ s) t =
    ap (value acc) (append.cons c s t) ∙ value-append (acc * 10 + (code c - 48)) s t

pub code-digit : (d : ℕ) → d < 10 → code (digit d) ≡ 48 + d
unfolding digit
code-digit zero h = refl
code-digit (suc zero) h = refl
code-digit (suc (suc zero)) h = refl
code-digit (suc (suc (suc zero))) h = refl
code-digit (suc (suc (suc (suc zero)))) h = refl
code-digit (suc (suc (suc (suc (suc zero))))) h = refl
code-digit (suc (suc (suc (suc (suc (suc zero)))))) h = refl
code-digit (suc (suc (suc (suc (suc (suc (suc zero))))))) h = refl
code-digit (suc (suc (suc (suc (suc (suc (suc (suc zero)))))))) h = refl
code-digit (suc (suc (suc (suc (suc (suc (suc (suc (suc zero))))))))) h = refl
code-digit (suc (suc (suc (suc (suc (suc (suc (suc (suc (suc d)))))))))) h = absurd (omega arith)

value-digit : (acc d : ℕ) → d < 10 → value acc (digit d ∷ []) ≡ acc * 10 + d
unfolding value
value-digit acc d h = omega (arith, code-digit d h)

value-decimal_from : (fuel n : ℕ) → n < fuel → value 0 (decimal_from fuel n) ≡ n
unfolding decimal_from
value-decimal_from zero n h = absurd (omega arith)
value-decimal_from (suc fuel) n h = elim (Bool-cases (ltb n 10)) [
  | inl small ↦ rw small (omega (arith, value-digit 0 n (ground arith)))
  | inr large ↦ rw large (
      value-append 0 (decimal_from fuel (n / 10)) (digit (n % 10) ∷ [])
      ∙ omega (
        arith,
        value-digit (value 0 (decimal_from fuel (n / 10))) (n % 10) (omega arith),
        value-decimal_from fuel (n / 10) (ground arith),
      ))
]

pub decimal_injective : (m n : ℕ) → decimal m ≡ decimal n → m ≡ n
unfolding decimal
decimal_injective m n h =
    sym (value-decimal_from (suc m) m (omega arith))
    ∙ ap (value 0) h
    ∙ value-decimal_from (suc n) n (omega arith)
