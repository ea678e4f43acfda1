-- ===== src/Prelude/IntOrder.antt =====
-- The order of the integers.
use universal_agent.Prelude.{ℕ, suc, ◌+◌, ◌≤◌, ◌<◌, ◌≡◌, true, false, arith}
use universal_agent.Prelude.Int.{ℤ, pos, negsuc, leb_ℤ}

abbrev pub pos_part : ℤ → ℕ
pos_part (pos n) = n
pos_part (negsuc _) = 0

abbrev pub neg_part : ℤ → ℕ
neg_part (pos _) = 0
neg_part (negsuc n) = suc n

infix 50 ◌≤ℤ◌ ◌<ℤ◌
abbrev pub ◌≤ℤ◌ : ℤ → ℤ → Type 0
a ≤ℤ b = pos_part a + neg_part b ≤ pos_part b + neg_part a

abbrev pub ◌<ℤ◌ : ℤ → ℤ → Type 0
a <ℤ b = pos_part a + neg_part b < pos_part b + neg_part a

pub leb_ℤ-true : (a b : ℤ) → leb_ℤ a b ≡ true → a ≤ℤ b
leb_ℤ-true (pos a) (pos b) h = ground arith
leb_ℤ-true (pos a) (negsuc b) h = absurd (ground arith)
leb_ℤ-true (negsuc a) (pos b) h = omega arith
leb_ℤ-true (negsuc a) (negsuc b) h = ground arith

pub leb_ℤ-false : (a b : ℤ) → leb_ℤ a b ≡ false → b <ℤ a
leb_ℤ-false (pos a) (pos b) h = ground arith
leb_ℤ-false (pos a) (negsuc b) h = omega arith
leb_ℤ-false (negsuc a) (pos b) h = absurd (ground arith)
leb_ℤ-false (negsuc a) (negsuc b) h = ground arith

pub ≤ℤ-refl : (a : ℤ) → a ≤ℤ a
≤ℤ-refl a = omega arith

pub <ℤ-le : (a b : ℤ) → a <ℤ b → a ≤ℤ b
<ℤ-le a b h = omega arith

pub ≤ℤ-trans : (a b c : ℤ) → a ≤ℤ b → b ≤ℤ c → a ≤ℤ c
≤ℤ-trans a b c h k = omega arith
