-- ===== src/Prelude/Int.antt =====
-- Signed integers over the native numbers. Sums and orders go through the two parts of an integer.
use oath.Prelude.{ℕ, suc, ◌+◌, ◌-◌, ◌%◌, ◌≤◌, ◌<◌, ◌≡◌, refl, Bool, arith, ltb, leb, if◌then◌else◌}

-- `negsuc n` is -(n + 1).
pub data ℤ : Type 0 where
  pos : ℕ → ℤ
  negsuc : ℕ → ℤ

abbrev pub pos_part : ℤ → ℕ
pos_part (pos n) = n
pos_part (negsuc n) = 0

abbrev pub neg_part : ℤ → ℕ
neg_part (pos n) = 0
neg_part (negsuc n) = suc n

-- a - b, as an integer.
abbrev pub sub_ℕ : ℕ → ℕ → ℤ
sub_ℕ a b = if leb b a then pos (a - b) else negsuc (b - a - 1)

infixl 65 ◌+ℤ◌
infix 50 ◌≤ℤ◌
unfoldable pub ◌+ℤ◌ : ℤ → ℤ → ℤ
a +ℤ b = sub_ℕ (pos_part a + pos_part b) (neg_part a + neg_part b)

abbrev pub ◌≤ℤ◌ : ℤ → ℤ → Type 0
a ≤ℤ b = pos_part a + neg_part b ≤ pos_part b + neg_part a

abbrev pub ltb_ℤ : ℤ → ℤ → Bool
ltb_ℤ a b = ltb (pos_part a + neg_part b) (pos_part b + neg_part a)

-- The 16-bit integer that an integer wraps to.
unfoldable pub wrap16 : ℤ → ℤ
wrap16 (pos n) = let r = n % 65_536 in if ltb r 32_768 then pos r else negsuc (65_535 - r)
wrap16 (negsuc n) = let r = n % 65_536 in if ltb r 32_768 then negsuc r else pos (65_535 - r)

-- `-x` on 16 bits.
unfoldable pub neg16 : ℤ → ℤ
unfolding wrap16
neg16 x = wrap16 (sub_ℕ (neg_part x) (pos_part x))

pub +ℤ_parts :
    (a b : ℤ)
    → pos_part (a +ℤ b) + neg_part a + neg_part b ≡ neg_part (a +ℤ b) + pos_part a + pos_part b
unfolding ◌+ℤ◌
+ℤ_parts a b = ground arith

-- An integer has at most one part that is not 0.
pub pos_part-neg_part : (z : ℤ) (n : ℕ) → pos_part z ≤ neg_part z + n → pos_part z ≤ n
pos_part-neg_part (pos m) n h = omega (arith, h)
pos_part-neg_part (negsuc m) n h = omega arith

pub ruleset int_laws = (arith, +ℤ_parts)
