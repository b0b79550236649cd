-- ===== src/Json/Int.antt =====
-- Python's `int` as far as the agent adds and subtracts it.
use factoryfleet.Base.{ℕ, suc, ◌+◌, ◌-◌, leb, if◌then◌else◌}
use factoryfleet.Json.{ℤ}
use factoryfleet.Json.ℤ.{pos, negsuc}

abbrev pub pos_part : ℤ → ℕ
pos_part (pos n) = n
pos_part (negsuc n) = 0

abbrev pub neg_part : ℤ → ℕ
neg_part (pos n) = 0
neg_part (negsuc n) = suc n

-- a - b, as an integer.
abbrev pub sub_ℕ : ℕ → ℕ → ℤ
sub_ℕ a b = if leb b a then pos (a - b) else negsuc (b - a - 1)

infixl 65 ◌+ℤ◌
unfoldable pub ◌+ℤ◌ : ℤ → ℤ → ℤ
a +ℤ b = sub_ℕ (pos_part a + pos_part b) (neg_part a + neg_part b)
