-- ===== src/Policy/Rewards/Integers.antt =====
-- Python's `int` of a text, for rewards.py: the value if it is a number and not negative. It reads
-- the decimal digits of every script, here those of Unicode 15, and skips every kind of space.
use placegame_mcp.Prelude.{
  ℕ, zero, ◌+◌, ◌-◌, ◌*◌, Bool, true, false, Option, none, some, List, first, [], ◌∷◌, ◌==◌,
  if◌then◌else◌,
}
use placegame_mcp.Text.{Text, in_range, is_space}

-- The zeros of the scripts; their other digits come after them.
unfoldable zeros : List ℕ
zeros =
    48 ∷ 1632 ∷ 1776 ∷ 1984 ∷ 2406 ∷ 2534 ∷ 2662 ∷ 2790 ∷ 2918 ∷ 3046 ∷ 3174 ∷ 3302 ∷ 3430 ∷ 3558
    ∷ 3664 ∷ 3792 ∷ 3872 ∷ 4160 ∷ 4240 ∷ 6112 ∷ 6160 ∷ 6470 ∷ 6608 ∷ 6784 ∷ 6800 ∷ 6992 ∷ 7088
    ∷ 7232 ∷ 7248 ∷ 42528 ∷ 43216 ∷ 43264 ∷ 43472 ∷ 43504 ∷ 43600 ∷ 44016 ∷ 65296 ∷ 66720 ∷ 68912
    ∷ 69734 ∷ 69872 ∷ 69942 ∷ 70096 ∷ 70384 ∷ 70736 ∷ 70864 ∷ 71248 ∷ 71360 ∷ 71472 ∷ 71904 ∷ 72016
    ∷ 72784 ∷ 73040 ∷ 73120 ∷ 73552 ∷ 92768 ∷ 92864 ∷ 93008 ∷ 120782 ∷ 120792 ∷ 120802 ∷ 120812
    ∷ 120822 ∷ 123200 ∷ 123632 ∷ 124144 ∷ 125264 ∷ 130032 ∷ []

unfoldable pub digit_of : ℕ → Option ℕ
unfolding zeros
digit_of c = elim (first (λ z. in_range z (z + 9) c) zeros) [ none ↦ none | some z ↦ some (c - z) ]

unfoldable pub lstrip : Text → Text
unfolding is_space
lstrip [] = []
lstrip (c ∷ s) = let rest = lstrip s in if is_space c then rest else c ∷ s

unfoldable all_spaces : Text → Bool
unfolding is_space
all_spaces [] = true
all_spaces (c ∷ s) = if is_space c then all_spaces s else false

-- The digits, with single underscores between them: `acc` is what was read, and `last` whether it
-- ended in a digit.
unfoldable pub digits : ℕ → Bool → Text → Option ℕ
unfolding all_spaces
digits acc last [] = if last then some acc else none
digits acc last (c ∷ s) =
    let next = digits acc false s in
    elim (digit_of c) [
      | some d ↦ digits (acc * 10 + d) true s
      | none ↦
          if c == 95
          then (if last then next else none)
          else if last
          then (if all_spaces (c ∷ s) then some acc else none)
          else none
    ]

abbrev is_zero : Option ℕ → Option ℕ
is_zero (some zero) = some 0
is_zero _ = none

unfoldable pub signed : Text → Option ℕ
unfolding digits
signed [] = none
signed (c ∷ s) =
    if c == 43
    then digits 0 false s
    else if c == 45
    then is_zero (digits 0 false s)
    else digits 0 false (c ∷ s)

unfoldable pub int : Text → Option ℕ
unfolding lstrip signed
int s = signed (lstrip s)
