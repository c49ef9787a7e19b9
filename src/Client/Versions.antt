-- ===== src/Client/Versions.antt =====
-- GameClientVersion (game/client.py) and the pattern of a version.
use placegame_mcp.Prelude.{
  ℕ, Bool, true, false, ◌&&◌, ◌||◌, not, Option, none, some, [], ◌∷◌, leb, ◌==◌, length,
  if◌then◌else◌, is_some_and,
}
use placegame_mcp.Text.{Text, in_range, every, text_eq}

abbrev drop_digits : Text → Text
drop_digits [] = []
drop_digits (c ∷ s) = if in_range 48 57 c then drop_digits s else c ∷ s

-- The text after `0` or a number without leading zeros. What follows it in the pattern is no digit, so
-- that all its digits are taken.
unfoldable pub number : Text → Option Text
number [] = none
number (c ∷ s) = if c == 48 then some s else if in_range 49 57 c then some (drop_digits s) else none

unfoldable pub dot : Text → Option Text
dot [] = none
dot (c ∷ s) = if c == 46 then some s else none

-- `[0-9A-Za-z.-]`
unfoldable pub is_suffix_char : ℕ → Bool
is_suffix_char c = in_range 48 57 c || in_range 65 90 c || in_range 97 122 c || c == 46 || c == 45

unfoldable pub is_suffix : Text → Bool
unfolding is_suffix_char
is_suffix [] = true
is_suffix (c ∷ s) = c == 45 && leb 1 (length s) && leb (length s) 32 && every is_suffix_char s

abbrev then_parse : Option Text → (Text → Option Text) → Option Text
then_parse none f = none
then_parse (some s) f = f s

-- `CLIENT_VERSION_PATTERN.fullmatch`
unfoldable pub is_version : Text → Bool
unfolding number dot is_suffix
is_version s =
    is_some_and is_suffix
      (then_parse (then_parse (then_parse (then_parse (number s) dot) number) dot) number)

-- `GameClientVersion.adopt`: the version after it, and whether the candidate was news.
unfoldable pub adopt : Text → Text → Text × Bool
unfolding is_version
adopt value candidate =
    if not (is_version candidate) || text_eq candidate value
    then (value, false)
    else (candidate, true)
