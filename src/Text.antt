-- ===== src/Text.antt =====
-- Texts that the program walks or cuts, as lists of code points, and the actor identifiers of
-- contracts.py, application/idle.py and policy/plans.py.
use placegame_mcp.Errors
use placegame_mcp.Errors.{Result, ok, raised, ◌>>◌}
use placegame_mcp.Prelude.{
  ℕ, zero, suc, ◌≤◌, ◌≡◌, refl, arith, Bool, true, false, ◌&&◌, ◌||◌, List, [], ◌∷◌, ◌++◌, leb, ltb,
  ◌==◌, length, if◌then◌else◌, String,
}
use Prim.Native.Char.{code}

abbrev pub Text : Type 0
Text = List ℕ

-- The code points of a literal.
abbrev pub codes : String → Text
codes String.[] = []
codes (String.◌∷◌ c s) = code c ∷ codes s

abbrev pub text_eq : Text → Text → Bool
text_eq [] [] = true
text_eq (a ∷ s) (b ∷ t) = a == b && text_eq s t
text_eq _ _ = false

-- `text[:n]`
unfoldable pub cut : ℕ → Text → Text
cut zero s = []
cut (suc n) [] = []
cut (suc n) (c ∷ s) = c ∷ cut n s

pub length-cut : (n : ℕ) (s : Text) → length (cut n s) ≤ n
unfolding cut
length-cut zero s = omega arith
length-cut (suc n) [] = omega arith
length-cut (suc n) (c ∷ s) = omega (arith, length-cut n s)

abbrev pub in_range : ℕ → ℕ → ℕ → Bool
in_range lo hi c = leb lo c && leb c hi

-- ASCII letters and digits, and `_.:@-`.
unfoldable pub is_identifier_char : ℕ → Bool
is_identifier_char c =
    in_range 48 57 c
    || in_range 65 90 c
    || in_range 97 122 c
    || c == 95
    || c == 46
    || c == 58
    || c == 64
    || c == 45

abbrev pub every : (ℕ → Bool) → Text → Bool
every p [] = true
every p (c ∷ s) = p c && every p s

-- `_IDENTIFIER.fullmatch`
unfoldable pub is_identifier : Text → Bool
unfolding is_identifier_char
is_identifier s = leb 1 (length s) && leb (length s) 128 && every is_identifier_char s

unfoldable pub require_identifier : Text → Result (Unit {0})
unfolding is_identifier
require_identifier s = if is_identifier s then ok tt else raised Errors.value_error

pub record Actor : Type 0 where
  pub kind : Text
  pub actor_id : Text

-- `f"{kind}:{actor_id}"`
abbrev pub joined : Text → Text → Text
joined kind actor_id = kind ++ 58 ∷ actor_id

unfoldable pub audit_actor : Actor → Result Text
unfolding require_identifier
audit_actor a = do
  require_identifier a.kind
  require_identifier a.actor_id
  if ltb 128 (length (joined a.kind a.actor_id))
      then raised Errors.value_error
      else ok (joined a.kind a.actor_id)

-- The code points that `str.isspace` accepts.
unfoldable pub is_space : ℕ → Bool
is_space c =
    in_range 9 13 c
    || in_range 28 32 c
    || c == 133
    || c == 160
    || c == 5760
    || in_range 8192 8202 c
    || in_range 8232 8233 c
    || c == 8239
    || c == 8287
    || c == 12288

abbrev pub is_empty : Text → Bool
is_empty [] = true
is_empty (c ∷ s) = false

abbrev pub strip_left : Text → Text
unfolding is_space
strip_left [] = []
strip_left (c ∷ s) = if is_space c then strip_left s else c ∷ s

abbrev pub strip_right : Text → Text
unfolding is_space
strip_right [] = []
strip_right (c ∷ s) =
    let rest = strip_right s in if is_space c && is_empty rest then [] else c ∷ rest

-- `text.strip()`
unfoldable pub strip : Text → Text
strip s = strip_right (strip_left s)

pub text_eq_refl : (s : Text) → text_eq s s ≡ true
text_eq_refl [] = refl
text_eq_refl (c ∷ s) = ground (arith, text_eq_refl s)

pub text_eq_sound : (s t : Text) → text_eq s t ≡ true → s ≡ t
text_eq_sound [] [] h = refl
text_eq_sound [] (b ∷ t) h = ground arith
text_eq_sound (a ∷ s) [] h = ground arith
text_eq_sound (a ∷ s) (b ∷ t) h =
    let e : a ≡ b = ground arith in let r : s ≡ t = text_eq_sound s t (ground arith) in cc
