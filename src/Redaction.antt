-- ===== src/Redaction.antt =====
-- `redact` (security/redaction.py), which the audit payloads pass on their way to the database.
pub mod Hidden
mod Tests
use placegame_mcp.Prelude.{
  ℕ, ◌+◌, Bool, true, false, ◌||◌, not, List, [], ◌∷◌, ◌++◌, ltb, ◌==◌, length, is_none,
  if◌then◌else◌,
}
use placegame_mcp.Text.{Text, codes, cut, in_range}
use placegame_mcp.Plans.Rows.{strip_prefix}

-- A Python value: `atom` is any that is no mapping, list, tuple or text, and `other_key` a key that
-- is no text.
pub data Key : Type 0 where
  name : Text → Key
  other_key : ℕ → Key

mutual
  pub data Value : Type 0 where
    string : Text → Value
    list : Values → Value
    tuple : Values → Value
    mapping : Pairs → Value
    atom : ℕ → Value

  pub data Values : Type 0 where
    nil : Values
    cons : Value → Values → Values

  pub data Pairs : Type 0 where
    end : Pairs
    pair : Key → Value → Pairs → Pairs

abbrev sensitive_key_parts : List Text
sensitive_key_parts =
    codes "password"
    ∷ codes "token"
    ∷ codes "secret"
    ∷ codes "authorization"
    ∷ codes "cookie"
    ∷ codes "master_key"
    ∷ []

-- `str.lower`, where the result has an ASCII character: of the others a part has none, so that they
-- are kept. The sign for Kelvin becomes a `k`, and the I with a dot an `i` with a combining dot.
unfoldable pub lower : Text → Text
lower [] = []
lower (c ∷ s) =
    let rest = lower s in
    if in_range 65 90 c
    then (c + 32) ∷ rest
    else if c == 8490
    then 107 ∷ rest
    else if c == 304
    then 105 ∷ 775 ∷ rest
    else c ∷ rest

-- `part in s`
unfoldable pub contains : Text → Text → Bool
unfolding strip_prefix
contains part [] = not (is_none (strip_prefix part []))
contains part (c ∷ s) = not (is_none (strip_prefix part (c ∷ s))) || contains part s

abbrev contains_any : List Text → Text → Bool
contains_any [] s = false
contains_any (p ∷ ps) s = contains p s || contains_any ps s

unfoldable pub is_sensitive_key : Key → Bool
unfolding contains lower
is_sensitive_key (name s) = contains_any sensitive_key_parts (lower s)
is_sensitive_key (other_key k) = false

abbrev pub max_redacted_string_length : ℕ
max_redacted_string_length = 256

abbrev pub truncated : Text
truncated = codes "...[TRUNCATED]"

unfoldable pub redact_string : Text → Text
unfolding cut
redact_string s =
    if ltb max_redacted_string_length (length s)
    then cut max_redacted_string_length s ++ truncated
    else s

abbrev pub redacted : Value
redacted = string (codes "[REDACTED]")

unfoldable mutual
  unfolding is_sensitive_key redact_string

  pub redact : Value → Value
  redact (mapping ps) = mapping (redact_pairs ps)
  redact (list vs) = list (redact_values vs)
  redact (tuple vs) = tuple (redact_values vs)
  redact (string s) = string (redact_string s)
  redact (atom n) = atom n

  pub redact_values : Values → Values
  redact_values nil = nil
  redact_values (cons v vs) = cons (redact v) (redact_values vs)

  pub redact_pairs : Pairs → Pairs
  redact_pairs end = end
  redact_pairs (pair k v ps) =
      pair k (if is_sensitive_key k then redacted else redact v) (redact_pairs ps)
