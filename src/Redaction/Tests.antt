-- ===== src/Redaction/Tests.antt =====
-- `redact` on an audit payload with a secret, in a list in a mapping.
use placegame_mcp.Prelude.{◌≡◌, refl, true, false, ◌∷◌, ◌++◌}
use placegame_mcp.Text.{codes}
use placegame_mcp.Redaction.{
  Value, string, list, mapping, atom, cons, nil, pair, end, name, other_key, redacted, redact,
  is_sensitive_key, lower, contains, redact_string,
}
use placegame_mcp.Redaction.Hidden.{IsHidden, redact-IsHidden}

-- The sign for Kelvin in place of the `k` of a token.
kelvin : is_sensitive_key (name (codes "access_TO" ++ 8490 ∷ codes "EN")) ≡ true
unfolding is_sensitive_key lower contains
kelvin = refl

harmless : is_sensitive_key (name (codes "label")) ≡ false
unfolding is_sensitive_key lower contains
harmless = refl

abbrev payload : Value
payload = mapping (
    pair (name (codes "label")) (string (codes "main")) (
      pair (name (codes "logins"))
        (list (
          cons
            (mapping (
              pair (name (codes "Password")) (string (codes "hunter2"))
                (pair (other_key 7) (atom 3) end)))
            nil))
        end))

abbrev shown : Value
shown = mapping (
    pair (name (codes "label")) (string (codes "main")) (
      pair (name (codes "logins"))
        (list (
          cons (mapping (pair (name (codes "Password")) redacted (pair (other_key 7) (atom 3) end)))
            nil))
        end))

redacts_payload : redact payload ≡ shown
unfolding redact is_sensitive_key lower contains redact_string
redacts_payload = refl

redact-IsHidden_example : IsHidden (redact payload) × redact (redact payload) ≡ redact payload
redact-IsHidden_example = redact-IsHidden payload
