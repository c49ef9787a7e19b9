-- ===== src/Accounts/Session.antt =====
-- The identity of an account with the game and its login (accounts/service.py): `_login_and_bootstrap`
-- and `_bind_or_match_identity`.
pub mod Outcomes
pub mod Resolve
pub mod Identity
pub mod Ready
use placegame_mcp.Errors
use placegame_mcp.Errors.{Error, Result, ok, raised, ◌>>=◌}
use placegame_mcp.Prelude.{
  ℕ, zero, suc, ◌+◌, ◌-◌, Bool, true, false, ◌&&◌, ◌||◌, not, Option, none, some, List, [], ◌∷◌,
  leb, ltb, ◌==◌, is_none, is_some_and, if◌then◌else◌,
}
use placegame_mcp.Text.{Text, Actor, codes, is_empty, text_eq}
use placegame_mcp.Plans.Rows.{AuditEvent, text}
use placegame_mcp.Idle.Planner.{IdleSummary}
use placegame_mcp.Accounts.Rows.{
  GameAccount, AuthMode, credentials, token_only, Tables, event, taken_by_other,
}

-- What the game answers during one operation, to the attempts counted from zero, and the clock, which
-- is read once. `lost_race` is whether another transaction has taken an identity in the meantime.
pub record Game : Type 0 where
  pub login : Text → Text → ℕ → Result Text
  pub bootstrap : Text → ℕ → Result Text
  pub idle_summary : Result IdleSummary
  pub token_expiry : Text → Option ℕ
  pub lost_race : Bool
  pub now : ℕ

abbrev pub is_session_rejected : Error → Bool
is_session_rejected Errors.session_rejected = true
is_session_rejected _ = false

abbrev pub is_authentication_required : Error → Bool
is_authentication_required Errors.authentication_required = true
is_authentication_required _ = false

pub record Login : Type 0 where
  pub token : Text
  pub expiry : Option ℕ
  pub identity : Text

abbrev pub attempt_login : Game → Text → Text → ℕ → Result Login
attempt_login game username password attempt = game.login username password attempt >>= λ token.
    game.bootstrap token attempt >>= λ identity.
    ok (record { token = token; expiry = game.token_expiry token; identity = identity })

-- The loop of `_login_and_bootstrap`, with the attempts that are left.
unfoldable pub try_login : Game → Text → Text → ℕ → ℕ → Result Login
try_login game username password zero attempt = raised Errors.authentication_required
try_login game username password (suc left) attempt =
    elim (attempt_login game username password attempt) [
      | ok l ↦ ok l
      | raised e ↦ elim (is_session_rejected e) [
        | true ↦ try_login game username password left (attempt + 1)
        | false ↦ raised e
      ]
    ]

unfoldable pub login_and_bootstrap : Game → Text → Text → Result Login
unfolding try_login
login_and_bootstrap game username password = try_login game username password 3 0

-- A row with the audit events of the changes made to it.
pub record Work : Type 0 where
  pub row : GameAccount
  pub events : List AuditEvent

abbrev pub critical : Text → Text → Actor → GameAccount → AuditEvent
critical action status actor row =
    event actor (some row.id) none action
      ((codes "status", text status) ∷ (codes "severity", text (codes "critical")) ∷ [])

abbrev pub identity_mismatch : Game → Actor → GameAccount → Work
identity_mismatch game actor row = record {
  row = record row {
    enabled = false;
    paused_reason = some (codes "account_identity_mismatch");
    last_error_at = some game.now;
  };
  events = critical (codes "account.identity.mismatch") (codes "paused") actor row ∷ [];
}

abbrev pub unchanged : GameAccount → Work
unchanged row = record { row = row; events = [] }

abbrev pub absent : Option Text → Bool
absent none = true
absent (some t) = is_empty t

-- What follows by the identity that the row has.
unfoldable pub compare_identity :
    Game → Tables → Actor → GameAccount → Text → Option Text → Work × Bool
unfolding taken_by_other
compare_identity game t actor row identity none =
    if taken_by_other identity row.id t || game.lost_race
    then (identity_mismatch game actor row, false)
    else (unchanged (record row { game_account_id = some identity }), true)
compare_identity game t actor row identity (some mine) =
    if text_eq mine identity
    then (unchanged row, true)
    else (identity_mismatch game actor row, false)

-- The identity that the game gives is bound to an account that has none, or compared. The new row and
-- whether it is this identity's.
unfoldable pub bind_or_match : Game → Tables → Actor → GameAccount → Text → Work × Bool
unfolding compare_identity
bind_or_match game t actor row identity =
    if is_empty identity
    then (unchanged row, false)
    else compare_identity game t actor row identity row.game_account_id
