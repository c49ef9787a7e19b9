-- ===== src/Accounts/Session/Resolve.antt =====
-- `_ensure_locked` (accounts/service.py): the session that an operation works with.
use placegame_mcp.Errors
use placegame_mcp.Errors.{Error, Result, ok, raised, ◌>>=◌}
use placegame_mcp.Prelude.{
  ℕ, ◌+◌, Bool, true, false, ◌||◌, not, Option, none, some, [], ◌∷◌, leb, is_none, is_some_and,
  if◌then◌else◌,
}
use placegame_mcp.Text.{Text, Actor, codes}
use placegame_mcp.Plans.Rows.{text}
use placegame_mcp.Accounts.Rows.{GameAccount, credentials, token_only, Tables, event}
use placegame_mcp.Accounts.Session.{
  Game, Login, Work, absent, bind_or_match, critical, is_authentication_required,
  is_session_rejected, login_and_bootstrap, unchanged,
}

-- `_SessionResolution`. The API is given by its token; the rest of its SessionState is read from the
-- row.
pub record Resolution : Type 0 where
  pub work : Work
  pub refreshed : Bool
  pub api : Option (Text × Text)

abbrev pub unresolved : Work → Resolution
unresolved w = record { work = w; refreshed = false; api = none }

abbrev pub one_day : ℕ
one_day = 86400000000

abbrev pub one_hour : ℕ
one_hour = 3600000000

abbrev pub needs_refresh : ℕ → GameAccount → Bool
needs_refresh now row =
    is_none row.session_token
    || is_some_and (λ expiry. leb expiry (now + one_day)) row.session_expires_at

abbrev pub pause_for_refresh : Game → Actor → GameAccount → Work
pause_for_refresh game actor row = record {
  row = record row {
    paused_reason = some (codes "session_refresh_required");
    last_error_at = some game.now;
  };
  events = critical (codes "account.session.refresh_required") (codes "paused") actor row ∷ [];
}

-- The window of failures is over, or there is none.
abbrev pub new_window : ℕ → GameAccount → Bool
new_window now row = elim row.auth_failure_window_started_at [
  | none ↦ true
  | some started ↦ leb (started + one_hour) now
]

abbrev pub failures : ℕ → GameAccount → ℕ
failures now row = if new_window now row then 1 else row.auth_failure_count + 1

abbrev pub failed_row : ℕ → GameAccount → GameAccount
failed_row now row = record row {
  auth_failure_window_started_at =
      if new_window now row then some now else row.auth_failure_window_started_at;
  auth_failure_count = failures now row;
  last_error_at = some now;
  paused_reason =
      if leb 3 (failures now row)
      then some (codes "authentication_required")
      else row.paused_reason;
}

unfoldable pub record_auth_failure : Game → Actor → GameAccount → Work
record_auth_failure game actor row =
    let paused = not (absent (failed_row game.now row).paused_reason) in
    record {
      row = failed_row game.now row;
      events =
          event actor (some row.id) none (codes "account.session.refresh_failed") (
            (codes "status", text (if paused then codes "paused" else codes "failed"))
            ∷ (codes "severity", text (if paused then codes "critical" else codes "warning"))
            ∷ [])
          ∷ [];
    }

abbrev pub succeeded : ℕ → GameAccount → GameAccount
succeeded now row = record row { last_success_at = some now }

-- The token is the one that the account has, and the game answers it with an identity that is, or is
-- not, the account's.
unfoldable pub accept_bound : Game → Text → Text → Work × Bool → Resolution
accept_bound game token identity (w, true) = record {
  work = record { row = succeeded game.now w.row; events = w.events };
  refreshed = false;
  api = some (token, identity);
}
accept_bound game token identity (w, false) = unresolved w

unfoldable pub accept : Game → Tables → Actor → GameAccount → Text → Text → Resolution
unfolding accept_bound bind_or_match
accept game t actor row token identity =
    accept_bound game token identity (bind_or_match game t actor row identity)

abbrev pub renewed : Game → Login → GameAccount → GameAccount
renewed game l row = record row {
  session_token = some l.token;
  session_expires_at = l.expiry;
  auth_failure_count = 0;
  auth_failure_window_started_at = none;
  last_success_at = some game.now;
}

unfoldable pub renew_bound : Game → Login → Work × Bool → Resolution
renew_bound game l (w, true) = record {
  work = record { row = renewed game l w.row; events = w.events };
  refreshed = true;
  api = some (l.token, l.identity);
}
renew_bound game l (w, false) = unresolved w

unfoldable pub accept_login : Game → Tables → Actor → GameAccount → Login → Resolution
unfolding renew_bound bind_or_match
accept_login game t actor row l = renew_bound game l (bind_or_match game t actor row l.identity)

-- AuthenticationRequired is recorded as a failure of the account; any other exception goes on.
unfoldable pub login_outcome :
    Game → Tables → Actor → GameAccount → Result Login → Result Resolution
unfolding accept_login record_auth_failure
login_outcome game t actor row (ok l) = ok (accept_login game t actor row l)
login_outcome game t actor row (raised e) =
    if is_authentication_required e
    then ok (unresolved (record_auth_failure game actor row))
    else raised e

abbrev pub or_empty : Option Text → Text
or_empty none = []
or_empty (some t) = t

-- The login with the stored credentials.
unfoldable pub renew : Game → Tables → Actor → GameAccount → Result Resolution
unfolding login_outcome login_and_bootstrap
renew game t actor row = login_outcome game t actor row (
    if absent row.game_username || absent row.password
    then raised Errors.authentication_required
    else login_and_bootstrap game (or_empty row.game_username) (or_empty row.password))

-- What follows the first bootstrap with the stored token.
unfoldable pub after_bootstrap :
    Game → Tables → Actor → GameAccount → Text → Result Text → Result Resolution
unfolding accept renew
after_bootstrap game t actor row token (ok identity) = ok (accept game t actor row token identity)
after_bootstrap game t actor row token (raised e) =
    if is_session_rejected e
    then elim row.auth_mode [
      | token_only ↦ ok (unresolved (pause_for_refresh game actor row))
      | credentials ↦ renew game t actor row
    ]
    else if is_authentication_required e
    then ok (unresolved (record_auth_failure game actor row))
    else raised e

unfoldable pub ensure_unpaused : Game → Tables → Actor → GameAccount → Result Resolution
unfolding after_bootstrap
ensure_unpaused game t actor row =
    if needs_refresh game.now row
    then elim row.auth_mode [
      | token_only ↦ ok (unresolved (pause_for_refresh game actor row))
      | credentials ↦ renew game t actor row
    ]
    else after_bootstrap game t actor row (or_empty row.session_token)
        (game.bootstrap (or_empty row.session_token) 3)

-- `_ensure_locked`
unfoldable pub ensure_locked : Game → Tables → Actor → GameAccount → Result Resolution
unfolding ensure_unpaused
ensure_locked game t actor row =
    if is_none row.paused_reason
    then ensure_unpaused game t actor row
    else ok (unresolved (unchanged row))
