-- ===== src/Accounts/Session/Outcomes.antt =====
-- The ways in which `_ensure_locked` goes.
use placegame_mcp.Errors
use placegame_mcp.Errors.{Error, Result, ok, raised, Result-cases}
use placegame_mcp.Prelude.{
  ℕ, zero, suc, Bool, true, ◌≡◌, refl, subst, ◌∙◌, arith, false, ◌||◌, Option, none, some, is_none,
  is_some_and, leb, ◌+◌, Bool-cases, Option-cases, inl, inr, if◌then◌else◌,
}
use placegame_mcp.Text.{Text, Actor}
use placegame_mcp.Accounts.Rows.{GameAccount, AuthMode, credentials, token_only, Tables}
use placegame_mcp.Accounts.Session.{
  Game, is_session_rejected, is_authentication_required, Login, attempt_login, try_login,
  login_and_bootstrap, unchanged, absent,
}
use placegame_mcp.Accounts.Session.Resolve.{
  Resolution, unresolved, needs_refresh, pause_for_refresh, record_auth_failure, accept,
  accept_login, login_outcome, or_empty, renew, after_bootstrap, ensure_unpaused, ensure_locked,
  one_day,
}

-- The game has answered a bootstrap with the token by the identity.
abbrev pub Answered : Game → Text → Text → Type 0
Answered game token identity = (attempt : ℕ) × (game.bootstrap token attempt ≡ ok identity)

attempt_login-Answered :
    (game : Game) (username password : Text) (attempt : ℕ) (l : Login)
    → attempt_login game username password attempt ≡ ok l
    → Answered game l.token l.identity
attempt_login-Answered game username password attempt l h =
    elim (Result-cases (game.login username password attempt)) [
      | inr (e, x) ↦ absurd (ground (arith, rw x at h))
      | inl (token, x) ↦ elim (Result-cases (game.bootstrap token attempt)) [
        | inr (e, y) ↦ absurd (ground (arith, rw (x, y) at h))
        | inl (identity, y) ↦
            let same : record {
              token = token;
              expiry = game.token_expiry token;
              identity = identity;
            }
                ≡ l =
              ground (arith, rw (x, y) at h) in
            (attempt, subst (λ k. game.bootstrap k.token attempt ≡ ok k.identity) same y)
      ]
    ]

try_login-Answered :
    (game : Game) (username password : Text) (left attempt : ℕ) (l : Login)
    → try_login game username password left attempt ≡ ok l
    → Answered game l.token l.identity
unfolding try_login
try_login-Answered game username password zero attempt l h = absurd (ground arith)
try_login-Answered game username password (suc left) attempt l h =
    elim (Result-cases (attempt_login game username password attempt)) [
      | inl (k, x) ↦
          let same : ok k ≡ ok l = rw (x, try_login) at h in
          attempt_login-Answered game username password attempt l (x ∙ same)
      | inr (e, x) ↦ elim (Bool-cases (is_session_rejected e)) [
        | inl y ↦
            try_login-Answered game username password left (attempt + 1) l
              (rw (x, y, try_login) at h)
        | inr y ↦ absurd (ground (arith, rw (x, y, try_login) at h))
      ]
    ]

login_and_bootstrap-Answered :
    (game : Game) (username password : Text) (l : Login)
    → login_and_bootstrap game username password ≡ ok l
    → Answered game l.token l.identity
unfolding login_and_bootstrap
login_and_bootstrap-Answered game username password l =
    try_login-Answered game username password 3 0 l

module _ {ℓ} (P : Result Resolution → Type ℓ) (game : Game) (t : Tables) (actor : Actor)
    (row : GameAccount) (raises : (e : Error) → P (raised e))
    (paused : is_none row.paused_reason ≡ false → P (ok (unresolved (unchanged row))))
    (asks : row.paused_reason ≡ none
      → row.auth_mode ≡ token_only
      → P (ok (unresolved (pause_for_refresh game actor row))))
    (fails : row.paused_reason ≡ none → P (ok (unresolved (record_auth_failure game actor row))))
    (accepts : (token identity : Text)
      → row.paused_reason ≡ none
      → row.session_token ≡ some token
      → game.bootstrap token 3 ≡ ok identity
      → P (ok (accept game t actor row token identity)))
    (logs_in : (l : Login)
      → row.paused_reason ≡ none
      → row.auth_mode ≡ credentials
      → Answered game l.token l.identity
      → P (ok (accept_login game t actor row l))) where
  login_outcome_cases :
      (out : Result Login)
      → ((l : Login) → out ≡ ok l → Answered game l.token l.identity)
      → row.paused_reason ≡ none
      → row.auth_mode ≡ credentials
      → P (login_outcome game t actor row out)
  unfolding login_outcome
  login_outcome_cases (ok l) g p m = logs_in l p m (g l refl)
  login_outcome_cases (raised e) g p m = elim (Bool-cases (is_authentication_required e)) [
    | inl x ↦ rw x (fails p)
    | inr x ↦ rw x (raises e)
  ]

  renew_cases : row.paused_reason ≡ none → row.auth_mode ≡ credentials → P (renew game t actor row)
  unfolding renew
  renew_cases p m =
      login_outcome_cases
        (if absent row.game_username || absent row.password
          then raised Errors.authentication_required
          else login_and_bootstrap game (or_empty row.game_username) (or_empty row.password))
        (λ l. by_login (absent row.game_username || absent row.password) l) p m
    where
      by_login :
          (b : Bool) (l : Login)
          → (if b
              then raised Errors.authentication_required
              else login_and_bootstrap game (or_empty row.game_username) (or_empty row.password))
            ≡ ok l
          → Answered game l.token l.identity
      by_login true l h = absurd (ground arith)
      by_login false l h =
          login_and_bootstrap-Answered game (or_empty row.game_username) (or_empty row.password) l h

  -- The two modes, where the token cannot be used.
  by_mode :
      (mode : AuthMode)
      → row.paused_reason ≡ none
      → row.auth_mode ≡ mode
      → P (elim mode [
        | token_only ↦ ok (unresolved (pause_for_refresh game actor row))
        | credentials ↦ renew game t actor row
      ])
  by_mode token_only p m = asks p m
  by_mode credentials p m = renew_cases p m

  after_bootstrap_cases :
      (token : Text) (out : Result Text)
      → row.paused_reason ≡ none
      → row.session_token ≡ some token
      → game.bootstrap token 3 ≡ out
      → P (after_bootstrap game t actor row token out)
  unfolding after_bootstrap
  after_bootstrap_cases token (ok identity) p s b = accepts token identity p s b
  after_bootstrap_cases token (raised e) p s b = elim (Bool-cases (is_session_rejected e)) [
    | inl x ↦ rw x (by_mode row.auth_mode p refl)
    | inr x ↦ elim (Bool-cases (is_authentication_required e)) [
      | inl y ↦ rw (x, y) (fails p)
      | inr y ↦ rw (x, y) (raises e)
    ]
  ]

  ensure_unpaused_cases : row.paused_reason ≡ none → P (ensure_unpaused game t actor row)
  unfolding ensure_unpaused
  ensure_unpaused_cases p = elim (Bool-cases (needs_refresh game.now row)) [
    | inl x ↦ rw x (by_mode row.auth_mode p refl)
    | inr x ↦ rw x (
        after_bootstrap_cases (or_empty row.session_token)
          (game.bootstrap (or_empty row.session_token) 3) p (held row.session_token x) refl)
  ]
    where
      held :
          (o : Option Text)
          → is_none o
              || is_some_and (λ expiry. leb expiry (game.now + one_day)) row.session_expires_at
            ≡ false
          → o ≡ some (or_empty o)
      held none h = absurd (ground arith)
      held (some s) h = refl

  pub ensure_locked_cases : P (ensure_locked game t actor row)
  unfolding ensure_locked
  ensure_locked_cases = elim (Option-cases row.paused_reason) [
    | inl p ↦ simp p (ensure_unpaused_cases p)
    | inr (r, p) ↦ simp p (paused (ground (arith, p)))
  ]
