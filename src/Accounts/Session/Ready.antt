-- ===== src/Accounts/Session/Ready.antt =====
-- What `_ensure_locked` promises of the API that it gives (accounts/service.py).
use placegame_mcp.Errors.{Result, ok, raised}
use placegame_mcp.Prelude.{◌≡◌, refl, subst, ◌∙◌, arith, Bool, true, false, Option, none, some, ℕ}
use placegame_mcp.Text.{Text, Actor}
use placegame_mcp.Accounts.Rows.{GameAccount, Tables}
use placegame_mcp.Accounts.Session.{Game, Login, Work, bind_or_match}
use placegame_mcp.Accounts.Session.Resolve.{
  Resolution, accept_bound, renew_bound, accept, accept_login, record_auth_failure, ensure_locked,
}
use placegame_mcp.Accounts.Session.Identity.{bind_or_match_cases}
use placegame_mcp.Accounts.Session.Outcomes.{Answered, ensure_locked_cases}

-- The row is not paused, its token is the one of the API and its identity the one by which the game has
-- answered a bootstrap with that token.
pub record IsReady (game : Game) (row : GameAccount) (token identity : Text) : Type 0 where
  pub answered : (attempt : ℕ) × (game.bootstrap token attempt ≡ ok identity)
  pub unpaused : row.paused_reason ≡ none
  pub has_token : row.session_token ≡ some token
  pub has_identity : row.game_account_id ≡ some identity

abbrev Gives : Game → Result Resolution → Type 0
Gives game (raised e) = Unit
Gives game (ok r) =
    (token identity : Text)
    → r.api ≡ some (token, identity)
    → IsReady game r.work.row token identity

-- The comparison has succeeded with a row that has the identity and is as unpaused as before.
abbrev Same : GameAccount → Text → Work × Bool → Type 0
Same row identity (w, false) = Unit
Same row identity (w, true) =
    (w.row.game_account_id ≡ some identity)
    × (w.row.paused_reason ≡ row.paused_reason)
    × (w.row.session_token ≡ row.session_token)

bind_or_match-Same :
    (game : Game) (t : Tables) (actor : Actor) (row : GameAccount) (identity : Text)
    → Same row identity (bind_or_match game t actor row identity)
bind_or_match-Same game t actor row identity =
    bind_or_match_cases (Same row identity) game t actor row identity tt tt
      (λ n h. (refl, refl, refl)) (λ m. (m, refl, refl))

rebased :
    (game : Game) {token identity a b : Text}
    → ◌≡◌ {A = Option (Text × Text)} (some (token, identity)) (some (a, b))
    → Answered game token identity
    → Answered game a b
rebased game {token} {identity} {a} {b} h (n, e) =
    let t : token ≡ a = ground (arith, h) in
    let i : identity ≡ b = ground (arith, h) in
    (
      n,
      subst (λ x. game.bootstrap a n ≡ ok x) i (subst (λ x. game.bootstrap x n ≡ ok identity) t e),
    )

accept_bound-Gives :
    (game : Game) (row : GameAccount) (token identity : Text) (out : Work × Bool)
    → row.paused_reason ≡ none
    → row.session_token ≡ some token
    → Same row identity out
    → Answered game token identity
    → Gives game (ok (accept_bound game token identity out))
unfolding accept_bound
accept_bound-Gives game row token identity (w, true) p s (i, q, r) g = λ a b h. record {
  answered = rebased game h g;
  unpaused = q ∙ p;
  has_token = r ∙ s ∙ ground (arith, h);
  has_identity = i ∙ ground (arith, h);
}
accept_bound-Gives game row token identity (w, false) p s x g = λ a b h. ground (arith, h)

renew_bound-Gives :
    (game : Game) (row : GameAccount) (l : Login) (out : Work × Bool)
    → row.paused_reason ≡ none
    → Same row l.identity out
    → Answered game l.token l.identity
    → Gives game (ok (renew_bound game l out))
unfolding renew_bound
renew_bound-Gives game row l (w, true) p (i, q, r) g = λ a b h. record {
  answered = rebased game h g;
  unpaused = q ∙ p;
  has_token = ground (arith, h);
  has_identity = i ∙ ground (arith, h);
}
renew_bound-Gives game row l (w, false) p x g = λ a b h. ground (arith, h)

ensure_locked-Gives :
    (game : Game) (t : Tables) (actor : Actor) (row : GameAccount)
    → Gives game (ensure_locked game t actor row)
unfolding accept accept_login record_auth_failure
ensure_locked-Gives game t actor row =
    ensure_locked_cases (Gives game) game t actor row (λ e. tt) (λ p a b h. ground (arith, h))
      (λ p m a b h. ground (arith, h)) (λ p a b h. ground (arith, h))
      (λ token identity p s b.
        accept_bound-Gives game row token identity (bind_or_match game t actor row identity) p s
          (bind_or_match-Same game t actor row identity) (3, b))
      (λ l p m g.
        renew_bound-Gives game row l (bind_or_match game t actor row l.identity) p
          (bind_or_match-Same game t actor row l.identity) g)

-- Where a session is resolved with an API, the account is not paused, its stored token is the one of the
-- API, and its identity is the one by which the game has answered a bootstrap with that token.
pub ensure_locked-IsReady :
    (game : Game) (t : Tables) (actor : Actor) (row : GameAccount) (r : Resolution)
    (token identity : Text)
    → ensure_locked game t actor row ≡ ok r
    → r.api ≡ some (token, identity)
    → IsReady game r.work.row token identity
ensure_locked-IsReady game t actor row r token identity h =
    let g : Gives game (ok r) = subst (Gives game) h (ensure_locked-Gives game t actor row) in
    g token identity
