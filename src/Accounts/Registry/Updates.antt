-- ===== src/Accounts/Registry/Updates.antt =====
-- The updates of an account's secrets and the sessions with the game (accounts/service.py) are changes
-- of the accounts.
use placegame_mcp.Errors
use placegame_mcp.Errors.{Error, Result, ok, raised, ◌>>=◌, ◌>>◌, Result-cases}
use placegame_mcp.Prelude.{
  ℕ, ◌≡◌, refl, Bool, true, false, Option, none, some, List, is_none, Bool-cases, inl, inr,
}
use placegame_mcp.Text.{Text, Actor, is_empty}
use placegame_mcp.Plans.Rows.{ExecutionResult, AuditEvent}
use placegame_mcp.Accounts.Rows.{GameAccount, credentials, token_only, Tables}
use placegame_mcp.Accounts.Session.{
  Game, Login, Work, try_login, bind_or_match, absent, is_authentication_required,
  is_session_rejected,
}
use placegame_mcp.Accounts.Session.Resolve.{or_empty}
use placegame_mcp.Accounts.Session.Identity.{
  Allowed, untouched, Allowed-trans, bind_or_match-Allowed,
}
use placegame_mcp.Accounts.Secrets.{
  Bound, compared, bind_resolved, bind_stored, resolve_stored_identity, accept_verified,
  verified_row, proposed, new_credentials, after_bind_credentials, change_credentials,
  update_credentials, new_token, after_bind_token, change_token, update_token_only,
  is_account_error,
}
use placegame_mcp.Accounts.Registry.{is_marked, unmarked, Change}
use placegame_mcp.Accounts.Registry.Operations.{Good, Works, guarded, on_row-Change, refused-Change}

module _ (t : Tables) (row : GameAccount) where
  abbrev Binds : Result Bound → Type 0
  Binds (raised e) = Unit
  Binds (ok (w, pending)) = Allowed t row w.row

  compared-Binds : (out : Work × Bool) → Allowed t row out.0.row → Binds (ok (compared out))
  compared-Binds (w, s) a = a

  bind_resolved-Binds :
      (game : Game) (actor : Actor) (r : Result Text) → Binds (bind_resolved game t actor row r)
  unfolding bind_resolved
  bind_resolved-Binds game actor (ok identity) =
      compared-Binds (bind_or_match game t actor row identity)
        (bind_or_match-Allowed game t actor row identity)
  bind_resolved-Binds game actor (raised e) = elim (Bool-cases (is_authentication_required e)) [
    | inl h ↦ rw h (untouched t row row refl refl)
    | inr h ↦ rw h tt
  ]

  bind_stored-Binds : (game : Game) (actor : Actor) → Binds (bind_stored game t actor row)
  unfolding bind_stored
  bind_stored-Binds game actor = elim (Bool-cases (is_none row.game_account_id)) [
    | inl h ↦ rw h (bind_resolved-Binds game actor (resolve_stored_identity game row))
    | inr h ↦ rw h (untouched t row row refl refl)
  ]

  -- Where the row has no marker, only its identity is to be looked at.
  good : (after : GameAccount) → is_marked row ≡ false → Allowed t row after → Good t row after
  good after m a = record { allowed = a; marks = unmarked row after m }

  accept_verified-Works :
      (actor : Actor) (action : Text) (result : ExecutionResult)
      (change : GameAccount → GameAccount) (earlier : List AuditEvent) (out : Work × Bool)
      → is_marked row ≡ false
      → ((r : GameAccount) → Allowed t r (change r))
      → Allowed t row out.0.row
      → Works t row (accept_verified actor action result change earlier out)
  unfolding accept_verified
  accept_verified-Works actor action result change earlier (w, true) m c a =
      good (change w.row) m (Allowed-trans t row w.row (change w.row) a (c w.row))
  accept_verified-Works actor action result change earlier (w, false) m c a = good w.row m a

  new_credentials-Works :
      (game : Game) (actor : Actor) (username password : Text) (w : Work) (r : Result Login)
      → is_marked row ≡ false
      → Allowed t row w.row
      → Works t row (new_credentials game t actor username password w r)
  unfolding new_credentials
  new_credentials-Works game actor username password w (ok l) m a =
      accept_verified-Works actor _ _
        (verified_row game.now credentials (some username) (some password) l.token l.expiry)
        w.events (bind_or_match game t actor w.row l.identity) m
        (λ r.
          untouched t r
            (verified_row game.now credentials (some username) (some password) l.token l.expiry r)
            refl refl)
        (Allowed-trans t row w.row (bind_or_match game t actor w.row l.identity).0.row a
          (bind_or_match-Allowed game t actor w.row l.identity))
  new_credentials-Works game actor username password w (raised e) m a =
      elim (Bool-cases (is_account_error e)) [ inl h ↦ rw h (good w.row m a) | inr h ↦ rw h tt ]

  after_bind_credentials-Works :
      (game : Game) (actor : Actor) (username : Option Text) (password : Text) (r : Result Bound)
      → is_marked row ≡ false
      → Binds r
      → Works t row (after_bind_credentials game t actor username password r)
  unfolding after_bind_credentials
  after_bind_credentials-Works game actor username password (raised e) m b = tt
  after_bind_credentials-Works game actor username password (ok (w, some e)) m b = good w.row m b
  after_bind_credentials-Works game actor username password (ok (w, none)) m b =
      elim (Bool-cases (absent (proposed username w.row))) [
        | inl h ↦ rw h (good w.row m b)
        | inr h ↦ rw h (
            new_credentials-Works game actor (or_empty (proposed username w.row)) password w
              (try_login game (or_empty (proposed username w.row)) password 3 4) m b)
      ]

  new_token-Works :
      (game : Game) (actor : Actor) (token : Text) (w : Work) (r : Result Text)
      → is_marked row ≡ false
      → Allowed t row w.row
      → Works t row (new_token game t actor token w r)
  unfolding new_token
  new_token-Works game actor token w (ok identity) m a =
      accept_verified-Works actor _ _
        (verified_row game.now token_only none none token (game.token_expiry token)) w.events
        (bind_or_match game t actor w.row identity) m
        (λ r.
          untouched t r
            (verified_row game.now token_only none none token (game.token_expiry token) r) refl
            refl)
        (Allowed-trans t row w.row (bind_or_match game t actor w.row identity).0.row a
          (bind_or_match-Allowed game t actor w.row identity))
  new_token-Works game actor token w (raised e) m a = elim (Bool-cases (is_session_rejected e)) [
    | inl h ↦ rw h (good w.row m a)
    | inr h ↦ rw h tt
  ]

  after_bind_token-Works :
      (game : Game) (actor : Actor) (token : Text) (r : Result Bound)
      → is_marked row ≡ false
      → Binds r
      → Works t row (after_bind_token game t actor token r)
  unfolding after_bind_token
  after_bind_token-Works game actor token (raised e) m b = tt
  after_bind_token-Works game actor token (ok (w, some e)) m b = good w.row m b
  after_bind_token-Works game actor token (ok (w, none)) m b =
      new_token-Works game actor token w (game.bootstrap token 4) m b

pub update_credentials-Change :
    (game : Game) (account_id : ℕ) (username : Option Text) (password : Text) (actor : Actor)
    (t : Tables)
    → Change t (update_credentials game account_id username password actor t).0
unfolding update_credentials change_credentials
update_credentials-Change game account_id username password actor t =
    refused-Change t (is_empty password) Errors.value_error _ (
      on_row-Change account_id t (change_credentials game t actor username password) λ row.
        guarded t row _ λ m.
          after_bind_credentials-Works t row game actor username password
            (bind_stored game t actor row) m (bind_stored-Binds t row game actor))

pub update_token_only-Change :
    (game : Game) (account_id : ℕ) (session_token : Text) (actor : Actor) (t : Tables)
    → Change t (update_token_only game account_id session_token actor t).0
unfolding update_token_only change_token
update_token_only-Change game account_id session_token actor t =
    refused-Change t (is_empty session_token) Errors.value_error _ (
      on_row-Change account_id t (change_token game t actor session_token) λ row.
        guarded t row _ λ m.
          after_bind_token-Works t row game actor session_token (bind_stored game t actor row) m
            (bind_stored-Binds t row game actor))
