-- ===== src/Accounts/Session/Identity.antt =====
-- What a change of one row may do to its identity.
use placegame_mcp.Errors.{Result, ok, raised}
use placegame_mcp.Prelude.{
  ◌≡◌, ◌⊎◌, refl, sym, ap, subst, ◌∙◌, arith, Bool, true, false, ◌||◌, Option, none, some,
  Bool-cases, inl, inr,
}
use placegame_mcp.Text.{Text, Actor, is_empty, text_eq, text_eq_sound}
use placegame_mcp.Accounts.Rows.{GameAccount, Tables, taken_by_other}
use placegame_mcp.Accounts.Session.{
  Game, Work, bind_or_match, compare_identity, unchanged, identity_mismatch, Login,
}
use placegame_mcp.Accounts.Session.Resolve.{
  accept_bound, renew_bound, accept, accept_login, pause_for_refresh, failed_row,
  record_auth_failure, succeeded, renewed, Resolution, ensure_locked,
}
use placegame_mcp.Accounts.Session.Outcomes.{ensure_locked_cases}

-- The row stays the row of its identifier, an identity that is set stays, and a new one is not
-- another account's.
pub record Allowed (t : Tables) (row : GameAccount) (after : GameAccount) : Type 0 where
  pub same_id : after.id ≡ row.id
  pub fixed : (g : Text) → row.game_account_id ≡ some g → after.game_account_id ≡ some g
  pub free :
      (g : Text)
      → after.game_account_id ≡ some g
      → (row.game_account_id ≡ some g) ⊎ (taken_by_other g row.id t ≡ false)

pub untouched :
    (t : Tables) (row after : GameAccount)
    → after.id ≡ row.id
    → after.game_account_id ≡ row.game_account_id
    → Allowed t row after
untouched t row after i e = record {
  same_id = i;
  fixed = λ g h. e ∙ h;
  free = λ g h. inl (sym e ∙ h);
}

pub Allowed-trans :
    (t : Tables) (a b c : GameAccount) → Allowed t a b → Allowed t b c → Allowed t a c
Allowed-trans t a b c p q = record {
  same_id = q.same_id ∙ p.same_id;
  fixed = λ g h. q.fixed g (p.fixed g h);
  free = λ g h. elim (q.free g h) [
    | inl had ↦ p.free g had
    | inr other ↦ inr (rw (sym p.same_id) other)
  ];
}

bound :
    (t : Tables) (row : GameAccount) (identity : Text)
    → row.game_account_id ≡ none
    → taken_by_other identity row.id t ≡ false
    → Allowed t row (record row { game_account_id = some identity })
bound t row identity n h = record {
  same_id = refl;
  fixed = λ g e. absurd (ground (arith, n, e));
  free = λ g e. inr (subst (λ i. taken_by_other i row.id t ≡ false) (ground (arith, e)) h);
}

module _ {ℓ} (P : Work × Bool → Type ℓ) (game : Game) (t : Tables) (actor : Actor)
    (row : GameAccount) (identity : Text) (refuses : P ((unchanged row, false)))
    (mismatches : P ((identity_mismatch game actor row, false)))
    (binds : row.game_account_id ≡ none
      → taken_by_other identity row.id t ≡ false
      → P ((unchanged (record row { game_account_id = some identity }), true)))
    (matches : row.game_account_id ≡ some identity → P ((unchanged row, true))) where
  compare_identity_cases :
      (o : Option Text) → row.game_account_id ≡ o → P (compare_identity game t actor row identity o)
  unfolding compare_identity
  compare_identity_cases none n =
      elim (Bool-cases (taken_by_other identity row.id t || game.lost_race)) [
        | inl lost ↦ rw lost mismatches
        | inr won ↦ rw won (binds n (ground arith))
      ]
  compare_identity_cases (some mine) m = elim (Bool-cases (text_eq mine identity)) [
    | inl same ↦ rw same (matches (m ∙ ap some (text_eq_sound mine identity same)))
    | inr differ ↦ rw differ mismatches
  ]

  pub bind_or_match_cases : P (bind_or_match game t actor row identity)
  unfolding bind_or_match
  bind_or_match_cases = elim (Bool-cases (is_empty identity)) [
    | inl e ↦ rw e refuses
    | inr e ↦ rw e (compare_identity_cases row.game_account_id refl)
  ]

module _ (game : Game) (t : Tables) (actor : Actor) (row : GameAccount) where
  pub bind_or_match-Allowed :
      (identity : Text) → Allowed t row (bind_or_match game t actor row identity).0.row
  bind_or_match-Allowed identity =
      bind_or_match_cases (λ out. Allowed t row out.0.row) game t actor row identity
        (untouched t row row refl refl)
        (untouched t row (identity_mismatch game actor row).row refl refl) (bound t row identity)
        (λ m. untouched t row row refl refl)

  -- The work of a resolution, if there is one.
  abbrev pub Allows : Result Resolution → Type 0
  Allows (raised e) = Unit
  Allows (ok r) = Allowed t row r.work.row

  accept_bound-Allows :
      (token identity : Text) (out : Work × Bool)
      → Allowed t row out.0.row
      → Allows (ok (accept_bound game token identity out))
  unfolding accept_bound
  accept_bound-Allows token identity (w, true) a =
      Allowed-trans t row w.row (succeeded game.now w.row) a
        (untouched t w.row (succeeded game.now w.row) refl refl)
  accept_bound-Allows token identity (w, false) a = a

  renew_bound-Allows :
      (l : Login) (out : Work × Bool)
      → Allowed t row out.0.row
      → Allows (ok (renew_bound game l out))
  unfolding renew_bound
  renew_bound-Allows l (w, true) a =
      Allowed-trans t row w.row (renewed game l w.row) a
        (untouched t w.row (renewed game l w.row) refl refl)
  renew_bound-Allows l (w, false) a = a

  pub ensure_locked-Allows : Allows (ensure_locked game t actor row)
  unfolding accept accept_login record_auth_failure
  ensure_locked-Allows =
      ensure_locked_cases Allows game t actor row (λ e. tt) (λ p. untouched t row row refl refl)
        (λ p m. untouched t row (pause_for_refresh game actor row).row refl refl)
        (λ p. untouched t row (failed_row game.now row) refl refl)
        (λ token identity p s b.
          accept_bound-Allows token identity (bind_or_match game t actor row identity)
            (bind_or_match-Allowed identity))
        (λ l p m g.
          renew_bound-Allows l (bind_or_match game t actor row l.identity)
            (bind_or_match-Allowed l.identity))
