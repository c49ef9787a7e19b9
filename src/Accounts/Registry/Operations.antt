-- ===== src/Accounts/Registry/Operations.antt =====
-- Each operation of AccountService (accounts/service.py) but `mutate` is a change of the accounts.
use placegame_mcp.Errors
use placegame_mcp.Errors.{Error, Result, ok, raised, Result-cases, ◌>>=◌, ◌>>◌}
use placegame_mcp.Prelude.{
  ℕ, ◌≡◌, refl, sym, subst, arith, Bool, true, false, Option, none, some, if◌then◌else◌, Bool-cases,
  inl, inr, first-holds, ==_iff,
}
use placegame_mcp.Text.{Text, Actor, codes, strip, is_empty}
use placegame_mcp.Accounts.Rows.{
  GameAccount, token_only, Tables, with_id, get_for_update, disable_jobs, find_identity,
  has_unresolved_identity,
}
use placegame_mcp.Accounts.Session.{Game, Work, login_and_bootstrap}
use placegame_mcp.Accounts.Session.Identity.{Allowed, untouched}
use placegame_mcp.Accounts.Lifecycle.{
  Outcome, commit, on_row, on_found, with_value, begin_found, finish_found, is_removed, is_removing,
  reject_removal_marker, normalize_label, relabelled, update_label, switched, set_lifecycle,
  paused_for, pause, resumed, resume, removing_row, begin_removal, removed_row, finish_removal,
}
use placegame_mcp.Accounts.Enrolment.{
  enrol, enrol_unless, identity_of, add_credentials, add_token_only, credentials_row, enrolled_row,
}
use placegame_mcp.Accounts.Registry.{is_marked, Marks, unmarked, Change, nothing, one_row, one_more}
use placegame_mcp.Accounts.Registry.Changes.{at}

-- What the work on a row does to it.
pub record Good (t : Tables) (row : GameAccount) (after : GameAccount) : Type 0 where
  pub allowed : Allowed t row after
  pub marks : Marks row after

abbrev pub Works : {A : Type 0} → Tables → GameAccount → Result (Work × Result A) → Type 0
Works t row (raised e) = Unit
Works t row (ok (w, out)) = Good t row w.row

pub plain :
    (t : Tables) (row after : GameAccount)
    → after.id ≡ row.id
    → after.game_account_id ≡ row.game_account_id
    → is_marked row ≡ false
    → Good t row after
plain t row after i g m = record {
  allowed = untouched t row after i g;
  marks = unmarked row after m;
}

pub guarded :
    {A : Type 0} (t : Tables) (row : GameAccount) (next : Result (Work × Result A))
    → (is_marked row ≡ false → Works t row next)
    → Works t row (reject_removal_marker row >> next)
guarded t row next k = elim (Bool-cases (is_removed row)) [
  | inl h ↦ rw h tt
  | inr h ↦ elim (Bool-cases (is_removing row)) [
    | inl r ↦ rw (h, r) tt
    | inr r ↦ rw (h, r) (k (rw (h, r) refl))
  ]
]

-- The row that the identifier finds is the row of its own identifier.
pub own :
    (account_id : ℕ) (t : Tables) (row : GameAccount)
    → get_for_update account_id t ≡ some row
    → at row.id t.accounts ≡ some row
unfolding get_for_update
own account_id t row h =
    let e : row.id ≡ account_id =
      (==_iff row.id account_id).0 (first-holds (with_id account_id) t.accounts row h) in
    subst (λ i. at i t.accounts ≡ some row) (sym e) h

commit-Change :
    {A : Type 0} (account_id : ℕ) (t : Tables) (row : GameAccount) (r : Result (Work × Result A))
    → get_for_update account_id t ≡ some row
    → Works t row r
    → Change t (commit t r).0
commit-Change account_id t row (raised e) h g = nothing refl refl
commit-Change account_id t row (ok (w, out)) h g =
    one_row row w.row (own account_id t row h) g.allowed g.marks refl refl

pub on_found-Change :
    {A : Type 0} (account_id : ℕ) (t : Tables) (body : GameAccount → Result (Work × Result A))
    (found : Option GameAccount)
    → get_for_update account_id t ≡ found
    → ((row : GameAccount) → Works t row (body row))
    → Change t (on_found t body found).0
on_found-Change account_id t body none h good = nothing refl refl
on_found-Change account_id t body (some row) h good =
    commit-Change account_id t row (body row) h (good row)

pub on_row-Change :
    {A : Type 0} (account_id : ℕ) (t : Tables) (body : GameAccount → Result (Work × Result A))
    → ((row : GameAccount) → Works t row (body row))
    → Change t (on_row account_id t body).0
unfolding get_for_update
on_row-Change account_id t body good =
    on_found-Change account_id t body (get_for_update account_id t) refl good

with_value-Change :
    {A B : Type 0} (t : Tables) (r : Result A) (next : A → Outcome B)
    → ((a : A) → Change t (next a).0)
    → Change t (with_value t r next).0
with_value-Change t (raised e) next c = nothing refl refl
with_value-Change t (ok a) next c = c a

-- An input that is refused before the transaction.
pub refused-Change :
    {A : Type 0} (t : Tables) (b : Bool) (e : Error) (next : Outcome A)
    → Change t next.0
    → Change t (if b then (t, raised e) else next).0
refused-Change t true e next c = nothing refl refl
refused-Change t false e next c = c

pub update_label-Change :
    (account_id : ℕ) (label : Text) (actor : Actor) (t : Tables)
    → Change t (update_label account_id label actor t).0
unfolding update_label relabelled
update_label-Change account_id label actor t =
    with_value-Change t (normalize_label label) (λ l. on_row account_id t (relabelled actor l))
      λ l.
        on_row-Change account_id t (relabelled actor l)
          λ row. guarded t row _ (plain t row (record row { label = l }) refl refl)

pub set_lifecycle-Change :
    (account_id : ℕ) (enabled : Bool) (actor : Actor) (t : Tables)
    → Change t (set_lifecycle account_id enabled actor t).0
unfolding set_lifecycle switched
set_lifecycle-Change account_id enabled actor t =
    on_row-Change account_id t (switched actor enabled)
      λ row. guarded t row _ (plain t row (record row { enabled = enabled }) refl refl)

pub pause-Change :
    (account_id : ℕ) (reason : Text) (actor : Actor) (t : Tables)
    → Change t (pause account_id reason actor t).0
unfolding pause paused_for
pause-Change account_id reason actor t =
    refused-Change t (is_empty (strip reason)) Errors.value_error
      (on_row account_id t (paused_for actor (strip reason)))
      (on_row-Change account_id t (paused_for actor (strip reason)) λ row.
        guarded t row _
          (plain t row (record row { paused_reason = some (strip reason) }) refl refl))

resumed-Works : (t : Tables) (actor : Actor) (row : GameAccount) → Works t row (resumed actor row)
unfolding resumed
resumed-Works t actor row = elim (Bool-cases (is_removed row)) [
  | inl h ↦ rw h tt
  | inr h ↦ elim (Bool-cases (is_removing row)) [
    | inl r ↦ rw (h, r) tt
    | inr r ↦
        rw (h, r) (plain t row (record row { paused_reason = none }) refl refl (rw (h, r) refl))
  ]
]

pub resume-Change :
    (account_id : ℕ) (actor : Actor) (t : Tables) → Change t (resume account_id actor t).0
unfolding resume
resume-Change account_id actor t =
    on_row-Change account_id t (resumed actor) (resumed-Works t actor)

begin_found-Change :
    (account_id : ℕ) (t : Tables) (found : Option GameAccount)
    → get_for_update account_id t ≡ found
    → Change t (begin_found t found).0
begin_found-Change account_id t none h = nothing refl refl
begin_found-Change account_id t (some row) h = elim (Bool-cases (is_removed row)) [
  | inl r ↦ rw r (nothing refl refl)
  | inr r ↦ rw r (
      one_row row (removing_row row) (own account_id t row h)
        (untouched t row (removing_row row) refl refl)
        (record {
          stays = λ m. refl;
          ends = λ m. absurd (ground (arith, m, r));
          erased = λ e. absurd (ground (arith, subst (λ x. is_removed x ≡ false) e r));
        })
        refl refl)
]

pub begin_removal-Change : (account_id : ℕ) (t : Tables) → Change t (begin_removal account_id t).0
unfolding begin_removal
begin_removal-Change account_id t =
    begin_found-Change account_id t (get_for_update account_id t) refl

finish_found-Change :
    (account_id : ℕ) (actor : Actor) (t : Tables) (found : Option GameAccount)
    → get_for_update account_id t ≡ found
    → Change t (finish_found actor t (disable_jobs account_id t) found).0
unfolding disable_jobs
finish_found-Change account_id actor t none h = nothing refl refl
finish_found-Change account_id actor t (some row) h =
    one_row row (removed_row row) (own account_id t row h)
      (untouched t row (removed_row row) refl refl)
      (record { stays = λ m. refl; ends = λ m. refl; erased = λ e. sym e }) refl refl

pub finish_removal-Change :
    (account_id : ℕ) (actor : Actor) (t : Tables) → Change t (finish_removal account_id actor t).0
unfolding finish_removal
finish_removal-Change account_id actor t =
    finish_found-Change account_id actor t (get_for_update account_id t) refl

add-Change :
    (actor : Actor) (action g : Text) (row : GameAccount) (t : Tables) (found : Option GameAccount)
    → row.id ≡ t.next_id
    → row.game_account_id ≡ some g
    → find_identity g t ≡ found
    → Change t (enrol_unless actor action row t found).0
add-Change actor action g row t none i e h = one_more row g i e h refl refl
add-Change actor action g row t (some x) i e h = nothing refl refl

enrol-Change :
    (actor : Actor) (action g : Text) (row : GameAccount) (t : Tables)
    → row.id ≡ t.next_id
    → row.game_account_id ≡ some g
    → Change t (enrol actor action g row t).0
unfolding enrol
enrol-Change actor action g row t i e = elim (Bool-cases (has_unresolved_identity t)) [
  | inl h ↦ rw h (nothing refl refl)
  | inr h ↦ rw h (add-Change actor action g row t (find_identity g t) i e refl)
]

pub add_credentials-Change :
    (game : Game) (label username password : Text) (actor : Actor) (t : Tables)
    → Change t (add_credentials game label username password actor t).0
unfolding add_credentials
add_credentials-Change game label username password actor t =
    with_value-Change t (normalize_label label) _ λ normalized.
      with_value-Change t (login_and_bootstrap game username password) _ λ l.
        refused-Change t (is_empty l.identity) Errors.authentication_required _ (
          enrol-Change actor (codes "account.add_credentials") l.identity
            (credentials_row t.next_id normalized username password l game.now) t refl refl)

pub add_token_only-Change :
    (game : Game) (label session_token : Text) (actor : Actor) (t : Tables)
    → Change t (add_token_only game label session_token actor t).0
unfolding add_token_only
add_token_only-Change game label session_token actor t =
    with_value-Change t (normalize_label label) _ λ normalized.
      refused-Change t (is_empty session_token) Errors.value_error _ (
        with_value-Change t (identity_of game session_token 0) _ λ identity.
          refused-Change t (is_empty identity) Errors.authentication_required _ (
            enrol-Change actor (codes "account.add_token_only") identity
              (enrolled_row t.next_id normalized token_only identity session_token
                (game.token_expiry session_token) game.now)
              t refl refl))
