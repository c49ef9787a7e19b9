-- ===== src/Accounts/Registry/Resolved.antt =====
-- The sessions of an account with the game, its snapshots and its lock (accounts/service.py) are changes
-- of the accounts.
use placegame_mcp.Errors.{Result, ok, raised, ◌>>=◌}
use placegame_mcp.Prelude.{ℕ, ◌≡◌, refl, subst, ◌∙◌, Option, none, some}
use placegame_mcp.Text.{Text, Actor}
use placegame_mcp.Idle.Planner.{IdleSummary}
use placegame_mcp.Accounts.Rows.{GameAccount, AccountSnapshot, Tables, get_for_update, write}
use placegame_mcp.Accounts.Session.{Game}
use placegame_mcp.Accounts.Session.Resolve.{Resolution, ensure_locked}
use placegame_mcp.Accounts.Session.Outcomes.{ensure_locked_cases}
use placegame_mcp.Accounts.Session.Identity.{Allows, ensure_locked-Allows}
use placegame_mcp.Accounts.Lifecycle.{Outcome, require_mutable}
use placegame_mcp.Accounts.Snapshots.{
  ensure_session, resolved, save_api, save_snapshot, enter_api, snapshot, snapshot_found,
  rolled_back, with_resolution, locked, locked_found, enter, mutable_only,
}
use placegame_mcp.Accounts.Registry.{Marks, unmarked, same, Change, nothing, one_row, one_more}
use placegame_mcp.Accounts.Registry.Operations.{Works, own, on_row-Change}

-- A resolution leaves a paused row as it is.
abbrev pub Resolves : Tables → GameAccount → Result Resolution → Type 0
Resolves t row (raised e) = Unit
Resolves t row (ok r) = Marks row r.work.row

not_paused : (row after : GameAccount) → row.paused_reason ≡ none → Marks row after
not_paused row after p = unmarked row after (rw p refl)

pub ensure_locked-Resolves :
    (game : Game) (t : Tables) (actor : Actor) (row : GameAccount)
    → Resolves t row (ensure_locked game t actor row)
ensure_locked-Resolves game t actor row =
    ensure_locked_cases (Resolves t row) game t actor row (λ e. tt) (λ p. same row)
      (λ p m. not_paused row _ p) (λ p. not_paused row _ p)
      (λ token identity p s b. not_paused row _ p) (λ l p m g. not_paused row _ p)

-- The other tables may change as well.
pub moved :
    {t u : Tables} (v : Tables)
    → Change t u
    → v.accounts ≡ u.accounts
    → v.next_id ≡ u.next_id
    → Change t v
moved v (nothing e k) a n = nothing (a ∙ e) (n ∙ k)
moved v (one_row row after was al m e k) a n = one_row row after was al m (a ∙ e) (n ∙ k)
moved v (one_more row g i h f e k) a n = one_more row g i h f (a ∙ e) (n ∙ k)

module _ (digest : Option (Text × IdleSummary) → Text) (game : Game) (row : GameAccount)
    (u : Tables) where
  save_api-keeps :
      (idle : Result IdleSummary) (api : Option (Text × Text))
      → ((save_api digest game.now row u idle api).0.accounts ≡ u.accounts)
        × ((save_api digest game.now row u idle api).0.next_id ≡ u.next_id)
  save_api-keeps idle none = (refl, refl)
  save_api-keeps (ok summary) (some (token, identity)) = (refl, refl)
  save_api-keeps (raised e) (some (token, identity)) = (refl, refl)

pub save_snapshot-keeps :
    (digest : Option (Text × IdleSummary) → Text) (game : Game) (r : Resolution) (u : Tables)
    → ((save_snapshot digest game r u).0.accounts ≡ u.accounts)
      × ((save_snapshot digest game r u).0.next_id ≡ u.next_id)
unfolding save_snapshot
save_snapshot-keeps digest game r u =
    save_api-keeps digest game r.work.row u game.idle_summary r.api

rolled_back-Change :
    {A : Type 0} (t : Tables) (out : Outcome A) → Change t out.0 → Change t (rolled_back t out).0
rolled_back-Change t (u, ok a) c = c
rolled_back-Change t (u, raised e) c = nothing refl refl

-- The row of a resolution is written.
pub resolution-Change :
    (account_id : ℕ) (game : Game) (t : Tables) (actor : Actor) (row : GameAccount)
    (r : Result Resolution)
    → get_for_update account_id t ≡ some row
    → ensure_locked game t actor row ≡ r
    → (q : Resolution) → r ≡ ok q
    → Change t (write q.work.row q.work.events t)
resolution-Change account_id game t actor row r h e q f =
    one_row row q.work.row (own account_id t row h)
      (subst (Allows game t actor row) (e ∙ f) (ensure_locked-Allows game t actor row))
      (subst (Resolves t row) (e ∙ f) (ensure_locked-Resolves game t actor row)) refl refl

with_resolution-Change :
    {A : Type 0} (account_id : ℕ) (game : Game) (t : Tables) (actor : Actor) (row : GameAccount)
    (r : Result Resolution) (next : Resolution → Tables → Outcome A)
    → get_for_update account_id t ≡ some row
    → ensure_locked game t actor row ≡ r
    → ((q : Resolution) (u : Tables) → Change t u → Change t (next q u).0)
    → Change t (with_resolution t r next).0
with_resolution-Change account_id game t actor row (raised e) next h k c = nothing refl refl
with_resolution-Change account_id game t actor row (ok q) next h k c =
    c q (write q.work.row q.work.events t)
      (resolution-Change account_id game t actor row (ok q) h k q refl)

saving :
    (digest : Option (Text × IdleSummary) → Text) (game : Game) (t : Tables) (q : Resolution)
    (u : Tables)
    → Change t u
    → Change t (save_snapshot digest game q u).0
saving digest game t q u c =
    moved (save_snapshot digest game q u).0 c (save_snapshot-keeps digest game q u).0
      (save_snapshot-keeps digest game q u).1

snapshot_found-Change :
    (digest : Option (Text × IdleSummary) → Text) (game : Game) (account_id : ℕ) (actor : Actor)
    (t : Tables) (found : Option GameAccount)
    → get_for_update account_id t ≡ found
    → Change t (snapshot_found digest game actor t found).0
unfolding ensure_locked save_snapshot
snapshot_found-Change digest game account_id actor t none h = nothing refl refl
snapshot_found-Change digest game account_id actor t (some row) h =
    rolled_back-Change t
      (with_resolution t (ensure_locked game t actor row) (save_snapshot digest game))
      (with_resolution-Change account_id game t actor row (ensure_locked game t actor row)
        (save_snapshot digest game) h refl (saving digest game t))

pub snapshot-Change :
    (digest : Option (Text × IdleSummary) → Text) (game : Game) (account_id : ℕ) (actor : Actor)
    (t : Tables)
    → Change t (snapshot digest game account_id actor t).0
unfolding snapshot
snapshot-Change digest game account_id actor t =
    snapshot_found-Change digest game account_id actor t (get_for_update account_id t) refl

resolved-Works :
    (t : Tables) (game : Game) (actor : Actor) (row : GameAccount) (r : Result Resolution)
    → Allows game t actor row r
    → Resolves t row r
    → Works t row (resolved r)
resolved-Works t game actor row (raised e) a m = tt
resolved-Works t game actor row (ok q) a m = record { allowed = a; marks = m }

pub ensure_session-Change :
    (game : Game) (account_id : ℕ) (actor : Actor) (t : Tables)
    → Change t (ensure_session game account_id actor t).0
unfolding ensure_session
ensure_session-Change game account_id actor t =
    on_row-Change account_id t (λ row. resolved (ensure_locked game t actor row))
      λ row.
        resolved-Works t game actor row (ensure_locked game t actor row)
          (ensure_locked-Allows game t actor row) (ensure_locked-Resolves game t actor row)

module _ {A : Type 0} (digest : Option (Text × IdleSummary) → Text) (game : Game)
    (policy : Result ℕ) (body : Text → ℕ → AccountSnapshot → Result A) (account_id : ℕ)
    (actor : Actor) (t : Tables) where
  entered :
      (u : Tables) (out : Outcome AccountSnapshot) (api : Option (Text × Text))
      → Change t u
      → Change t out.0
      → Change t (enter_api policy body t u out api).0
  entered u out none c d = c
  entered u out (some (token, identity)) c d =
      rolled_back-Change t (out.0, out.1 >>= λ s. policy >>= λ v. body token v s) d

  entering :
      (q : Resolution) (u : Tables) → Change t u → Change t (enter digest game policy body t q u).0
  unfolding save_snapshot
  entering q u c = entered u (save_snapshot digest game q u) q.api c (saving digest game t q u c)

  mutable_only-Change :
      (r : Result (Unit {0})) (next : Outcome A)
      → Change t next.0
      → Change t (mutable_only t r next).0
  mutable_only-Change (raised e) next c = nothing refl refl
  mutable_only-Change (ok u) next c = c

  locked_found-Change :
      (found : Option GameAccount)
      → get_for_update account_id t ≡ found
      → Change t (locked_found digest game policy body actor t found).0
  unfolding ensure_locked save_snapshot
  locked_found-Change none h = nothing refl refl
  locked_found-Change (some row) h = mutable_only-Change (require_mutable row) _ (
      with_resolution-Change account_id game t actor row (ensure_locked game t actor row)
        (enter digest game policy body t) h refl entering)

  pub locked-Change : Change t (locked digest game policy body account_id actor t).0
  unfolding locked
  locked-Change = locked_found-Change (get_for_update account_id t) refl
