-- ===== src/Accounts/Registry/Mutated.antt =====
-- `mutate` (accounts/service.py) as a sequence of changes of the accounts.
use placegame_mcp.Errors.{Result, ok, raised}
use placegame_mcp.Prelude.{
  ℕ, ◌≡◌, refl, sym, ap, subst, Option, none, some, first, ◌==◌, Bool-cases, inl, inr,
}
use placegame_mcp.Prelude.Keys.{first-write_self}
use placegame_mcp.Text.{Text, Actor}
use placegame_mcp.Plans.Rows.{ActionPlan}
use placegame_mcp.Plans.Store.{by_id}
use placegame_mcp.Accounts.Rows.{
  GameAccount, AccountSnapshot, Tables, get_for_update, with_id, write,
}
use placegame_mcp.Accounts.Session.Resolve.{Resolution, ensure_locked}
use placegame_mcp.Accounts.Session.Identity.{Allows, ensure_locked-Allows}
use placegame_mcp.Accounts.Session.Ready.{ensure_locked-IsReady}
use placegame_mcp.Accounts.Lifecycle.{Outcome, require_mutable}
use placegame_mcp.Accounts.Snapshots.{save_snapshot}
use placegame_mcp.Accounts.Registry.{nothing, Reach, start, later}
use placegame_mcp.Accounts.Registry.Operations.{own}
use placegame_mcp.Accounts.Registry.Resolved.{save_snapshot-keeps, resolution-Change}
use placegame_mcp.Accounts.Mutation.{
  Mutation, Progress, begun, Step, check_candidate, check_plan, after_snapshot, with_api,
  after_session, if_mutable, prepare_row, prepare,
}

-- The other tables, not the accounts.
abbrev pub Quiet : Tables → Tables → Type 0
Quiet u v = (v.accounts ≡ u.accounts) × (v.next_id ≡ u.next_id)

pub quietly : {t u : Tables} (v : Tables) → Reach t u → Quiet u v → Reach t v
quietly v r q = later r (nothing q.0 q.1)

-- The account of the progress is there and not paused.
pub record Holds (p : Progress) : Type 0 where
  pub row : GameAccount
  pub is_account : p.account ≡ some row.id
  pub is_there : get_for_update row.id p.tables ≡ some row
  pub is_unpaused : row.paused_reason ≡ none

abbrev pub Reaches : Tables → Step → Type 0
Reaches t (p, raised e) = Reach t p.tables
Reaches t (p, ok u) = Reach t p.tables × Holds p

either_way :
    (t : Tables) (p : Progress) (r : Result (Unit {0}))
    → Reach t p.tables
    → Holds p
    → Reaches t (p, r)
either_way t p (ok u) r h = (r, h)
either_way t p (raised e) r h = r

module _ {A : Type 0} (m : Mutation A) (actor : Actor) (attempt : ℕ) (t : Tables) where
  candidate-Reaches :
      (i account_id version : ℕ) (p : Progress) (found : Option ActionPlan)
      → Reach t p.tables
      → Holds p
      → Reaches t (check_candidate m actor attempt i account_id version p found)
  unfolding check_candidate
  candidate-Reaches i account_id version p none r h = r
  candidate-Reaches i account_id version p (some plan) r h =
      elim (Bool-cases (plan.account_id == account_id)) [
        | inl e ↦ rw e (
            either_way t (record p { plan = some i }) _ r
              (record {
                row = h.row;
                is_account = h.is_account;
                is_there = h.is_there;
                is_unpaused = h.is_unpaused;
              }))
        | inr e ↦ rw e r
      ]

  plan-Reaches :
      (account_id : ℕ) (p : Progress) (asked : Option ℕ) (version : Result ℕ)
      → Reach t p.tables
      → Holds p
      → Reaches t (check_plan m actor attempt account_id p asked version)
  unfolding check_plan
  plan-Reaches account_id p asked (raised e) r h = r
  plan-Reaches account_id p none (ok version) r h = (r, h)
  plan-Reaches account_id p (some i) (ok version) r h =
      candidate-Reaches i account_id version p (first (by_id i) p.tables.plans.rows) r h

  there_still :
      (i : ℕ) (u v : Tables) (row : GameAccount)
      → v.accounts ≡ u.accounts
      → get_for_update i u ≡ some row
      → get_for_update i v ≡ some row
  unfolding get_for_update
  there_still i u v row e h = subst (λ rows. first (with_id i) rows ≡ some row) (sym e) h

  snapshot-Reaches :
      (account_id : ℕ) (p : Progress) (out : Outcome AccountSnapshot)
      → Reach t p.tables
      → Holds p
      → Quiet p.tables out.0
      → Reaches t (after_snapshot m actor attempt account_id p out)
  unfolding after_snapshot
  snapshot-Reaches account_id p (u, raised e) r h q = quietly u r q
  snapshot-Reaches account_id p (u, ok s) r h q =
      plan-Reaches account_id (record p { tables = u }) m.plan_id (m.policy attempt) (quietly u r q)
        (record {
          row = h.row;
          is_account = h.is_account;
          is_there = there_still h.row.id p.tables u h.row q.0 h.is_there;
          is_unpaused = h.is_unpaused;
        })

  api-Reaches :
      (account_id : ℕ) (p : Progress) (r : Resolution) (api : Option (Text × Text))
      → Reach t p.tables
      → ((a : Text × Text) → api ≡ some a → Holds p)
      → Reaches t (with_api m actor attempt account_id p r api)
  unfolding with_api
  api-Reaches account_id p r none c h = c
  api-Reaches account_id p r (some a) c h =
      snapshot-Reaches account_id p (save_snapshot m.digest (m.game attempt) r p.tables) c
        (h a refl) (save_snapshot-keeps m.digest (m.game attempt) r p.tables)

  -- The row that a resolution has written is there.
  written_there :
      (row : GameAccount) (r : Resolution)
      → get_for_update row.id t ≡ some row
      → ensure_locked (m.game attempt) t actor row ≡ ok r
      → get_for_update r.work.row.id (write r.work.row r.work.events t) ≡ some r.work.row
  unfolding get_for_update
  written_there row r h e =
      let a =
        subst (Allows (m.game attempt) t actor row) e
          (ensure_locked-Allows (m.game attempt) t actor row) in
      first-write_self (λ x. x.id) r.work.row row r.work.row.id t.accounts refl
        (subst (λ i. first (with_id i) t.accounts ≡ some row) (sym a.same_id) h)

  session-Reaches :
      (row : GameAccount) (out : Result Resolution)
      → get_for_update row.id t ≡ some row
      → ensure_locked (m.game attempt) t actor row ≡ out
      → Reaches t
          (after_session m actor attempt row.id (record (begun t) { account = some row.id }) out)
  unfolding after_session
  session-Reaches row (raised e) h k = start
  session-Reaches row (ok r) h k =
      let a =
        subst (Allows (m.game attempt) t actor row) k
          (ensure_locked-Allows (m.game attempt) t actor row) in
      api-Reaches row.id
        (record (begun t) { account = some row.id; tables = write r.work.row r.work.events t }) r
        r.api
        (later start (resolution-Change row.id (m.game attempt) t actor row (ok r) h k r refl))
        (λ api e. record {
          row = r.work.row;
          is_account = ap some (sym a.same_id);
          is_there = written_there row r h k;
          is_unpaused =
              (ensure_locked-IsReady (m.game attempt) t actor row r api.0 api.1 k e).unpaused;
        })

  mutable-Reaches :
      (row : GameAccount) (r : Result (Unit {0}))
      → get_for_update row.id t ≡ some row
      → Reaches t (if_mutable m actor attempt row (record (begun t) { account = some row.id }) r)
  unfolding if_mutable
  mutable-Reaches row (raised e) h = start
  mutable-Reaches row (ok u) h =
      session-Reaches row (ensure_locked (m.game attempt) t actor row) h refl

  row-Reaches :
      (account_id : ℕ) (found : Option GameAccount)
      → get_for_update account_id t ≡ found
      → Reaches t (prepare_row m actor attempt t found)
  unfolding prepare_row get_for_update
  row-Reaches account_id none h = start
  row-Reaches account_id (some row) h =
      mutable-Reaches row (require_mutable row) (own account_id t row h)

  pub prepare-Reaches : (account_id : ℕ) → Reaches t (prepare m actor attempt account_id t)
  unfolding prepare
  prepare-Reaches account_id = row-Reaches account_id (get_for_update account_id t) refl
