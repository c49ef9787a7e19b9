-- ===== src/Accounts/Mutation/Prepared.antt =====
-- What an attempt of a mutation has made sure of before the operation is sent.
use placegame_mcp.Errors.{Result, ok, raised, ◌>>◌, Result-cases}
use placegame_mcp.Prelude.{
  ℕ, ◌≡◌, refl, sym, ◌∙◌, arith, Bool, true, false, Option, none, some, ◌==◌, first, Bool-cases,
  inl, inr,
}
use placegame_mcp.Text.{Text, Actor}
use placegame_mcp.Plans.Rows.{ActionPlan}
use placegame_mcp.Plans.Store.{by_id, is_open}
use placegame_mcp.Accounts.Rows.{GameAccount, AccountSnapshot, Tables, get_for_update, write}
use placegame_mcp.Accounts.Session.Resolve.{Resolution, ensure_locked}
use placegame_mcp.Accounts.Lifecycle.{Outcome, require_mutable}
use placegame_mcp.Accounts.Snapshots.{save_snapshot}
use placegame_mcp.Accounts.Mutation.{
  Mutation, Progress, begun, Step, plan_usable, require, check_fingerprint, check_candidate,
  check_plan, after_snapshot, with_api, after_session, if_mutable, prepare_row, prepare,
}
use placegame_mcp.Accounts.Mutation.Endings.{plan_state, is_open_state}

-- A prepared attempt has the plan that was asked for, and finds it open.
pub record Ready {A : Type 0} (m : Mutation A) (p : Progress) : Type 0 where
  pub given : p.plan ≡ m.plan_id
  pub opened : (i : ℕ) → m.plan_id ≡ some i → is_open_state (plan_state i p.tables) ≡ true

abbrev pub Prepares : {A : Type 0} → Mutation A → Step → Type 0
Prepares m (p, raised e) = Unit
Prepares m (p, ok u) = Ready m p

module _ {A : Type 0} (m : Mutation A) (actor : Actor) (attempt : ℕ) where
  usable_open :
      (now version : ℕ) (plan : ActionPlan)
      → plan_usable now version plan ≡ true
      → is_open plan.execution_state ≡ true
  unfolding plan_usable
  usable_open now version plan h = ground arith

  checked :
      (p : Progress) (plan : ActionPlan) (b : Bool) (r : Result (Unit {0}))
      → (b ≡ true → Ready m p)
      → Prepares m (p, require b >> r)
  checked p plan false r k = tt
  checked p plan true (ok u) k = k refl
  checked p plan true (raised e) k = tt

  check_candidate-Prepares :
      (i account_id version : ℕ) (p : Progress) (found : Option ActionPlan)
      → m.plan_id ≡ some i
      → first (by_id i) p.tables.plans.rows ≡ found
      → Prepares m (check_candidate m actor attempt i account_id version p found)
  unfolding check_candidate
  check_candidate-Prepares i account_id version p none h k = tt
  check_candidate-Prepares i account_id version p (some plan) h k =
      elim (Bool-cases (plan.account_id == account_id)) [
        | inl a ↦ rw a (
            checked (record p { plan = some i }) plan
              (plan_usable (m.game attempt).now version plan)
              (check_fingerprint plan attempt m.state_fingerprint)
              λ u. record {
                given = sym h;
                opened = λ j e.
                    let same : i ≡ j = ground (arith, h, e) in
                    rw (sym same, k) (usable_open (m.game attempt).now version plan u);
              })
        | inr a ↦ rw a tt
      ]

  check_plan-Prepares :
      (account_id : ℕ) (p : Progress) (asked : Option ℕ) (version : Result ℕ)
      → m.plan_id ≡ asked
      → p.plan ≡ none
      → Prepares m (check_plan m actor attempt account_id p asked version)
  unfolding check_plan
  check_plan-Prepares account_id p asked (raised e) h k = tt
  check_plan-Prepares account_id p none (ok version) h k = record {
    given = k ∙ sym h;
    opened = λ i e. absurd (ground (arith, h, e));
  }
  check_plan-Prepares account_id p (some i) (ok version) h k =
      check_candidate-Prepares i account_id version p (first (by_id i) p.tables.plans.rows) h refl

  after_snapshot-Prepares :
      (account_id : ℕ) (p : Progress) (out : Outcome AccountSnapshot)
      → p.plan ≡ none
      → Prepares m (after_snapshot m actor attempt account_id p out)
  unfolding after_snapshot
  after_snapshot-Prepares account_id p (t, raised e) k = tt
  after_snapshot-Prepares account_id p (t, ok s) k =
      check_plan-Prepares account_id (record p { tables = t }) m.plan_id (m.policy attempt) refl k

  with_api-Prepares :
      (account_id : ℕ) (p : Progress) (r : Resolution) (api : Option (Text × Text))
      → p.plan ≡ none
      → Prepares m (with_api m actor attempt account_id p r api)
  unfolding with_api
  with_api-Prepares account_id p r none k = tt
  with_api-Prepares account_id p r (some api) k =
      after_snapshot-Prepares account_id p (save_snapshot m.digest (m.game attempt) r p.tables) k

  if_mutable-Prepares :
      (row : GameAccount) (p : Progress) (r : Result (Unit {0}))
      → p.plan ≡ none
      → Prepares m (if_mutable m actor attempt row p r)
  unfolding if_mutable after_session
  if_mutable-Prepares row p (raised e) k = tt
  if_mutable-Prepares row p (ok u) k =
      elim (Result-cases (ensure_locked (m.game attempt) p.tables actor row)) [
        | inl (r, h) ↦ rw h (
            with_api-Prepares row.id (record p { tables = write r.work.row r.work.events p.tables })
              r r.api k)
        | inr (e, h) ↦ rw h tt
      ]

  prepare_row-Prepares :
      (t : Tables) (found : Option GameAccount) → Prepares m (prepare_row m actor attempt t found)
  unfolding prepare_row
  prepare_row-Prepares t none = tt
  prepare_row-Prepares t (some row) =
      if_mutable-Prepares row (record (begun t) { account = some row.id }) (require_mutable row)
        refl

  pub prepare-Prepares :
      (account_id : ℕ) (t : Tables) → Prepares m (prepare m actor attempt account_id t)
  unfolding prepare
  prepare-Prepares account_id t = prepare_row-Prepares t (get_for_update account_id t)
