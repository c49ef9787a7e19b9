-- ===== src/Accounts/Mutation/Loop.antt =====
-- `AccountService.mutate` (accounts/service.py): its attempts, and the end of its transaction.
use placegame_mcp.Errors
use placegame_mcp.Errors.{Error, Result, ok, raised}
use placegame_mcp.Prelude.{
  ℕ, zero, suc, ◌+◌, Bool, true, ◌||◌, not, Option, none, some, [], ◌∷◌, first, if◌then◌else◌,
}
use placegame_mcp.Text.{Actor, codes}
use placegame_mcp.Plans.Rows.{
  ActionPlan, PlanState, failed, reconciliation_required, ExecutionResult, text,
}
use placegame_mcp.Plans.Store.{by_id, is_terminal}
use placegame_mcp.Accounts.Rows.{Tables}
use placegame_mcp.Accounts.Secrets.{is_account_error}
use placegame_mcp.Accounts.Mutation.{
  Reply, returned, raises, cancelled, Mutation, Progress, Step, begun, prepare,
}
use placegame_mcp.Accounts.Mutation.Handling.{
  Ended, MutationOutcome, aborts, cancels, close, error_name, fail, fails, handle, is_conflict,
  is_game_error, is_precondition, log, retries, status, succeeds,
}

-- Another attempt begins with the tables that the last one left.
abbrev pub again : {A : Type 0} → ℕ × Ended A → (Tables → ℕ × Ended A) → ℕ × Ended A
again (n, (p, retries)) next = (n + (next p.tables).0, (next p.tables).1)
again (n, (p, succeeds o)) next = (n, (p, succeeds o))
again (n, (p, fails c e)) next = (n, (p, fails c e))
again (n, (p, cancels)) next = (n, (p, cancels))
again (n, (p, aborts)) next = (n, (p, aborts))

module _ {A : Type 0} (m : Mutation A) (actor : Actor) where
  unfoldable pub send : ℕ → Step → ℕ × Ended A
  unfolding handle
  send attempt (p, raised e) = (0, fail e p)
  send attempt (p, ok u) =
      (1, handle m actor attempt (record p { sent = true }) (m.operation attempt))

  -- The loop, with the attempts that are left, and how many times the operation has been sent.
  unfoldable pub attempts : ℕ → ℕ → ℕ → Tables → ℕ × Ended A
  unfolding send prepare
  attempts account_id zero attempt t = (0, fail Errors.other_exception (begun t))
  attempts account_id (suc left) attempt t =
      again (send attempt (prepare m actor attempt account_id t))
        (attempts account_id left (attempt + 1))

-- What `mutate` returns or raises.
abbrev pub Answer : Type 0 → Type 0
Answer A = Reply (MutationOutcome A)

abbrev pub pending_error : Error → Error
pending_error e =
    if is_account_error e || is_game_error e then e else Errors.reconciliation_required

-- The state that a failure leaves the plan in, if any.
unfoldable pub terminal : Error → Bool → Option PlanState
terminal e sent =
    if is_precondition e || is_conflict e
    then some failed
    else if sent
    then some reconciliation_required
    else none

abbrev pub failure : PlanState → Error → ExecutionResult
failure failed e =
    (codes "status", text (codes "failed")) ∷ (codes "error", text (error_name e)) ∷ []
failure _ e = status (codes "ambiguous")

abbrev pub open_plan : Option ActionPlan → Bool
open_plan none = true
open_plan (some plan) = not (is_terminal plan.execution_state)

-- The plan is closed where the failure is its end, and where it is not closed yet.
unfoldable pub close_failed :
    Option ℕ → Option PlanState → Error → ℕ → Tables → Tables × Result (Unit {0})
unfolding close
close_failed none state e now t = (t, ok tt)
close_failed (some plan_id) none e now t = (t, ok tt)
close_failed (some plan_id) (some state) e now t =
    if open_plan (first (by_id plan_id) t.plans.rows)
    then close (some plan_id) state (failure state e) now t
    else (t, ok tt)

-- The audit event of the failure; where the closing raises, the transaction is rolled back.
abbrev pub failed_answer :
    {A : Type 0}
    → Actor
    → Tables
    → Progress
    → Bool
    → Error
    → Tables × Result (Unit {0})
    → Tables × Answer A
failed_answer actor t p c e (u, raised x) = (t, raises x)
failed_answer actor t p c e (u, ok w) = (
  log actor p ((codes "status", text (codes "failed")) ∷ (codes "error", text (error_name e)) ∷ [])
      u,
  if c then cancelled else raises e,
)

-- The end of the transaction that began with the tables `t`.
unfoldable pub settle : {A : Type 0} → Actor → ℕ → Tables → Ended A → Tables × Answer A
unfolding close_failed terminal
settle actor now t (p, succeeds outcome) = (p.tables, returned outcome)
settle actor now t (p, fails c e) =
    failed_answer actor t p c (pending_error e)
      (close_failed p.plan (terminal e p.sent) (pending_error e) now p.tables)
settle actor now t (p, cancels) = (p.tables, cancelled)
settle actor now t (p, aborts) = (t, cancelled)
settle actor now t (p, retries) = (t, cancelled)

-- The clock of the end is `now`.
unfoldable pub mutate : {A : Type 0} → Mutation A → ℕ → ℕ → Actor → Tables → Tables × Answer A
unfolding attempts settle
mutate m now account_id actor t = settle actor now t (attempts m actor account_id 3 0 t).1
