-- ===== src/Accounts/Mutation/Fate.antt =====
-- The plan of a mutation that has been sent.
use placegame_mcp.Errors.{Error, Result, ok, raised}
use placegame_mcp.Prelude.{
  ℕ, ◌≡◌, ◌⊎◌, refl, arith, Bool, true, false, Option, some, first, inl, inr, Bool-cases, ◌||◌,
}
use placegame_mcp.Text.{Actor}
use placegame_mcp.Plans.Rows.{ActionPlan, PlanState, executed, failed, reconciliation_required}
use placegame_mcp.Plans.Store.{by_id, is_terminal}
use placegame_mcp.Accounts.Rows.{Tables}
use placegame_mcp.Accounts.Mutation.{Reply, returned, raises, cancelled, Mutation, Progress}
use placegame_mcp.Accounts.Mutation.Handling.{
  Ending, succeeds, fails, cancels, aborts, retries, Ended, is_conflict, is_precondition, close,
  handle,
}
use placegame_mcp.Accounts.Mutation.Loop.{
  Answer, pending_error, terminal, failure, close_failed, open_plan, failed_answer, settle,
}
use placegame_mcp.Accounts.Mutation.Endings.{
  state_of, Ends, Sent, close_closes, handle-Ends, is_open_state, plan_state,
}

abbrev pub IsClosed : ℕ → Tables → Type 0
IsClosed plan_id u =
    (plan_state plan_id u ≡ some failed) ⊎ (plan_state plan_id u ≡ some reconciliation_required)

-- The plan of an answer: executed where a value is returned, and else failed or to be reconciled.
abbrev pub IsFate : {A : Type 0} → ℕ → Tables × Answer A → Type 0
IsFate plan_id (t, returned o) = plan_state plan_id t ≡ some executed
IsFate plan_id (t, raises e) = IsClosed plan_id t
IsFate plan_id (t, cancelled) = IsClosed plan_id t

-- Whether the attempt is the last one, and its transaction is committed.
abbrev pub is_last : {A : Type 0} → Ending A → Bool
is_last aborts = false
is_last retries = false
is_last (succeeds o) = true
is_last (fails c e) = true
is_last cancels = true

failed_answer-IsFate :
    (A : Type 0) (actor : Actor) (t : Tables) (plan_id : ℕ) (p : Progress) (c : Bool) (e : Error)
    (out : Tables × Result (Unit {0}))
    → out.1 ≡ ok tt
    → IsClosed plan_id out.0
    → IsFate {A = A} plan_id (failed_answer actor t p c e out)
failed_answer-IsFate A actor t plan_id p true e (u, ok w) h k = k
failed_answer-IsFate A actor t plan_id p false e (u, ok w) h k = k
failed_answer-IsFate A actor t plan_id p c e (u, raised x) h k = absurd (ground (arith, h))

-- A failure closes a plan that is open, and leaves one that has failed.
closes_with :
    (plan_id now : ℕ) (state : PlanState) (x : Error) (u : Tables)
    → is_terminal state ≡ true
    → (plan_state plan_id (close (some plan_id) state (failure state x) now u).0 ≡ some state
        → IsClosed plan_id (close (some plan_id) state (failure state x) now u).0)
    → (is_open_state (plan_state plan_id u) ≡ true) ⊎ (plan_state plan_id u ≡ some failed)
    → ((close_failed (some plan_id) (some state) x now u).1 ≡ ok tt)
      × IsClosed plan_id (close_failed (some plan_id) (some state) x now u).0
unfolding close_failed
closes_with plan_id now state x u h f (inl o) =
    let c = close_closes plan_id now state (failure state x) u h o in
    rw (open_not_terminal (first (by_id plan_id) u.plans.rows) o) (c.0, f c.1)
  where
    open_not_terminal :
        (o : Option ActionPlan) → is_open_state (state_of o) ≡ true → open_plan o ≡ true
    open_not_terminal o h = ground arith
closes_with plan_id now state x u h f (inr failed_already) =
    rw (failed_not_open (first (by_id plan_id) u.plans.rows) failed_already)
      (refl, inl failed_already)
  where
    failed_not_open : (o : Option ActionPlan) → state_of o ≡ some failed → open_plan o ≡ false
    failed_not_open o h = ground arith

close_failed-closes :
    (plan_id now : ℕ) (e x : Error) (u : Tables)
    → (is_open_state (plan_state plan_id u) ≡ true) ⊎ (plan_state plan_id u ≡ some failed)
    → ((close_failed (some plan_id) (terminal e true) x now u).1 ≡ ok tt)
      × IsClosed plan_id (close_failed (some plan_id) (terminal e true) x now u).0
unfolding terminal
close_failed-closes plan_id now e x u k = elim (Bool-cases (is_precondition e || is_conflict e)) [
  | inl b ↦ rw b (closes_with plan_id now failed x u refl (λ s. inl s) k)
  | inr b ↦ rw b (closes_with plan_id now reconciliation_required x u refl (λ s. inr s) k)
]

fails-IsFate :
    (A : Type 0) (actor : Actor) (now : ℕ) (t : Tables) (plan_id : ℕ) (p : Progress) (c : Bool)
    (e : Error) (plan : Option ℕ) (sent : Bool)
    → plan ≡ some plan_id
    → sent ≡ true
    → (is_open_state (plan_state plan_id p.tables) ≡ true)
      ⊎ (plan_state plan_id p.tables ≡ some failed)
    → IsFate {A = A} plan_id (
        failed_answer actor t p c
          (pending_error e)
          (close_failed plan (terminal e sent) (pending_error e) now p.tables))
fails-IsFate A actor now t plan_id p c e plan sent f g k =
    let closed = close_failed-closes plan_id now e (pending_error e) p.tables k in
    rw (f, g)
      (failed_answer-IsFate A actor t plan_id p c (pending_error e)
        (close_failed (some plan_id) (terminal e true) (pending_error e) now p.tables) closed.0
        closed.1)

settle-IsFate :
    {A : Type 0} (actor : Actor) (now : ℕ) (t : Tables) (plan_id : ℕ) (e : Ended A)
    → Ends plan_id e
    → is_last e.1 ≡ true
    → IsFate plan_id (settle actor now t e)
unfolding settle
settle-IsFate actor now t plan_id (p, succeeds o) s h = s
settle-IsFate {A = A} actor now t plan_id (p, fails c e) s h =
    fails-IsFate A actor now t plan_id p c e p.plan p.sent s.is_plan s.is_sent s.is_left
settle-IsFate actor now t plan_id (p, cancels) s h = inr s
settle-IsFate actor now t plan_id (p, aborts) s h = absurd (ground (arith, h))
settle-IsFate actor now t plan_id (p, retries) s h = absurd (ground (arith, h))

-- Once the operation is sent for an open plan, then whatever the game answers and however the checks
-- that follow go, an attempt that is the last one, and whose transaction is committed, leaves the plan
-- executed if `mutate` returns, and failed or to be reconciled if it raises.
pub settle-handle-IsFate :
    {A : Type 0} (m : Mutation A) (actor : Actor) (attempt now plan_id : ℕ) (t : Tables)
    (p : Progress) (r : Reply A)
    → Sent plan_id p
    → is_last (handle m actor attempt p r).1 ≡ true
    → IsFate plan_id (settle actor now t (handle m actor attempt p r))
settle-handle-IsFate m actor attempt now plan_id t p r s h =
    settle-IsFate actor now t plan_id (handle m actor attempt p r)
      (handle-Ends m actor attempt plan_id p s r) h
