-- ===== src/Accounts/Mutation/Success.antt =====
-- What a mutation that succeeds has done to its plan.
use placegame_mcp.Errors.{Error, Result, ok, raised}
use placegame_mcp.Prelude.{ℕ, zero, suc, ◌+◌, ◌≡◌, ◌≢◌, refl, ◌∙◌, arith, Bool, true, false, some}
use placegame_mcp.Text.{Actor}
use placegame_mcp.Plans.Rows.{executed}
use placegame_mcp.Accounts.Rows.{Tables}
use placegame_mcp.Accounts.Mutation.{returned, Mutation, Progress, Step, prepare}
use placegame_mcp.Accounts.Mutation.Handling.{
  succeeds, fails, cancels, aborts, retries, Ended, handle, MutationOutcome,
}
use placegame_mcp.Accounts.Mutation.Loop.{
  again, send, attempts, settle, mutate, failed_answer, pending_error,
}
use placegame_mcp.Accounts.Mutation.Endings.{plan_state, Sent, Ends, handle-Ends}
use placegame_mcp.Accounts.Mutation.Prepared.{Prepares, Ready, prepare-Prepares}

-- What a success says of the plan of the mutation.
abbrev Executes : {A : Type 0} → Mutation A → Ended A → Type 0
Executes m (p, succeeds o) = (i : ℕ) → m.plan_id ≡ some i → plan_state i p.tables ≡ some executed
Executes m (p, fails c e) = Unit
Executes m (p, cancels) = Unit
Executes m (p, aborts) = Unit
Executes m (p, retries) = Unit

module _ {A : Type 0} (m : Mutation A) (actor : Actor) (account_id : ℕ) where
  sent_plan :
      (p : Progress) (i : ℕ) → Ready m p → m.plan_id ≡ some i → Sent i (record p { sent = true })
  sent_plan p i r h = record { has_plan = r.given ∙ h; has_sent = refl; has_open = r.opened i h }

  ended_success : (e : Ended A) → ((i : ℕ) → m.plan_id ≡ some i → Ends i e) → Executes m e
  ended_success (p, succeeds o) f = f
  ended_success (p, fails c e) f = tt
  ended_success (p, cancels) f = tt
  ended_success (p, aborts) f = tt
  ended_success (p, retries) f = tt

  send-Executes : (attempt : ℕ) (s : Step) → Prepares m s → Executes m (send m actor attempt s).1
  unfolding send
  send-Executes attempt (p, raised e) r = tt
  send-Executes attempt (p, ok u) r =
      ended_success (handle m actor attempt (record p { sent = true }) (m.operation attempt)) λ i h.
        handle-Ends m actor attempt i (record p { sent = true }) (sent_plan p i r h)
          (m.operation attempt)

  again-Executes :
      (out : ℕ × Ended A) (next : Tables → ℕ × Ended A)
      → Executes m out.1
      → ((t : Tables) → Executes m (next t).1)
      → Executes m (again out next).1
  again-Executes (k, (p, retries)) next x f = f p.tables
  again-Executes (k, (p, succeeds o)) next x f = x
  again-Executes (k, (p, fails c e)) next x f = tt
  again-Executes (k, (p, cancels)) next x f = tt
  again-Executes (k, (p, aborts)) next x f = tt

  attempts-Executes :
      (left attempt : ℕ) (t : Tables) → Executes m (attempts m actor account_id left attempt t).1
  unfolding attempts
  attempts-Executes zero attempt t = tt
  attempts-Executes (suc left) attempt t =
      again-Executes (send m actor attempt (prepare m actor attempt account_id t))
        (attempts m actor account_id left (attempt + 1))
        (send-Executes attempt (prepare m actor attempt account_id t)
          (prepare-Prepares m actor attempt account_id t))
        (attempts-Executes left (attempt + 1))

  failed_not_returned :
      (t : Tables) (p : Progress) (c : Bool) (e : Error) (out : Tables × Result (Unit {0}))
      (o : MutationOutcome A)
      → (failed_answer actor t p c e out).1 ≢ returned o
  failed_not_returned t p true e (u, ok w) o h = ground (arith, h)
  failed_not_returned t p false e (u, ok w) o h = ground (arith, h)
  failed_not_returned t p c e (u, raised x) o h = ground (arith, h)

  settle-Executes :
      (now i : ℕ) (t : Tables) (e : Ended A) (o : MutationOutcome A)
      → Executes m e
      → m.plan_id ≡ some i
      → (settle actor now t e).1 ≡ returned o
      → plan_state i (settle actor now t e).0 ≡ some executed
  unfolding settle
  settle-Executes now i t (p, succeeds x) o f h r = f i h
  settle-Executes now i t (p, fails c e) o f h r =
      absurd (failed_not_returned t p c (pending_error e) _ o r)
  settle-Executes now i t (p, cancels) o f h r = ground (arith, r)
  settle-Executes now i t (p, aborts) o f h r = ground (arith, r)
  settle-Executes now i t (p, retries) o f h r = ground (arith, r)

-- Where `mutate` returns, and does not raise, the plan that it was given is executed.
pub mutate-executed :
    {A : Type 0} (m : Mutation A) (actor : Actor) (now account_id plan_id : ℕ) (t : Tables)
    (o : MutationOutcome A)
    → m.plan_id ≡ some plan_id
    → (mutate m now account_id actor t).1 ≡ returned o
    → plan_state plan_id (mutate m now account_id actor t).0 ≡ some executed
unfolding mutate
mutate-executed m actor now account_id plan_id t o h r =
    settle-Executes m actor account_id now plan_id t (attempts m actor account_id 3 0 t).1 o
      (attempts-Executes m actor account_id 3 0 t) h r
