-- ===== src/Accounts/Registry/Sent.antt =====
-- The answer to the operation of `mutate` (accounts/service.py), and its attempts together, as changes of
-- the accounts.
use placegame_mcp.Errors.{Error, Result, ok, raised}
use placegame_mcp.Prelude.{
  ℕ, zero, suc, ◌+◌, ◌≡◌, refl, sym, ap, ◌∙◌, arith, Bool, true, false, Option, none, some, leb,
  first, Bool-cases, Option-cases, inl, inr,
}
use placegame_mcp.Text.{Actor, codes}
use placegame_mcp.Plans.Rows.{PlanState, ExecutionResult, executed, failed, reconciliation_required}
use placegame_mcp.Plans.Store
use placegame_mcp.Plans.Store.{by_id}
use placegame_mcp.Accounts.Rows.{GameAccount, Tables, get_for_update}
use placegame_mcp.Accounts.Session.{is_session_rejected}
use placegame_mcp.Accounts.Session.Identity.{untouched}
use placegame_mcp.Accounts.Registry.{unmarked, one_row, Reach, start, later}
use placegame_mcp.Accounts.Registry.Operations.{own}
use placegame_mcp.Accounts.Registry.Mutated.{Quiet, quietly, Holds, Reaches, prepare-Reaches}
use placegame_mcp.Accounts.Mutation.{
  Reply, returned, raises, cancelled, Mutation, Progress, Step, prepare,
}
use placegame_mcp.Accounts.Mutation.Handling.{
  Ending, succeeds, fails, cancels, aborts, retries, Ended, is_conflict, is_ambiguous, with_plans,
  close, log, concluded, cancel, stamped, mark_success, succeeded, succeed, on_verified,
  on_ambiguous, on_value, on_conflict, on_error, on_rejected, handle, status,
}
use placegame_mcp.Accounts.Mutation.Loop.{
  again, send, attempts, pending_error, terminal, failure, close_failed, open_plan, failed_answer,
  settle, mutate,
}

abbrev Ends : {A : Type 0} → Tables → Ended A → Type 0
Ends t (p, ending) = Reach t p.tables

plans_only : (u : Tables) (out : Store.Outcome (Unit {0})) → Quiet u (with_plans u out).0
plans_only u (s, r) = (refl, refl)

close-Quiet :
    (plan : Option ℕ) (state : PlanState) (result : ExecutionResult) (now : ℕ) (u : Tables)
    → Quiet u (close plan state result now u).0
unfolding close
close-Quiet none state result now u = (refl, refl)
close-Quiet (some i) state result now u = plans_only u (Store.finish i state result now u.plans)

module _ {A : Type 0} (m : Mutation A) (actor : Actor) (attempt : ℕ) (t : Tables) (p : Progress)
    (reached : Reach t p.tables) (holds : Holds p) where
  concluded-Ends :
      (result : ExecutionResult) (c : Bool) (ending : Ending A) (u : Tables)
      (out : Tables × Result (Unit {0}))
      → Reach t u
      → Quiet u out.0
      → Ends t (concluded actor p result c ending out)
  concluded-Ends result c ending u (v, ok x) r q = quietly (log actor p result v) r (q.0, q.1)
  concluded-Ends result c ending u (v, raised e) r q = quietly v r q

  cancel-Ends : (now : ℕ) → Ends {A = A} t (cancel actor now p)
  unfolding cancel
  cancel-Ends now =
      concluded-Ends _ true cancels p.tables (close p.plan reconciliation_required _ now p.tables)
        reached (close-Quiet p.plan reconciliation_required _ now p.tables)

  stamp-Reach :
      (now : ℕ) (found : Option GameAccount)
      → get_for_update holds.row.id p.tables ≡ found
      → Reach t (stamped now p.tables found)
  stamp-Reach now none h = reached
  stamp-Reach now (some row) h =
      let e : holds.row ≡ row = ground (arith, h, holds.is_there) in
      later reached (
        one_row row (record row { last_success_at = some now }) (own holds.row.id p.tables row h)
          (untouched p.tables row (record row { last_success_at = some now }) refl refl)
          (unmarked row (record row { last_success_at = some now })
            (rw (sym (ap (λ x. x.paused_reason) e) ∙ holds.is_unpaused) refl))
          refl refl)

  success-Reach : (now : ℕ) → Reach t (mark_success p.account now p.tables)
  unfolding mark_success
  success-Reach now =
      rw holds.is_account (stamp-Reach now (get_for_update holds.row.id p.tables) refl)

  succeed-Ends : (now : ℕ) (b : Bool) (v : Option A) → Ends t (succeed actor now b v p)
  unfolding succeed
  succeed-Ends now b v =
      concluded-Ends (succeeded b) false
        (succeeds (record { applied = true; reconciled = b; result = v }))
        (mark_success p.account now p.tables)
        (close p.plan executed (succeeded b) now (mark_success p.account now p.tables))
        (success-Reach now)
        (close-Quiet p.plan executed (succeeded b) now (mark_success p.account now p.tables))

  on_verified-Ends :
      (b : Bool) (v : Option A) (r : Reply Bool) → Ends t (on_verified m actor attempt b v p r)
  unfolding on_verified
  on_verified-Ends b v (returned true) = succeed-Ends (m.game attempt).now b v
  on_verified-Ends b v (returned false) = reached
  on_verified-Ends b v (raises e) = reached
  on_verified-Ends b v cancelled = cancel-Ends (m.game attempt).now

  on_ambiguous-Ends :
      (verify : ℕ → Option A → Reply Bool) (r : Reply (Unit {0}))
      → Ends t (on_ambiguous m actor attempt verify p r)
  unfolding on_ambiguous
  on_ambiguous-Ends verify (returned u) = on_verified-Ends true none (verify attempt none)
  on_ambiguous-Ends verify (raises e) = reached
  on_ambiguous-Ends verify cancelled = cancel-Ends (m.game attempt).now

  on_value-Ends : (v : A) (r : Reply (Unit {0})) → Ends t (on_value m actor attempt v p r)
  unfolding on_value
  on_value-Ends v (returned u) = elim (Option-cases m.verify) [
    | inl e ↦ rw e (succeed-Ends (m.game attempt).now false (some v))
    | inr (f, e) ↦ rw e (on_verified-Ends false (some v) (f attempt (some v)))
  ]
  on_value-Ends v (raises e) = reached
  on_value-Ends v cancelled = cancel-Ends (m.game attempt).now

  on_conflict-Ends : (r : Reply (Unit {0})) → Ends {A = A} t (on_conflict m actor attempt p r)
  unfolding on_conflict
  on_conflict-Ends (returned u) = reached
  on_conflict-Ends (raises e) = reached
  on_conflict-Ends cancelled = reached

  on_rejected-Ends :
      (out : Tables × Result (Unit {0})) → Quiet p.tables out.0 → Ends {A = A} t (on_rejected p out)
  on_rejected-Ends (u, ok x) q = quietly u reached q
  on_rejected-Ends (u, raised e) q = quietly u reached q

  on_error-Ends : (e : Error) → Ends t (on_error m actor attempt e p)
  unfolding on_error
  on_error-Ends e = elim (Bool-cases (is_conflict e)) [
    | inl c ↦ elim (Bool-cases (leb 2 attempt)) [
      | inl last ↦ rw (c, last) reached
      | inr more ↦ rw (c, more) (on_conflict-Ends (m.reread attempt))
    ]
    | inr c ↦ elim (Bool-cases (is_ambiguous e)) [
      | inl a ↦ elim (Option-cases m.verify) [
        | inl v ↦ rw (c, a, v) reached
        | inr (f, v) ↦ rw (c, a, v) (on_ambiguous-Ends f (m.reread attempt))
      ]
      | inr a ↦ elim (Bool-cases (is_session_rejected e)) [
        | inl r ↦
            rw (c, a, r)
              (on_rejected-Ends
                (close p.plan failed (status (codes "rejected")) (m.game attempt).now p.tables)
                (close-Quiet p.plan failed (status (codes "rejected")) (m.game attempt).now
                  p.tables))
        | inr r ↦ rw (c, a, r) reached
      ]
    ]
  ]

  pub handle-Ends : (r : Reply A) → Ends t (handle m actor attempt p r)
  unfolding handle
  handle-Ends (returned v) = on_value-Ends v (m.reread attempt)
  handle-Ends (raises e) = on_error-Ends e
  handle-Ends cancelled = cancel-Ends (m.game attempt).now

pub Reach-append : {t u v : Tables} → Reach t u → Reach u v → Reach t v
Reach-append r start = r
Reach-append r (later s c) = later (Reach-append r s) c

module _ {A : Type 0} (m : Mutation A) (actor : Actor) (account_id : ℕ) where
  send-Ends :
      (attempt : ℕ) (t : Tables) (s : Step) → Reaches t s → Ends t (send m actor attempt s).1
  unfolding send
  send-Ends attempt t (p, raised e) r = r
  send-Ends attempt t (p, ok u) (r, h) =
      handle-Ends m actor attempt t (record p { sent = true }) r
        (record {
          row = h.row;
          is_account = h.is_account;
          is_there = h.is_there;
          is_unpaused = h.is_unpaused;
        })
        (m.operation attempt)

  again-Ends :
      (t : Tables) (out : ℕ × Ended A) (next : Tables → ℕ × Ended A)
      → Ends t out.1
      → ((u : Tables) → Ends u (next u).1)
      → Ends t (again out next).1
  again-Ends t (n, (p, retries)) next r f = Reach-append r (f p.tables)
  again-Ends t (n, (p, succeeds o)) next r f = r
  again-Ends t (n, (p, fails c e)) next r f = r
  again-Ends t (n, (p, cancels)) next r f = r
  again-Ends t (n, (p, aborts)) next r f = r

  attempts-Ends :
      (left attempt : ℕ) (t : Tables) → Ends t (attempts m actor account_id left attempt t).1
  unfolding attempts
  attempts-Ends zero attempt t = start
  attempts-Ends (suc left) attempt t =
      again-Ends t (send m actor attempt (prepare m actor attempt account_id t))
        (attempts m actor account_id left (attempt + 1))
        (send-Ends attempt t (prepare m actor attempt account_id t)
          (prepare-Reaches m actor attempt t account_id))
        (attempts-Ends left (attempt + 1))

close_failed-Quiet :
    (plan : Option ℕ) (state : Option PlanState) (e : Error) (now : ℕ) (u : Tables)
    → Quiet u (close_failed plan state e now u).0
unfolding close_failed
close_failed-Quiet none state e now u = (refl, refl)
close_failed-Quiet (some i) none e now u = (refl, refl)
close_failed-Quiet (some i) (some state) e now u =
    elim (Bool-cases (open_plan (first (by_id i) u.plans.rows))) [
      | inl h ↦ rw h (close-Quiet (some i) state (failure state e) now u)
      | inr h ↦ rw h (refl, refl)
    ]

failed-Reach :
    (A : Type 0) (actor : Actor) (t : Tables) (p : Progress) (c : Bool) (e : Error)
    (out : Tables × Result (Unit {0}))
    → Reach t p.tables
    → Quiet p.tables out.0
    → Reach t (failed_answer {A = A} actor t p c e out).0
failed-Reach A actor t p c e (u, raised x) r q = start
failed-Reach A actor t p c e (u, ok w) r q = quietly (log actor p _ u) r (q.0, q.1)

settle-Reach :
    {A : Type 0} (actor : Actor) (now : ℕ) (t : Tables) (e : Ended A)
    → Ends t e
    → Reach t (settle actor now t e).0
unfolding settle
settle-Reach actor now t (p, succeeds o) r = r
settle-Reach {A = A} actor now t (p, fails c e) r =
    failed-Reach A actor t p c (pending_error e)
      (close_failed p.plan (terminal e p.sent) (pending_error e) now p.tables) r
      (close_failed-Quiet p.plan (terminal e p.sent) (pending_error e) now p.tables)
settle-Reach actor now t (p, cancels) r = r
settle-Reach actor now t (p, aborts) r = start
settle-Reach actor now t (p, retries) r = start

pub mutate-Reach :
    {A : Type 0} (m : Mutation A) (now account_id : ℕ) (actor : Actor) (t : Tables)
    → Reach t (mutate m now account_id actor t).0
unfolding mutate
mutate-Reach m now account_id actor t =
    settle-Reach actor now t (attempts m actor account_id 3 0 t).1
      (attempts-Ends m actor account_id 3 0 t)
