-- ===== src/Accounts/Mutation/Endings.antt =====
-- What each ending of an attempt that has sent the operation has done to the plan.
use placegame_mcp.Errors.{Error, Result, ok, raised}
use placegame_mcp.Prelude.{
  ℕ, ◌≡◌, ◌⊎◌, refl, ap, subst, arith, Bool, true, false, Option, none, some, leb, first, inl, inr,
  Bool-cases, Option-cases,
}
use placegame_mcp.Text.{Actor, codes}
use placegame_mcp.Plans.Rows.{
  ActionPlan, PlanState, executed, failed, reconciliation_required, ExecutionResult,
}
use placegame_mcp.Plans.Store
use placegame_mcp.Plans.Store.{Plans, by_id, is_terminal, is_open}
use placegame_mcp.Plans.Store.Results.{finish-result_valid}
use placegame_mcp.Accounts.Rows.{Tables, get_for_update}
use placegame_mcp.Accounts.Session.{is_session_rejected}
use placegame_mcp.Accounts.Mutation.{Reply, returned, raises, cancelled, Mutation, Progress}
use placegame_mcp.Accounts.Mutation.Handling.{
  Ending, succeeds, fails, cancels, aborts, retries, Ended, is_conflict, is_ambiguous, close, log,
  concluded, cancel, mark_success, succeeded, succeed, on_verified, on_ambiguous, on_value,
  on_conflict, on_error, on_rejected, handle, status,
}

abbrev pub state_of : Option ActionPlan → Option PlanState
state_of none = none
state_of (some plan) = some plan.execution_state

-- The state of a plan.
abbrev pub plan_state : ℕ → Tables → Option PlanState
plan_state plan_id t = state_of (first (by_id plan_id) t.plans.rows)

abbrev pub is_open_state : Option PlanState → Bool
is_open_state none = false
is_open_state (some s) = is_open s

finish-ok :
    (i now : ℕ) (status : PlanState) (r : ExecutionResult) (s : Plans)
    → is_terminal status ≡ true
    → is_open_state (state_of (first (by_id i) s.rows)) ≡ true
    → (Store.finish i status r now s).1 ≡ ok tt
unfolding Store.finish
finish-ok i now status r s h k = elim (Option-cases (first (by_id i) s.rows)) [
  | inl e ↦ absurd (ground (arith, e, k))
  | inr (p, e) ↦
      let o : is_open p.execution_state ≡ true = ground (arith, e, k) in
      rw (h, e) (rw (not_terminal p.execution_state o, o) refl)
]
  where
    not_terminal : (x : PlanState) → is_open x ≡ true → is_terminal x ≡ false
    not_terminal x h = ground arith

pub close_closes :
    (i now : ℕ) (state : PlanState) (r : ExecutionResult) (t : Tables)
    → is_terminal state ≡ true
    → is_open_state (plan_state i t) ≡ true
    → ((close (some i) state r now t).1 ≡ ok tt)
      × (plan_state i (close (some i) state r now t).0 ≡ some state)
unfolding close
close_closes i now state r t h k =
    let done : (Store.finish i state r now t.plans).1 ≡ ok tt =
      finish-ok i now state r t.plans h k in
    let (p, found, s, at_now, valid) = finish-result_valid i now state r t.plans done in
    (done, rw found (ap some s))

-- The plan of the progress is validated, and it is open or was closed as failed.
pub record Failing (plan_id : ℕ) (p : Progress) : Type 0 where
  pub is_plan : p.plan ≡ some plan_id
  pub is_sent : p.sent ≡ true
  pub is_left :
      (is_open_state (plan_state plan_id p.tables) ≡ true)
      ⊎ (plan_state plan_id p.tables ≡ some failed)

-- What an ending of an attempt that sent the operation has done to the plan.
abbrev pub Ends : {A : Type 0} → ℕ → Ended A → Type 0
Ends plan_id (p, succeeds o) = plan_state plan_id p.tables ≡ some executed
Ends plan_id (p, fails c e) = Failing plan_id p
Ends plan_id (p, cancels) = plan_state plan_id p.tables ≡ some reconciliation_required
Ends plan_id (p, aborts) = Unit
Ends plan_id (p, retries) = Unit

-- The operation is sent for the plan, and the plan is open.
pub record Sent (plan_id : ℕ) (p : Progress) : Type 0 where
  pub has_plan : p.plan ≡ some plan_id
  pub has_sent : p.sent ≡ true
  pub has_open : is_open_state (plan_state plan_id p.tables) ≡ true

abbrev PlanIn : ℕ → Option PlanState → Tables × Result (Unit {0}) → Type 0
PlanIn plan_id state (t, r) = (r ≡ ok tt) × (plan_state plan_id t ≡ state)

abbrev After : {A : Type 0} → ℕ → Option PlanState → Ended A → Type 0
After plan_id state e = plan_state plan_id e.0.tables ≡ state

module _ {A : Type 0} (m : Mutation A) (actor : Actor) (attempt : ℕ) (plan_id : ℕ) (p : Progress)
    (sent : Sent plan_id p) where
  abbrev clock : ℕ
  clock = (m.game attempt).now

  failing : Failing plan_id p
  failing = record { is_plan = sent.has_plan; is_sent = sent.has_sent; is_left = inl sent.has_open }

  concluded-Ends :
      (result : ExecutionResult) (c : Bool) (ending : Ending A) (out : Tables × Result (Unit {0}))
      (state : PlanState)
      → ((u : Tables)
          → plan_state plan_id u ≡ some state
          → Ends plan_id (record p { tables = log actor p result u }, ending))
      → PlanIn plan_id (some state) out
      → Ends plan_id (concluded actor p result c ending out)
  concluded-Ends result c ending (t, ok u) state k (h, s) = k t s
  concluded-Ends result c ending (t, raised e) state k (h, s) = absurd (ground (arith, h))

  close-PlanIn :
      (plan : Option ℕ) (state : PlanState) (r : ExecutionResult) (t : Tables) (n : ℕ)
      → plan ≡ some plan_id
      → is_terminal state ≡ true
      → is_open_state (plan_state plan_id t) ≡ true
      → PlanIn plan_id (some state) (close plan state r n t)
  close-PlanIn none state r t n e h k = absurd (ground (arith, e))
  close-PlanIn (some i) state r t n e h k =
      let f : plan_id ≡ i = ground (arith, e) in
      subst (λ j. PlanIn plan_id (some state) (close (some j) state r n t)) f
        (close_closes plan_id n state r t h k)

  cancel-Ends : (n : ℕ) → Ends plan_id (cancel {A = A} actor n p)
  unfolding cancel
  cancel-Ends n =
      concluded-Ends _ true cancels _ reconciliation_required (λ u s. s)
        (close-PlanIn p.plan reconciliation_required _ p.tables n sent.has_plan refl sent.has_open)

  success_keeps :
      (account : Option ℕ) (n : ℕ)
      → plan_state plan_id (mark_success account n p.tables) ≡ plan_state plan_id p.tables
  unfolding mark_success
  success_keeps none n = refl
  success_keeps (some i) n = elim (Option-cases (get_for_update i p.tables)) [
    | inl e ↦ rw e refl
    | inr (row, e) ↦ rw e refl
  ]

  succeed-Ends :
      (n : ℕ) (reconciled : Bool) (v : Option A) → Ends plan_id (succeed actor n reconciled v p)
  unfolding succeed
  succeed-Ends n reconciled v =
      concluded-Ends (succeeded reconciled) false
        (succeeds (record { applied = true; reconciled = reconciled; result = v }))
        (close p.plan executed (succeeded reconciled) n (mark_success p.account n p.tables))
        executed (λ u s. s)
        (close-PlanIn p.plan executed (succeeded reconciled) (mark_success p.account n p.tables) n
          sent.has_plan refl (rw (success_keeps p.account n) sent.has_open))

  on_verified-Ends :
      (reconciled : Bool) (v : Option A) (r : Reply Bool)
      → Ends plan_id (on_verified m actor attempt reconciled v p r)
  unfolding on_verified
  on_verified-Ends reconciled v (returned true) = succeed-Ends clock reconciled v
  on_verified-Ends reconciled v (returned false) = failing
  on_verified-Ends reconciled v (raises e) = failing
  on_verified-Ends reconciled v cancelled = cancel-Ends clock

  on_ambiguous-Ends :
      (verify : ℕ → Option A → Reply Bool) (r : Reply (Unit {0}))
      → Ends plan_id (on_ambiguous m actor attempt verify p r)
  unfolding on_ambiguous
  on_ambiguous-Ends verify (returned u) = on_verified-Ends true none (verify attempt none)
  on_ambiguous-Ends verify (raises e) = failing
  on_ambiguous-Ends verify cancelled = cancel-Ends clock

  on_value-Ends : (v : A) (r : Reply (Unit {0})) → Ends plan_id (on_value m actor attempt v p r)
  unfolding on_value
  on_value-Ends v (returned u) = elim (Option-cases m.verify) [
    | inl e ↦ rw e (succeed-Ends clock false (some v))
    | inr (f, e) ↦ rw e (on_verified-Ends false (some v) (f attempt (some v)))
  ]
  on_value-Ends v (raises e) = failing
  on_value-Ends v cancelled = cancel-Ends clock

  on_conflict-Ends : (r : Reply (Unit {0})) → Ends {A = A} plan_id (on_conflict m actor attempt p r)
  unfolding on_conflict
  on_conflict-Ends (returned u) = tt
  on_conflict-Ends (raises e) = failing
  on_conflict-Ends cancelled = tt

  on_rejected-Ends :
      (out : Tables × Result (Unit {0}))
      → PlanIn plan_id (some failed) out
      → Ends {A = A} plan_id (on_rejected p out)
  on_rejected-Ends (t, ok u) (h, s) = record {
    is_plan = sent.has_plan;
    is_sent = sent.has_sent;
    is_left = inr s;
  }
  on_rejected-Ends (t, raised e) (h, s) = absurd (ground (arith, h))

  on_error-Ends : (e : Error) → Ends plan_id (on_error m actor attempt e p)
  unfolding on_error
  on_error-Ends e = elim (Bool-cases (is_conflict e)) [
    | inl c ↦ elim (Bool-cases (leb 2 attempt)) [
      | inl last ↦ rw (c, last) failing
      | inr more ↦ rw (c, more) (on_conflict-Ends (m.reread attempt))
    ]
    | inr c ↦ elim (Bool-cases (is_ambiguous e)) [
      | inl a ↦ elim (Option-cases m.verify) [
        | inl v ↦ rw (c, a, v) failing
        | inr (f, v) ↦ rw (c, a, v) (on_ambiguous-Ends f (m.reread attempt))
      ]
      | inr a ↦ elim (Bool-cases (is_session_rejected e)) [
        | inl r ↦
            rw (c, a, r)
              (on_rejected-Ends (close p.plan failed (status (codes "rejected")) clock p.tables) (
                close-PlanIn p.plan failed (status (codes "rejected")) p.tables clock sent.has_plan
                  refl sent.has_open))
        | inr r ↦ rw (c, a, r) failing
      ]
    ]
  ]

  pub handle-Ends : (r : Reply A) → Ends plan_id (handle m actor attempt p r)
  unfolding handle
  handle-Ends (returned v) = on_value-Ends v (m.reread attempt)
  handle-Ends (raises e) = on_error-Ends e
  handle-Ends cancelled = cancel-Ends clock
