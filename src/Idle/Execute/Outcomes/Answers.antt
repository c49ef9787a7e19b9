-- ===== src/Idle/Execute/Outcomes/Answers.antt =====
-- What `execute` sends, and what its answers mean.
use placegame_mcp.Errors.{ok}
use placegame_mcp.Prelude.{◌≤◌, ◌<◌, ◌≡◌, refl, arith, true, false, inl, inr, if◌then◌else◌}
use placegame_mcp.Text.{Text}
use placegame_mcp.Plans.Canonical.{Json}
use placegame_mcp.Idle.Planner.{IdleSummary}
use placegame_mcp.Idle.Claims.{Database, Request, claim}
use placegame_mcp.Idle.Execute.{
  World, precondition_failed, reconciled, unproven, proven, after_send, as_executed, as_reconciled,
  IdleExecution, execute,
}
use placegame_mcp.Idle.Execute.Outcomes.{leave-sends, Sends, execute_cases}
use placegame_mcp.Idle.Execute.Outcomes.Meaning.{
  IsExecuted, Reconciled, after_send_cases, leave_means, recovery_outcome, unsent,
}

module _ (sha256_of : Json → Text) where
  -- An execution sends at most one collect request. It sends one only if its claim of the plan
  -- succeeded and was a first one, the account can be used, the claim still owns the plan when it
  -- looks again, and the policy and the state of the game are those of the plan.
  pub execute-Sends :
      (w : World) (r : Request) (db : Database)
      → ((execute sha256_of w r db).sends ≤ 1)
        × ((execute sha256_of w r db).sends ≡ 1 → Sends sha256_of w r db)
  execute-Sends w r db =
      execute_cases sha256_of (λ out. (out.sends ≤ 1) × (out.sends ≡ 1 → Sends sha256_of w r db)) w
        r db (λ t e. (omega arith, λ h. absurd (omega (arith, h))))
        (λ s.
          let o = after_send w s.claimed s.policy s.before in
          let one = leave-sends w r s.claimed 1 o true (w.meanwhile (w.others (claim r db).0)) in
          (omega (arith, one), λ h. s))
        (λ c won. unsent w r c precondition_failed true (w.meanwhile (w.others (claim r db).0)))
        (λ c policy current won x y.
          unsent w r c (if proven c policy current then reconciled else unproven) false
            (w.meanwhile (w.others (claim r db).0)))

  -- What an answer says, read back from the world.
  pub record Collected (w : World) (r : Request) (db : Database) : Type 0 where
    pub sent : Sends sha256_of w r db
    pub after : IdleSummary
    pub accepted : w.idle_collect ≡ ok true
    pub seen_after : w.after ≡ ok after
    pub decreased : after.accumulated_seconds < sent.before.accumulated_seconds

  -- An answer of an execution is about a plan that is executed in the tables. If its status is
  -- `executed`, then the collect request was sent and accepted, and the seconds went down; if it is
  -- `reconciled`, then the game had nothing more to collect under the policy.
  pub execute-Collected :
      (w : World) (r : Request) (db : Database) (v : IdleExecution)
      → (execute sha256_of w r db).result ≡ ok v
      → IsExecuted v.plan_id (execute sha256_of w r db).tables
        × (v.status ≡ as_executed → Collected w r db)
        × (v.status ≡ as_reconciled → Reconciled w)
  execute-Collected w r db v =
      execute_cases sha256_of
        (λ out.
          out.result ≡ ok v
          → IsExecuted v.plan_id out.tables
            × (v.status ≡ as_executed → Collected w r db)
            × (v.status ≡ as_reconciled → Reconciled w))
        w r db (λ t e h. absurd (ground arith))
        (λ s h.
          let o = after_send w s.claimed s.policy s.before in
          let (there, d, e) =
            leave_means w r s.claimed 1 o true (w.meanwhile (w.others (claim r db).0)) v h in
          let (fin, rec) = after_send_cases w s.claimed s.policy s.before o refl in
          (
            there,
            λ x.
                let (a, accepted, seen, less) = fin (d x) in
                record {
                  sent = s;
                  after = a;
                  accepted = accepted;
                  seen_after = seen;
                  decreased = less;
                },
            λ x.
                let (idle, seen, wait) = rec (e x) in
                record {
                  policy = s.policy;
                  idle = idle;
                  locked = s.locked;
                  seen = inl seen;
                  waiting = wait;
                },
          ))
        (λ c won h.
          let (there, d, e) =
            leave_means w r c 0 precondition_failed true (w.meanwhile (w.others (claim r db).0)) v
              h in
          (there, λ x. absurd (ground (arith, d x)), λ x. absurd (ground (arith, e x))))
        (λ c policy current won x y h.
          let o = if proven c policy current then reconciled else unproven in
          let (there, d, e) =
            leave_means w r c 0 o false (w.meanwhile (w.others (claim r db).0)) v h in
          let (m, n) = recovery_outcome c policy current in
          (
            there,
            λ k. absurd (m (d k)),
            λ k. record {
              policy = policy;
              idle = current;
              locked = x;
              seen = inr y;
              waiting = n (e k);
            },
          ))
